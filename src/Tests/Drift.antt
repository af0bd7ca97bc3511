-- ===== src/Tests/Drift.antt =====
-- A comparison of an observation with its baseline on concrete inputs.
use pikopod.Base.{◌≡◌, ◌↔◌, true, false, some, [], ◌∷◌, ◌==◌, bytes_eq}
use pikopod.Base.Bytes.{codes}
use pikopod.Baseline.{FieldStats, Family, Observation}
use pikopod.Drift.Diff.{diff}
use pikopod.Drift.Conform.{Conforms, diff_quiet}

abbrev stats : FieldStats
stats = record {
  count = 99;
  types = (codes "string", 99) ∷ [];
  values = some ((codes "sold", 50) ∷ (codes "open", 49) ∷ []);
  high_cardinality = false;
  churned = false;
  last_value = [];
  seen_value = false;
}

abbrev family : Family
family = record {
  method = codes "GET";
  template = codes "/pets/{id}";
  status_class = codes "2xx";
  samples = 100;
  first_seen = 1;
  last_seen = 5;
  fields = [];
  status_codes = [];
  frozen_at = 4;
  ref_status_codes = (codes "200", 100) ∷ [];
  frozen = true;
  reference = (codes "status", stats) ∷ [];
  frozen_samples = 100;
}

abbrev observation : Observation
observation = record {
  family = family;
  fields = (codes "status", record { typ = codes "string"; value = codes "lost" }) ∷ [];
  status = 200;
  ready = true;
  template = codes "/pets/{id}";
}

diff_quiet_example :
    (diff (codes "pets") observation (λ class. class == codes "2xx") ≡ [])
    ↔ Conforms observation (λ class. class == codes "2xx")
diff_quiet_example = diff_quiet (codes "pets") observation (λ class. class == codes "2xx")
