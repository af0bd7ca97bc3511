-- ===== src/Tests/Alert.antt =====
-- Fingerprints and alerts on concrete inputs.
use pikopod.Base.{
  ◌⊎◌, ◌+◌, ◌-◌, ◌≤◌, ◌≡◌, refl, Bool, true, false, not, ◌&&◌, none, [], ◌∷◌, arith, leb,
  if◌then◌else◌, length, bytes_eq,
}
use pikopod.Base.Map.{lookup, has}
use pikopod.Base.Bytes.{Bytes, codes}
use pikopod.Drift.{Finding, field_removed, preimage}
use pikopod.Drift.Preimage.{preimage_injective}
use pikopod.Alert.{
  Alerter, DriftEvent, FpState, unset, err, max_deliveries_per_hour, delivery_queue,
}
use pikopod.Alert.Report.{report, report_first}
use pikopod.Alert.Once.{finding_call, first_call, calls_on, report_once}
use pikopod.Alert.Evict.{IsValid, IsKept, report_bounded}
use pikopod.Alert.Ceiling.{alerts_in, emit_all, emit_all_ceiling}
use pikopod.Alert.Threshold.{report_all, report_all_threshold}

abbrev finding : Finding
finding = record {
  upstream = codes "pets";
  method = codes "GET";
  template = codes "/pets/{id}";
  status_class = codes "2xx";
  kind = field_removed;
  field = codes "name|first";
  before = codes "string";
  after = [];
  note = [];
  documented = false;
}

abbrev fp : Bytes
fp = codes "fp_0123456789ab"

abbrev seen_once : Bool → FpState
seen_once alerted = record {
  first = 10;
  last = 10;
  occurrences = 1;
  window_start = 10;
  window_count = 1;
  alerted = alerted;
  acked = false;
  event = none;
}

abbrev alerter : Bool → Alerter
alerter alerted = record {
  opts = record {
    min_occurrences = 3;
    window = 900;
    summary_every = 0;
    min_level = unset;
    max_tracked = 2;
  };
  states = (fp, seen_once alerted) ∷ (codes "fp_other", seen_once false) ∷ [];
  persisted = [];
  log = [];
  delivery_window_start = 0;
  delivery_window_count = 58;
  digest_start = 0;
  digest_counts = [];
  digest_floored = 0;
  queue = [];
  deliveries_dropped = 0;
  saturation_evictions = 0;
  saturation_notified = false;
  closed = false;
  last_delivery_ok = true;
  alerts_sent = 0;
}

abbrev event : DriftEvent
event = record {
  fingerprint = fp;
  upstream = codes "pets";
  method = codes "GET";
  endpoint = codes "/pets/{id}";
  status_class = codes "2xx";
  kind = field_removed;
  field = codes "name";
  before = codes "string";
  after = [];
  first_seen = 10;
  last_seen = 20;
  occurrences = 3;
  source = [];
  level = err;
  detail = [];
  note = [];
  category = [];
}

abbrev documented : Finding
documented = record finding { note = codes "see the changelog"; documented = true }

preimage_injective_example :
    ((finding.upstream ≡ documented.upstream)
      × (finding.method ≡ documented.method)
      × (finding.template ≡ documented.template)
      × (finding.status_class ≡ documented.status_class))
    × ((finding.kind ≡ documented.kind)
        × (finding.field ≡ documented.field)
        × (finding.before ≡ documented.before)
        × (finding.after ≡ documented.after))
preimage_injective_example = preimage_injective finding documented (unfold preimage in refl)

report_once_example :
    ((calls_on
        (codes "fp_new")
        (alerter true)
        (finding_call finding 20 ∷ first_call [] event [] 21 ∷ [])).log
      ≡ [])
    ⊎ ((ev : DriftEvent) × ((calls_on
            (codes "fp_new")
            (alerter true)
            (finding_call finding 20 ∷ first_call [] event [] 21 ∷ [])).log
          ≡ ev ∷ []))
report_once_example =
    report_once (codes "fp_new") (alerter true)
      (finding_call finding 20 ∷ first_call [] event [] 21 ∷ [])

alerter_IsValid : IsValid (alerter true)
alerter_IsValid = record { keyed = unfold has in (refl, (refl, tt)); bounded = omega arith }

report_bounded_example :
    IsKept (alerter true) (codes "fp_new") (report (alerter true) finding (codes "fp_new") 20)
    × IsKept
        (alerter true)
        (codes "fp_new")
        (report_first (alerter true) (codes "pets") (codes "fp_new") event [] 20)
report_bounded_example =
    report_bounded (alerter true) finding (codes "fp_new") (codes "pets") [] event 20
      alerter_IsValid

emit_all_ceiling_example :
    (alerts_in (emit_all (alerter true) ((event, 5) ∷ (event, 6) ∷ (event, 7) ∷ [])).queue
      ≤ alerts_in (alerter true).queue
        + (max_deliveries_per_hour - (alerter true).delivery_window_count))
    × (length (emit_all (alerter true) ((event, 5) ∷ (event, 6) ∷ (event, 7) ∷ [])).queue
        ≤ delivery_queue)
emit_all_ceiling_example =
    emit_all_ceiling (alerter true) ((event, 5) ∷ (event, 6) ∷ (event, 7) ∷ [])
      (refl, (refl, (refl, tt))) (omega arith)

report_all_threshold_example :
    length (report_all (alerter false) finding fp (20 ∷ 30 ∷ [])).log
    ≡ length (alerter false).log
      + (if not (seen_once false).alerted && leb 3 ((seen_once false).window_count + 2)
          then 1
          else 0)
report_all_threshold_example =
    report_all_threshold (alerter false) finding fp (20 ∷ 30 ∷ []) (seen_once false)
      (unfold lookup in refl) refl (refl, (refl, tt)) refl
