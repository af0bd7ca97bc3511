-- ===== src/Tests/Baseline.antt =====
-- The learner of responses on concrete inputs.
use pikopod.Base.{ℕ, ◌≡◌, refl, true, some, All, ◌&&◌, none, [], ◌∷◌, bytes_eq}
use pikopod.Base.Map.{Map, lookup, has}
use pikopod.Base.Bytes.{Bytes, codes}
use pikopod.Base.Json.{Json, obj, str, member, end}
use pikopod.PathTemplates.{new_guard, apply}
use pikopod.Baseline.{Family, Learner, FieldValue, flatten, family_key}
use pikopod.Baseline.Families.{is_warm, copy_fields, or_new_family, observe_family, observe}
use pikopod.Baseline.Runs.{observe_step, Response, meet, meet_all, any_promotes, family_of, step_of}
use pikopod.Baseline.Bounds.{FamilyFits, meet_all-FieldsFit}
use pikopod.Baseline.Frozen.{reference_fixed}
use pikopod.Baseline.Learned.{learned_quiet}
use pikopod.Drift.Conform.{is_empty}
use pikopod.Drift.Diff.{observed_field}

abbrev learner : Learner
learner = record {
  guard = new_guard 0;
  warmup = record { min_samples = 1; min_age = 0 };
  families = [];
  matcher = none;
  value_volatile = [];
}

abbrev family : Family
family = or_new_family (codes "GET") (codes "/pets/{id}") (codes "2xx") 1 none

abbrev pet : Bytes → Json
pet status = obj (member (codes "status") (str status) end)

abbrev response : Bytes → ℕ → Response
response status time = record {
  method = codes "GET";
  path = codes "/pets";
  status = 200;
  body = pet status;
  time = time;
  clock = time;
}

abbrev key : Bytes
key = family_key (codes "GET") (codes "/pets") (codes "2xx")

abbrev sold : Response
sold = response (codes "sold") 2

-- The learner after an open pet.
abbrev one_open : Learner
one_open = (meet learner (response (codes "open") 1)).0

empty-FieldsFit : All FamilyFits learner.families
empty-FieldsFit = tt

meet_all-FieldsFit_example :
    All FamilyFits (meet_all learner (response (codes "open") 1 ∷ sold ∷ [])).families
unfolding any_promotes apply new_guard observe
meet_all-FieldsFit_example =
    meet_all-FieldsFit learner (response (codes "open") 1 ∷ sold ∷ []) refl empty-FieldsFit

abbrev open_family : Family
open_family =
    observe_step (family_of learner (response (codes "open") 1))
      (step_of learner (response (codes "open") 1))

reference_fixed_example :
    (g : Family) × (lookup key (meet_all one_open (sold ∷ [])).families ≡ some g)
    × (g.frozen ≡ true)
    × (g.reference ≡ copy_fields open_family.fields)
    × (g.ref_status_codes ≡ open_family.status_codes)
    × (g.frozen_samples ≡ open_family.samples)
unfolding any_promotes apply is_warm observe_family lookup observe new_guard
reference_fixed_example = reference_fixed key one_open open_family sold [] refl refl refl refl

abbrev open_value : FieldValue
open_value = record { typ = codes "string"; value = codes "open" }

abbrev learned : Learner
learned = meet_all (meet_all learner (response (codes "open") 1 ∷ [])) (sold ∷ [])

learned_quiet_example :
    is_empty
        (observed_field
          (codes "pets")
          (meet learned (response (codes "open") 3)).1
          (codes "status")).0
      && is_empty
          (observed_field
            (codes "pets")
            (meet learned (response (codes "open") 3)).1
            (codes "status")).1
    ≡ true
unfolding lookup has flatten observe_family is_warm any_promotes meet_all apply observe new_guard
learned_quiet_example =
    learned_quiet key learner (response (codes "open") 1) sold (response (codes "open") 3) [] []
      (codes "status") open_value (codes "pets") refl refl refl refl refl refl refl refl refl refl

abbrev families : Map Bytes Family
families = (codes "a", record family { frozen = true }) ∷ []
