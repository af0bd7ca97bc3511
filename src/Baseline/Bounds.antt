-- ===== src/Baseline/Bounds.antt =====
-- How much a family keeps (internal/baseline/baseline.go, `fieldTrackCap` and `valueTrackCap`).
use pikopod.Base.{
  ℕ, subst, sym, ◌≤◌, ◌≡◌, refl, Bool, true, false, not, ◌&&◌, Option, List, [], ◌∷◌, ◌==◌, arith,
  leb, length, bytes_eq, Bool-cases, inl, inr, All,
}
use pikopod.Base.Map.{Map, lookup, insert, has, length-insert, All-insert}
use pikopod.Base.Bytes.{Bytes, to_lower}
use pikopod.Volatile.{Matcher, leaf}
use pikopod.Baseline.{
  FieldStats, Family, Learner, FieldValue, or_no_map, or_new_stats, new_stats, field_track_cap,
  value_track_cap, track_value, track_churn, update_stats, observe_field, observe_fields, flatten,
  in_set, is_volatile,
}
use pikopod.Baseline.Runs.{
  Step, observe_step, observe_step-fields, Response, meet, meet_all, any_promotes, key_of, step_of,
  family_of, meet_lem,
}
use pikopod.Baseline.Families.{or_new_family}

-- At most 24 values, and none once they are given up.
pub record FewValues (st : FieldStats) : Type 0 where
  pub few : length (or_no_map st.values) ≤ value_track_cap
  pub given_up : st.high_cardinality ≡ true → length (or_no_map st.values) ≡ 0

abbrev pub FieldFits : Bytes × FieldStats → Type 0
FieldFits e = FewValues e.1

-- At most 2000 fields, each with few values.
pub record FieldsFit (fields : Map Bytes FieldStats) : Type 0 where
  pub few : length fields ≤ field_track_cap
  pub each : All FieldFits fields

track_value-FewValues :
    (st : FieldStats) (value : Bytes)
    → FewValues st
    → st.high_cardinality ≡ false
    → FewValues (track_value st value)
unfolding track_value
track_value-FewValues st value h q = record { few = ground arith; given_up = ground (arith, q) }

update_stats-FewValues :
    (quiet volatile : Bool) (fv : FieldValue) (st : FieldStats)
    → FewValues st
    → FewValues (update_stats quiet volatile fv st)
unfolding update_stats track_churn track_value
update_stats-FewValues quiet volatile fv st h = record {
  few = ground (arith, h.few);
  given_up = ground (arith, h.given_up);
}

new_stats-FewValues : FewValues new_stats
new_stats-FewValues = record { few = omega arith; given_up = λ e. refl }

found-FewValues :
    (path : Bytes) (fields : Map Bytes FieldStats)
    → All FieldFits fields
    → FewValues (or_new_stats (lookup path fields))
unfolding lookup
found-FewValues path [] h = new_stats-FewValues
found-FewValues path ((k, st) ∷ fields) h = elim (Bool-cases (k == path)) [
  | inl e ↦ rw e h.0
  | inr e ↦ rw e (found-FewValues path fields h.1)
]

length_room :
    (path : Bytes) (st : FieldStats) (fields : Map Bytes FieldStats)
    → not (has path fields) && leb field_track_cap (length fields) ≡ false
    → length fields ≤ field_track_cap
    → length (insert path st fields) ≤ field_track_cap
length_room path st fields room h = ground (arith, room, h, length-insert path st fields)

observe_field-FieldsFit :
    (l : List Bytes) (m : Option Matcher) (fields : Map Bytes FieldStats) (path : Bytes)
    (fv : FieldValue)
    → FieldsFit fields
    → FieldsFit (observe_field l m fields path fv)
unfolding observe_field
observe_field-FieldsFit l m fields path fv h =
    elim (Bool-cases (not (has path fields) && leb field_track_cap (length fields))) [
      | inl full ↦ rw full h
      | inr room ↦
          let st =
            update_stats (in_set (to_lower (leaf path)) l) (is_volatile m path) fv
              (or_new_stats (lookup path fields)) in
          rw room (record {
            few = length_room path st fields room h.few;
            each =
                All-insert FieldFits path st fields
                  (update_stats-FewValues _ _ fv (or_new_stats (lookup path fields))
                    (found-FewValues path fields h.each))
                  h.each;
          })
    ]

observe_fields-FieldsFit :
    (l : List Bytes) (m : Option Matcher) (fields : Map Bytes FieldStats)
    (out : Map Bytes FieldValue)
    → FieldsFit fields
    → FieldsFit (observe_fields l m fields out)
unfolding observe_fields
observe_fields-FieldsFit l m fields [] h = h
observe_fields-FieldsFit l m fields ((path, fv) ∷ out) h =
    observe_fields-FieldsFit l m (observe_field l m fields path fv) out
      (observe_field-FieldsFit l m fields path fv h)

observe_step-FieldsFit :
    (f : Family) (s : Step) → FieldsFit f.fields → FieldsFit (observe_step f s).fields
observe_step-FieldsFit f s h = rw (observe_step-fields f s) (
    observe_fields-FieldsFit s.learner.value_volatile s.learner.matcher f.fields (flatten s.body) h)

abbrev pub FamilyFits : Bytes × Family → Type 0
FamilyFits e = FieldsFit e.1.fields

found-FieldsFit :
    (k method template class : Bytes) (ts : ℕ) (families : Map Bytes Family)
    → All FamilyFits families
    → FieldsFit (or_new_family method template class ts (lookup k families)).fields
unfolding lookup
found-FieldsFit k method template class ts [] h = record { few = omega arith; each = tt }
found-FieldsFit k method template class ts ((j, f) ∷ families) h = elim (Bool-cases (j == k)) [
  | inl e ↦ rw e h.0
  | inr e ↦ rw e (found-FieldsFit k method template class ts families h.1)
]

-- Whatever responses come, of which none promotes a position of a path, each family of the learner
-- keeps at most 2000 fields, and of each at most 24 values, none once it has given up the field's
-- values.
pub meet_all-FieldsFit :
    (l : Learner) (rs : List Response)
    → any_promotes l rs ≡ false
    → All FamilyFits l.families
    → All FamilyFits (meet_all l rs).families
unfolding meet_all any_promotes
meet_all-FieldsFit l [] n h = h
meet_all-FieldsFit l (r ∷ rs) n h =
    let f = family_of l r in
    let fits =
      observe_step-FieldsFit f (step_of l r)
        (found-FieldsFit (key_of l r) r.method _ _ r.time l.families h) in
    meet_all-FieldsFit (meet l r).0 rs (ground (arith, n)) (
      subst (All FamilyFits) (sym (meet_lem l r (ground (arith, n))).0)
        (All-insert FamilyFits (key_of l r) (observe_step f (step_of l r)) l.families fits h))
