-- ===== src/Baseline/Seen.antt =====
-- What the statistics of a field have seen (internal/baseline/baseline.go, the loop of `Observe`).
use pikopod.Base.{
  ℕ, ◌+◌, ◌≤◌, ◌≡◌, sym, ap, ◌∙◌, subst, Bool, true, false, not, ◌&&◌, ◌||◌, Option, none, some,
  List, [], ◌∷◌, ◌==◌, arith, leb, length, bytes_eq, bytes_beq_iff, Bool-cases, Option-cases, inl,
  inr,
}
use pikopod.Base.Map.{
  Map, lookup, insert, has, lookup-insert, lookup-insert-same, has-insert, length-insert,
}
use pikopod.Base.Bytes.{Bytes, to_lower}
use pikopod.Volatile.{Matcher, leaf}
use pikopod.Baseline.{
  FieldStats, FieldValue, in_set, is_volatile, or_0, or_no_map, or_new_stats, is_string,
  field_track_cap, add_count, track_value, track_churn, update_stats, observe_field, observe_fields,
}

-- The statistics have seen the value, or have given up its values.
abbrev pub seen_by : FieldValue → FieldStats → Bool
seen_by fv st =
    has fv.typ st.types
    && (not (is_string fv) || (st.high_cardinality || has fv.value (or_no_map st.values)))

abbrev pub seen_at : FieldValue → Option FieldStats → Bool
seen_at fv none = false
seen_at fv (some st) = seen_by fv st

has-add_count :
    (m : Map Bytes ℕ) (k j : Bytes) (n : ℕ) → has j (add_count m k n) ≡ (k == j) || has j m
unfolding add_count
has-add_count m k j n = has-insert k j (or_0 (lookup k m) + n) m

track_value_lem :
    (st : FieldStats) (value asked : Bytes)
    → ((track_value st value).types ≡ st.types)
      × ((track_value st value).high_cardinality
            || has asked (or_no_map (track_value st value).values)
          ≡ (track_value st value).high_cardinality
            || ((value == asked) || has asked (or_no_map st.values)))
unfolding track_value
track_value_lem st value asked =
    (ground arith, ground (arith, has-add_count (or_no_map st.values) value asked 1))

-- What one round does to the types and the values.
update_stats_types :
    (quiet volatile : Bool) (fv : FieldValue) (st : FieldStats)
    → (update_stats quiet volatile fv st).types ≡ add_count st.types fv.typ 1
unfolding update_stats track_churn track_value
update_stats_types quiet volatile fv st = ground arith

update_stats_values :
    (quiet volatile : Bool) (fv : FieldValue) (st : FieldStats) (asked : Bytes)
    → (st.high_cardinality || has asked (or_no_map st.values) ≡ true)
    → (update_stats quiet volatile fv st).high_cardinality
        || has asked (or_no_map (update_stats quiet volatile fv st).values)
      ≡ true
unfolding update_stats track_churn track_value
update_stats_values quiet volatile fv st asked h =
    ground (arith, h, has-add_count (or_no_map st.values) fv.value asked 1)

update_stats_new :
    (quiet volatile : Bool) (fv : FieldValue) (st : FieldStats)
    → is_string fv ≡ true
    → (update_stats quiet volatile fv st).high_cardinality
        || has fv.value (or_no_map (update_stats quiet volatile fv st).values)
      ≡ true
unfolding update_stats track_churn track_value
update_stats_new quiet volatile fv st h = ground (
  arith,
  h,
  has-add_count (or_no_map st.values) fv.value fv.value 1,
  bytes_beq_iff fv.value fv.value,
)

update_stats_keeps :
    (quiet volatile : Bool) (fv asked : FieldValue) (st : FieldStats)
    → seen_by asked st ≡ true
    → seen_by asked (update_stats quiet volatile fv st) ≡ true
update_stats_keeps quiet volatile fv asked st h = rw (update_stats_types quiet volatile fv st) (
    ground (
      arith,
      h,
      has-add_count st.types fv.typ asked.typ 1,
      update_stats_values quiet volatile fv st asked.value,
    ))

update_stats_sees :
    (quiet volatile : Bool) (fv : FieldValue) (st : FieldStats)
    → seen_by fv (update_stats quiet volatile fv st) ≡ true
update_stats_sees quiet volatile fv st = rw (update_stats_types quiet volatile fv st) (
    ground (
      arith,
      has-add_count st.types fv.typ fv.typ 1,
      bytes_beq_iff fv.typ fv.typ,
      update_stats_new quiet volatile fv st,
    ))

observe_field_keeps :
    (l : List Bytes) (m : Option Matcher) (fields : Map Bytes FieldStats) (path p : Bytes)
    (fv asked : FieldValue)
    → seen_at asked (lookup p fields) ≡ true
    → seen_at asked (lookup p (observe_field l m fields path fv)) ≡ true
unfolding observe_field
observe_field_keeps l m fields path p fv asked h =
    elim (Bool-cases (not (has path fields) && leb field_track_cap (length fields))) [
      | inl full ↦ rw full h
      | inr room ↦
          let st =
            update_stats (in_set (to_lower (leaf path)) l) (is_volatile m path) fv
              (or_new_stats (lookup path fields)) in
          rw room (
            rw (lookup-insert path p st fields) (elim (Bool-cases (path == p)) [
              | inr other ↦ rw other h
              | inl same ↦
                  let e : path ≡ p = ground (arith, same, bytes_beq_iff path p) in
                  rw same (elim (Option-cases (lookup p fields)) [
                    | inl n ↦ absurd (ground (arith, n, h, ap (seen_at asked) n))
                    | inr (old, n) ↦
                        update_stats_keeps _ _ fv asked (or_new_stats (lookup path fields))
                          (rw (e, n) (ap (seen_at asked) (sym n) ∙ h))
                  ])
            ]))
    ]

pub observe_fields_keeps :
    (l : List Bytes) (m : Option Matcher) (fields : Map Bytes FieldStats) (p : Bytes)
    (out : Map Bytes FieldValue) (asked : FieldValue)
    → seen_at asked (lookup p fields) ≡ true
    → seen_at asked (lookup p (observe_fields l m fields out)) ≡ true
unfolding observe_fields
observe_fields_keeps l m fields p [] asked h = h
observe_fields_keeps l m fields p ((path, fv) ∷ out) asked h =
    observe_fields_keeps l m (observe_field l m fields path fv) p out asked
      (observe_field_keeps l m fields path p fv asked h)

full_test :
    (path : Bytes) (fields : Map Bytes FieldStats)
    → has path fields ≡ false
    → field_track_cap ≤ length fields
    → not (has path fields) && leb field_track_cap (length fields) ≡ true
full_test path fields new c = ground (arith, new, c)

has_other :
    (path p : Bytes) (st : FieldStats) (fields : Map Bytes FieldStats)
    → has path fields ≡ true
    → has p fields ≡ false
    → has p (insert path st fields) ≡ false
has_other path p st fields old h =
    ground
      (arith, old, h, has-insert path p st fields, bytes_beq_iff path p, ap (λ x. has x fields))

length_other :
    (path : Bytes) (st : FieldStats) (fields : Map Bytes FieldStats)
    → has path fields ≡ true
    → field_track_cap ≤ length fields
    → field_track_cap ≤ length (insert path st fields)
length_other path st fields old c = ground (arith, old, c, length-insert path st fields)

-- Where there was no room for a field, there is none later in the loop.
observe_field-full :
    (l : List Bytes) (m : Option Matcher) (fields : Map Bytes FieldStats) (path p : Bytes)
    (fv : FieldValue)
    → has p fields ≡ false
    → field_track_cap ≤ length fields
    → (has p (observe_field l m fields path fv) ≡ false)
      × (field_track_cap ≤ length (observe_field l m fields path fv))
unfolding observe_field
observe_field-full l m fields path p fv h c = elim (Bool-cases (has path fields)) [
  | inr new ↦ rw (full_test path fields new c) (h, c)
  | inl old ↦
      let st =
        update_stats (in_set (to_lower (leaf path)) l) (is_volatile m path) fv
          (or_new_stats (lookup path fields)) in
      rw old (has_other path p st fields old h, length_other path st fields old c)
]

observe_fields-full :
    (l : List Bytes) (m : Option Matcher) (fields : Map Bytes FieldStats) (p : Bytes)
    (out : Map Bytes FieldValue)
    → has p fields ≡ false
    → field_track_cap ≤ length fields
    → has p (observe_fields l m fields out) ≡ false
unfolding observe_fields
observe_fields-full l m fields p [] h c = h
observe_fields-full l m fields p ((path, fv) ∷ out) h c =
    let (h', c') = observe_field-full l m fields path p fv h c in
    observe_fields-full l m (observe_field l m fields path fv) p out h' c'

observe_field_sees :
    (l : List Bytes) (m : Option Matcher) (fields : Map Bytes FieldStats) (path : Bytes)
    (fv : FieldValue)
    → not (has path fields) && leb field_track_cap (length fields) ≡ false
    → seen_at fv (lookup path (observe_field l m fields path fv)) ≡ true
unfolding observe_field
observe_field_sees l m fields path fv room =
    let st =
      update_stats (in_set (to_lower (leaf path)) l) (is_volatile m path) fv
        (or_new_stats (lookup path fields)) in
    rw room (
      rw (lookup-insert-same path st fields)
        (update_stats_sees _ _ fv (or_new_stats (lookup path fields))))

full_lost :
    (l : List Bytes) (m : Option Matcher) (fields : Map Bytes FieldStats) (path p : Bytes)
    (v : FieldValue) (out : Map Bytes FieldValue)
    → path ≡ p
    → not (has path fields) && leb field_track_cap (length fields) ≡ true
    → has p (observe_fields l m (observe_field l m fields path v) out) ≡ true
    → ⊥
unfolding observe_field
full_lost l m fields path p v out e full h =
    let new : has p fields ≡ false = ap (λ x. has x fields) (sym e) ∙ ground (arith, full) in
    let (h', c') = observe_field-full l m fields path p v new (ground (arith, full)) in
    ground (arith, h, observe_fields-full l m (observe_field l m fields path v) p out h' c')

-- A field of a response that is tracked after it was seen with its value.
pub observe_fields_sees :
    (l : List Bytes) (m : Option Matcher) (fields : Map Bytes FieldStats) (p : Bytes)
    (out : Map Bytes FieldValue) (fv : FieldValue)
    → lookup p out ≡ some fv
    → has p (observe_fields l m fields out) ≡ true
    → seen_at fv (lookup p (observe_fields l m fields out)) ≡ true
unfolding observe_fields lookup
observe_fields_sees l m fields p [] fv e h = absurd (ground (arith, e))
observe_fields_sees l m fields p ((path, v) ∷ out) fv e h = elim (Bool-cases (path == p)) [
  | inr other ↦
      observe_fields_sees l m (observe_field l m fields path v) p out fv (ground (arith, e, other))
        h
  | inl same ↦
      let value : v ≡ fv = ground (arith, e, same) in
      let path_eq : path ≡ p = ground (arith, same, bytes_beq_iff path p) in
      observe_fields_keeps l m (observe_field l m fields path v) p out fv
        (elim (Bool-cases (not (has path fields) && leb field_track_cap (length fields))) [
          | inl full ↦ absurd (full_lost l m fields path p v out path_eq full h)
          | inr room ↦
              subst (λ x. seen_at x (lookup p (observe_field l m fields path v)) ≡ true) value
                (subst (λ x. seen_at v (lookup x (observe_field l m fields path v)) ≡ true) path_eq
                  (observe_field_sees l m fields path v room))
        ])
]
