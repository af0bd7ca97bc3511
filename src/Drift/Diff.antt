-- ===== src/Drift/Diff.antt =====
-- internal/drift/drift.go (`Diff` and its helpers) and the types that it reads from
-- internal/baseline/baseline.go. The share of samples that carry a field is compared with 0.98 in
-- whole numbers, which agrees with the quotient of floats for any count below 10^13.
use pikopod.Base.{
  ℕ, suc, ◌*◌, Bool, false, not, ◌&&◌, ◌||◌, Option, none, some, List, [], ◌∷◌, ◌++◌, ◌==◌, nat_beq,
  leb, ltb, if◌then◌else◌, length, take, bytes_eq,
}
use pikopod.Base.Map.{Map, lookup, has}
use pikopod.Base.Bytes.{Bytes, codes, join}
use pikopod.Base.Sort.{bytes_leb, sorted_keys}
use pikopod.Base.Decimal.{itoa}
use pikopod.Baseline.{FieldStats, Family, FieldValue, Observation}
use pikopod.Drift.{
  Kind, Finding, status_new, status_code_changed, field_added, field_removed, field_nullable,
  type_changed, enum_value_new, error_shape_changed,
}

abbrev pub comma : ℕ
comma = b','

-- "…" in UTF-8
abbrev pub ellipsis : Bytes
ellipsis = 0xe2 ∷ 0x80 ∷ 0xa6 ∷ []

unfoldable pub capped : ℕ → List Bytes → List Bytes
capped n l = if ltb n (length l) then take n l ++ ellipsis ∷ [] else l

unfoldable pub known_codes : Map Bytes ℕ → Bytes
unfolding sorted_keys join
known_codes codes_seen = join comma (sorted_keys codes_seen)

unfoldable pub shape_of : List Bytes → Bytes
unfolding capped join
shape_of sorted_paths = join comma (capped 8 sorted_paths)

abbrev values_of : Option (Map Bytes ℕ) → Map Bytes ℕ
values_of none = []
values_of (some m) = m

unfoldable pub known_values : FieldStats → Bytes
unfolding capped join sorted_keys
known_values st = join comma (capped 6 (sorted_keys (values_of st.values)))

-- The loop of `dominantType`; `best_n` is one more than in the source, which starts at -1.
unfoldable pub dominant_loop : Bytes → ℕ → Map Bytes ℕ → Bytes
unfolding bytes_leb
dominant_loop best best_n [] = best
dominant_loop best best_n ((t, n) ∷ m) =
    let better =
      ltb best_n (suc n) || nat_beq (suc n) best_n && (bytes_leb t best && not (t == best)) in
    dominant_loop (if better then t else best) (if better then suc n else best_n) m

unfoldable pub dominant_type : FieldStats → Bytes
unfolding dominant_loop
dominant_type st = dominant_loop [] 0 st.types

-- `PresenceRatio(path) >= presenceFloor`, for a field of the reference.
unfoldable pub always_present : Family → FieldStats → Bool
always_present fam st =
    let n = if fam.frozen then fam.frozen_samples else fam.samples in
    not (nat_beq fam.samples 0) && (not (nat_beq n 0) && leb (98 * n) (100 * st.count))

unfoldable pub is_error_class : Bytes → Bool
is_error_class class = (class == codes "4xx") || (class == codes "5xx")

-- `mk`
unfoldable pub make_finding : Bytes → Family → Kind → Bytes → Bytes → Bytes → Finding
make_finding upstream fam kind field before after = record {
  upstream = upstream;
  method = fam.method;
  template = fam.template;
  status_class = fam.status_class;
  kind = kind;
  field = field;
  before = before;
  after = after;
  note = [];
  documented = false;
}

-- What the loop over the observed fields finds of a field that the reference knows.
unfoldable pub field_finding : Bytes → Family → Bytes → FieldStats → FieldValue → List Finding
unfolding make_finding has dominant_type known_values
field_finding upstream fam path st fv =
    let mk = make_finding upstream fam in
    if not (has fv.typ st.types)
    then (if fv.typ == codes "null"
        then mk field_nullable path (dominant_type st) (codes "null") ∷ []
        else mk type_changed path (dominant_type st) fv.typ ∷ [])
    else if (fv.typ == codes "string") && not st.high_cardinality
    then elim st.values [
      | none ↦ []
      | some vals ↦
          if has fv.value vals then [] else mk enum_value_new path (known_values st) fv.value ∷ []
    ]
    else []

-- One round of that loop: the fields that are new, and the other findings.
unfoldable pub observed_field : Bytes → Observation → Bytes → List Finding × List Finding
unfolding lookup make_finding field_finding
observed_field upstream obs path = elim (lookup path obs.fields) [
  | none ↦ ([], [])
  | some fv ↦ elim (lookup path obs.family.reference) [
    | none ↦ (make_finding upstream obs.family field_added path [] fv.typ ∷ [], [])
    | some st ↦ ([], field_finding upstream obs.family path st fv)
  ]
]

unfoldable pub observed_fields : Bytes → Observation → List Bytes → List Finding × List Finding
unfolding observed_field
observed_fields upstream obs [] = ([], [])
observed_fields upstream obs (p ∷ ps) =
    let (added, found) = observed_field upstream obs p in
    let (later, rest) = observed_fields upstream obs ps in (added ++ later, found ++ rest)

-- One round of the loop over the fields of the reference.
unfoldable pub reference_field : Bytes → Observation → Bytes → List Finding
unfolding lookup has make_finding always_present dominant_type
reference_field upstream obs path =
    if has path obs.fields then [] else elim (lookup path obs.family.reference) [
      | none ↦ []
      | some st ↦
          if always_present obs.family st && ltb 1 st.count
          then make_finding upstream obs.family field_removed path (dominant_type st) [] ∷ []
          else []
    ]

unfoldable pub reference_fields : Bytes → Observation → List Bytes → List Finding
unfolding reference_field
reference_fields upstream obs [] = []
reference_fields upstream obs (p ∷ ps) =
    reference_field upstream obs p ++ reference_fields upstream obs ps

-- The findings on the status: its class, and the code within it.
unfoldable pub status_findings : Bytes → Observation → (Bytes → Bool) → List Finding
unfolding make_finding has itoa known_codes
status_findings upstream obs known_status_classes =
    let fam = obs.family in
    let code = itoa obs.status in
    let mk = make_finding upstream fam in
    (if known_status_classes fam.status_class
      then []
      else mk status_new [] [] fam.status_class ∷ [])
    ++ (if not (nat_beq obs.status 0)
          && (ltb 0 (length fam.ref_status_codes) && not (has code fam.ref_status_codes))
        then mk status_code_changed [] (known_codes fam.ref_status_codes) code ∷ []
        else [])

-- `Diff`
unfoldable pub diff : Bytes → Observation → (Bytes → Bool) → List Finding
unfolding observed_fields reference_fields status_findings is_error_class shape_of sorted_keys
diff upstream obs known_status_classes =
    let fam = obs.family in
    let paths = sorted_keys obs.fields in
    let ref_paths = sorted_keys fam.reference in
    let out = status_findings upstream obs known_status_classes in
    let (added, field_findings) = observed_fields upstream obs paths in
    let removed = reference_fields upstream obs ref_paths in
    if is_error_class fam.status_class && (ltb 0 (length added) && ltb 0 (length removed))
    then out
      ++ make_finding upstream fam error_shape_changed [] (shape_of ref_paths) (shape_of paths)
        ∷ field_findings
    else out ++ (added ++ (field_findings ++ removed))
