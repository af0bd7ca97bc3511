-- ===== src/Drift/Conform.antt =====
-- When a comparison finds nothing (internal/drift/drift.go, `Diff`).
use pikopod.Base.{
  ℕ, ◌≡◌, ◌↔◌, refl, ap, ◌∙◌, Bool, true, false, not, ◌&&◌, ◌||◌, Option, none, some, List, [], ◌∷◌,
  ◌++◌, ◌==◌, arith, nat_beq, ltb, if◌then◌else◌, length, bytes_eq, bytes_beq_iff, Option-cases,
  inl, inr,
}
use pikopod.Base.Map.{Map, lookup, has, has-lookup, has-lookup-some}
use pikopod.Base.Bytes.{Bytes, codes}
use pikopod.Drift.{Finding}
use pikopod.Base.Sort.{insert_sorted, sorted_keys}
use pikopod.Base.Decimal.{itoa}
use pikopod.Baseline.{FieldStats, Family, FieldValue, Observation}
use pikopod.Drift.Diff.{
  always_present, is_error_class, field_finding, observed_field, observed_fields, reference_field,
  reference_fields, status_findings, diff,
}

-- A value that the reference's statistics allow: a type that was seen, and, for a string of a field
-- with few values, a value that was seen.
abbrev pub allows_value : FieldStats → FieldValue → Option (Map Bytes ℕ) → Bool
allows_value st fv none = true
allows_value st fv (some vals) =
    not (fv.typ == codes "string") || (st.high_cardinality || has fv.value vals)

abbrev pub allows_field : Option FieldStats → Option FieldValue → Bool
allows_field r none = true
allows_field none (some fv) = false
allows_field (some st) (some fv) = has fv.typ st.types && allows_value st fv st.values

-- A field of the reference that may be absent.
abbrev pub allows_absence : Family → Option FieldStats → Option FieldValue → Bool
allows_absence fam none v = true
allows_absence fam (some st) (some fv) = true
allows_absence fam (some st) none = not (always_present fam st && ltb 1 st.count)

-- The observation is one that its family has seen before.
pub record Conforms (obs : Observation) (known : Bytes → Bool) : Type 0 where
  pub class : known obs.family.status_class ≡ true
  pub code :
      nat_beq obs.status 0
        || (nat_beq (length obs.family.ref_status_codes) 0
            || has (itoa obs.status) obs.family.ref_status_codes)
      ≡ true
  pub values :
      (p : Bytes) → allows_field (lookup p obs.family.reference) (lookup p obs.fields) ≡ true
  pub absences :
      (p : Bytes)
      → allows_absence obs.family (lookup p obs.family.reference) (lookup p obs.fields) ≡ true

abbrev pub is_empty : {A : Type 0} → List A → Bool
is_empty [] = true
is_empty (x ∷ l) = false

is_empty-append : {A : Type 0} (a b : List A) → is_empty (a ++ b) ≡ is_empty a && is_empty b
is_empty-append [] b = ground arith
is_empty-append (x ∷ a) b = refl

field_finding_allows :
    (upstream : Bytes) (fam : Family) (path : Bytes) (st : FieldStats) (fv : FieldValue)
    → is_empty (field_finding upstream fam path st fv)
      ≡ has fv.typ st.types && allows_value st fv st.values
unfolding field_finding
field_finding_allows upstream fam path st fv = elim (Option-cases st.values) [
  | inl e ↦ rw e (ground arith)
  | inr (vals, e) ↦ rw e (ground arith)
]

pub observed_field_allows :
    (upstream : Bytes) (obs : Observation) (p : Bytes)
    → is_empty (observed_field upstream obs p).0 && is_empty (observed_field upstream obs p).1
      ≡ allows_field (lookup p obs.family.reference) (lookup p obs.fields)
unfolding observed_field
observed_field_allows upstream obs p = elim (Option-cases (lookup p obs.fields)) [
  | inl e ↦ rw (e, observed_field) (ground arith)
  | inr (fv, e) ↦ elim (Option-cases (lookup p obs.family.reference)) [
    | inl n ↦ rw (e, n, observed_field) (ground arith)
    | inr (st, n) ↦ rw (e, n, observed_field) (field_finding_allows upstream obs.family p st fv)
  ]
]

reference_field_allows :
    (upstream : Bytes) (obs : Observation) (p : Bytes)
    → is_empty (reference_field upstream obs p)
      ≡ allows_absence obs.family (lookup p obs.family.reference) (lookup p obs.fields)
unfolding reference_field
reference_field_allows upstream obs p = elim (Option-cases (lookup p obs.family.reference)) [
  | inl n ↦ rw (n, reference_field) (ground arith)
  | inr (st, n) ↦ elim (Option-cases (lookup p obs.fields)) [
    | inl e ↦ rw (e, n, reference_field) (ground (arith, has-lookup p obs.fields e))
    | inr (fv, e) ↦ rw (e, n, reference_field) (ground (arith, has-lookup-some p fv obs.fields e))
  ]
]

-- Every path of the list passes the test.
abbrev all_pass : (Bytes → Bool) → List Bytes → Bool
all_pass f [] = true
all_pass f (p ∷ ps) = f p && all_pass f ps

observed_fields_allow :
    (upstream : Bytes) (obs : Observation) (ps : List Bytes)
    → is_empty (observed_fields upstream obs ps).0 && is_empty (observed_fields upstream obs ps).1
      ≡ all_pass (λ p. allows_field (lookup p obs.family.reference) (lookup p obs.fields)) ps
unfolding observed_fields
observed_fields_allow upstream obs [] = refl
observed_fields_allow upstream obs (p ∷ ps) =
    let one = observed_field upstream obs p in
    let rest = observed_fields upstream obs ps in
    ground (
      arith,
      is_empty-append one.0 rest.0,
      is_empty-append one.1 rest.1,
      observed_field_allows upstream obs p,
      observed_fields_allow upstream obs ps,
    )

reference_fields_allow :
    (upstream : Bytes) (obs : Observation) (ps : List Bytes)
    → is_empty (reference_fields upstream obs ps)
      ≡ all_pass
          (λ p. allows_absence obs.family (lookup p obs.family.reference) (lookup p obs.fields))
          ps
unfolding reference_fields
reference_fields_allow upstream obs [] = refl
reference_fields_allow upstream obs (p ∷ ps) = ground (
  arith,
  is_empty-append (reference_field upstream obs p) (reference_fields upstream obs ps),
  reference_field_allows upstream obs p,
  reference_fields_allow upstream obs ps,
)

all_pass-insert :
    (f : Bytes → Bool) (k : Bytes) (l : List Bytes)
    → all_pass f (insert_sorted k l) ≡ f k && all_pass f l
unfolding insert_sorted
all_pass-insert f k [] = refl
all_pass-insert f k (x ∷ xs) = ground (arith, all_pass-insert f k xs)

pass_found :
    {V : Type 0} (f : Bytes → Bool) (m : Map Bytes V) (p : Bytes) (v : V)
    → all_pass f (sorted_keys m) ≡ true
    → lookup p m ≡ some v
    → f p ≡ true
unfolding sorted_keys lookup
pass_found f [] p v h e = absurd (ground arith)
pass_found f ((k, w) ∷ m) p v h e =
    ground (arith, all_pass-insert f k (sorted_keys m), pass_found f m p v, bytes_beq_iff k p, ap f)

pass_all : (f : Bytes → Bool) (ps : List Bytes) → ((p : Bytes) → f p ≡ true) → all_pass f ps ≡ true
pass_all f [] h = refl
pass_all f (p ∷ ps) h = ground (arith, h p, pass_all f ps h)

status_allows :
    (upstream : Bytes) (obs : Observation) (known : Bytes → Bool)
    → is_empty (status_findings upstream obs known)
      ≡ known obs.family.status_class
        && (nat_beq obs.status 0
            || (nat_beq (length obs.family.ref_status_codes) 0
                || has (itoa obs.status) obs.family.ref_status_codes))
unfolding status_findings
status_allows upstream obs known = ground arith

is_empty-length : {A : Type 0} (l : List A) → ltb 0 (length l) ≡ not (is_empty l)
is_empty-length [] = ground arith
is_empty-length (x ∷ l) = ground arith

is_empty_nil : {A : Type 0} (l : List A) → (is_empty l ≡ true) ↔ (l ≡ [])
is_empty_nil [] = (λ e. refl, λ e. refl)
is_empty_nil (x ∷ l) = (λ e. absurd (ground (arith, e)), λ e. absurd (ground (arith, e)))

join_empty :
    (s added found removed : List Finding) (x : Finding) (c : Bool)
    → is_empty (
        if c && (ltb 0 (length added) && ltb 0 (length removed))
        then s ++ x ∷ found
        else s ++ (added ++ (found ++ removed)))
      ≡ is_empty s && ((is_empty added && is_empty found) && is_empty removed)
join_empty s added found removed x true = ground (
  arith,
  is_empty-append s (x ∷ found),
  is_empty-append s (added ++ (found ++ removed)),
  is_empty-append added (found ++ removed),
  is_empty-append found removed,
  is_empty-length added,
  is_empty-length removed,
)
join_empty s added found removed x false =
    is_empty-append s (added ++ (found ++ removed))
    ∙ ap (λ b. is_empty s && b) (is_empty-append added (found ++ removed))
    ∙ ground (arith, is_empty-append found removed)

diff_empty :
    (upstream : Bytes) (obs : Observation) (known : Bytes → Bool)
    → is_empty (diff upstream obs known)
      ≡ is_empty (status_findings upstream obs known)
        && (all_pass
              (λ p. allows_field (lookup p obs.family.reference) (lookup p obs.fields))
              (sorted_keys obs.fields)
            && all_pass
                (λ p.
                  allows_absence obs.family (lookup p obs.family.reference) (lookup p obs.fields))
                (sorted_keys obs.family.reference))
unfolding diff
diff_empty upstream obs known =
    let s = status_findings upstream obs known in
    let o = observed_fields upstream obs (sorted_keys obs.fields) in
    let r = reference_fields upstream obs (sorted_keys obs.family.reference) in
    join_empty s o.0 o.1 r _ (is_error_class obs.family.status_class)
    ∙ ap (λ b. is_empty s && (b && is_empty r))
        (observed_fields_allow upstream obs (sorted_keys obs.fields))
    ∙ ap
        (λ b.
          is_empty s
          && (all_pass (λ p. allows_field (lookup p obs.family.reference) (lookup p obs.fields))
                (sorted_keys obs.fields)
              && b))
        (reference_fields_allow upstream obs (sorted_keys obs.family.reference))

values_found :
    (obs : Observation) (p : Bytes)
    → all_pass
        (λ p. allows_field (lookup p obs.family.reference) (lookup p obs.fields))
        (sorted_keys obs.fields)
      ≡ true
    → allows_field (lookup p obs.family.reference) (lookup p obs.fields) ≡ true
values_found obs p h = elim (Option-cases (lookup p obs.fields)) [
  | inl e ↦ rw e (ground arith)
  | inr (fv, e) ↦
      pass_found (λ p. allows_field (lookup p obs.family.reference) (lookup p obs.fields))
        obs.fields p fv h e
]

absences_found :
    (obs : Observation) (p : Bytes)
    → all_pass
        (λ p. allows_absence obs.family (lookup p obs.family.reference) (lookup p obs.fields))
        (sorted_keys obs.family.reference)
      ≡ true
    → allows_absence obs.family (lookup p obs.family.reference) (lookup p obs.fields) ≡ true
absences_found obs p h = elim (Option-cases (lookup p obs.family.reference)) [
  | inl e ↦ rw e (ground arith)
  | inr (st, e) ↦
      pass_found
        (λ p. allows_absence obs.family (lookup p obs.family.reference) (lookup p obs.fields))
        obs.family.reference p st h e
]

-- A comparison finds nothing exactly if the observation conforms to its family: the class of its
-- status is known, the code is one that the reference saw (if it saw any and there is one), each
-- field is known with its type and, where few strings were seen, with its value, and no field is
-- missing that 98% of the samples had.
pub diff_quiet :
    (upstream : Bytes) (obs : Observation) (known : Bytes → Bool)
    → (diff upstream obs known ≡ []) ↔ Conforms obs known
diff_quiet upstream obs known = (
  λ e.
      let h = diff_empty upstream obs known in
      let t : is_empty (diff upstream obs known) ≡ true =
        (is_empty_nil (diff upstream obs known)).1 e in
      let s = status_allows upstream obs known in
      record {
        class = ground arith;
        code = ground arith;
        values = λ p. values_found obs p (ground arith);
        absences = λ p. absences_found obs p (ground arith);
      },
  λ c. (is_empty_nil (diff upstream obs known)).0 (
      ground (
        arith,
        diff_empty upstream obs known,
        status_allows upstream obs known,
        c.class,
        c.code,
        pass_all (λ p. allows_field (lookup p obs.family.reference) (lookup p obs.fields))
            (sorted_keys obs.fields) c.values,
        pass_all
            (λ p. allows_absence obs.family (lookup p obs.family.reference) (lookup p obs.fields))
            (sorted_keys obs.family.reference) c.absences,
      )),
)
