-- ===== src/Baseline/Learned.antt =====
-- What was observed of a field stays allowed (internal/baseline/baseline.go, `Observe` and `freeze`,
-- with internal/drift/drift.go, `Diff`).
use pikopod.Base.{
  ◌==◌, false, ◌≡◌, refl, sym, ap, ◌∙◌, true, ◌&&◌, Option, none, some, List, [], ◌∷◌, arith,
  bytes_eq, Option-cases, inl, inr,
}
use pikopod.Base.Map.{Map, lookup, has}
use pikopod.Base.Bytes.{Bytes}
use pikopod.Baseline.{FieldStats, Family, FieldValue, Learner, or_no_map, flatten}
use pikopod.Baseline.Families.{copy_fields, is_warm}
use pikopod.Baseline.Frozen.{reference_fixed, observe_step_cold, frozen_cold}
use pikopod.Baseline.Runs.{
  Step, observe_step, observe_steps, observe_step-fields, Response, meet, meet_all, promotes,
  any_promotes, key_of, step_of, steps_of, family_of, family_of_lem, meet_lem, meet-own,
  meet_all-family,
}
use pikopod.Drift.Diff.{observed_field}
use pikopod.Drift.Conform.{allows_field, is_empty, observed_field_allows}
use pikopod.Baseline.Seen.{seen_by, seen_at, observe_fields_keeps, observe_fields_sees}

observe_steps_keeps :
    (f : Family) (ss : List Step) (p : Bytes) (fv : FieldValue)
    → seen_at fv (lookup p f.fields) ≡ true
    → seen_at fv (lookup p (observe_steps f ss).fields) ≡ true
observe_steps_keeps f [] p fv h = h
observe_steps_keeps f (s ∷ ss) p fv h = observe_steps_keeps (observe_step f s) ss p fv (
    rw (observe_step-fields f s) (
      observe_fields_keeps s.learner.value_volatile s.learner.matcher f.fields p (flatten s.body) fv
        h))

lookup-copy_fields :
    (p : Bytes) (fields : Map Bytes FieldStats) (fv : FieldValue)
    → seen_at fv (lookup p (copy_fields fields)) ≡ seen_at fv (lookup p fields)
unfolding copy_fields lookup
lookup-copy_fields p [] fv = refl
lookup-copy_fields p ((k, st) ∷ fields) fv = ground (arith, lookup-copy_fields p fields fv)

seen_allows :
    (st : FieldStats) (fv : FieldValue)
    → seen_by fv st ≡ true
    → allows_field (some st) (some fv) ≡ true
seen_allows st fv h = elim (Option-cases st.values) [
  | inl e ↦ rw e (ground (arith, h))
  | inr (vals, e) ↦ rw e (ground (arith, h, ap or_no_map e, ap (λ o. has fv.value (or_no_map o)) e))
]

allowed :
    (r : Option FieldStats) (fv : FieldValue)
    → seen_at fv r ≡ true
    → allows_field r (some fv) ≡ true
allowed none fv h = absurd (ground (arith, h))
allowed (some st) fv h = seen_allows st fv h

-- The family of a response, after it and the ones of a run.
run_family :
    (k : Bytes) (l : Learner) (r : Response) (rs : List Response)
    → (key_of l r == k) ≡ true
    → any_promotes l (r ∷ rs) ≡ false
    → lookup k (meet_all l (r ∷ rs)).families
      ≡ some
          (observe_steps (observe_step (family_of l r) (step_of l r)) (steps_of k (meet l r).0 rs))
unfolding meet_all any_promotes
run_family k l r rs own n =
    meet_all-family k (meet l r).0 rs (observe_step (family_of l r) (step_of l r))
      (ground (arith, n)) (meet-own k l r (ground (arith, n)) own)

-- A value that a response had at a path which its family tracks after it is never reported once the
-- family is frozen, however many responses come between, before and after it is frozen, as long as none
-- of them promotes a position of a path: a later response of the family that has this value at this
-- path shows there neither an added field nor one of a new type or value.
pub learned_quiet :
    (k : Bytes) (l : Learner) (r warm last : Response) (between later : List Response) (p : Bytes)
    (fv : FieldValue) (upstream : Bytes)
    → (key_of l r == k) ≡ true
    → (key_of (meet_all l (r ∷ between)) warm == k) ≡ true
    → (key_of (meet_all (meet_all l (r ∷ between)) (warm ∷ later)) last == k) ≡ true
    → any_promotes l (r ∷ between) ≡ false
    → any_promotes (meet_all l (r ∷ between)) (warm ∷ later) ≡ false
    → promotes (meet_all (meet_all l (r ∷ between)) (warm ∷ later)) last ≡ false
    → is_warm
        (meet_all l (r ∷ between)).warmup
        (family_of (meet_all l (r ∷ between)) warm)
        warm.time
      ≡ true
    → lookup p (flatten r.body) ≡ some fv
    → has p (observe_step (family_of l r) (step_of l r)).fields ≡ true
    → lookup p (flatten last.body) ≡ some fv
    → (let obs = (meet (meet_all (meet_all l (r ∷ between)) (warm ∷ later)) last).1 in
        is_empty (observed_field upstream obs p).0 && is_empty (observed_field upstream obs p).1)
      ≡ true
learned_quiet k l r warm last between later p fv upstream own own2 own3 n n2 n3 w e tracked again =
    let s = step_of l r in
    let g = observe_step (family_of l r) s in
    let l2 = meet_all l (r ∷ between) in
    let l4 = meet_all l2 (warm ∷ later) in
    let obs = (meet l4 last).1 in
    let after = steps_of k (meet l r).0 between in
    let here : lookup k l2.families ≡ some (observe_steps g after) =
      run_family k l r between own n in
    let now : seen_at fv (lookup p g.fields) ≡ true = rw (observe_step-fields (family_of l r) s) (
      observe_fields_sees l.value_volatile l.matcher (family_of l r).fields p (flatten r.body) fv e
        (ap (has p) (sym (observe_step-fields (family_of l r) s)) ∙ tracked)) in
    let kept : seen_at fv (lookup p (copy_fields (observe_steps g after).fields)) ≡ true =
      lookup-copy_fields p (observe_steps g after).fields fv
      ∙ observe_steps_keeps g after p fv now in
    let warm2 : is_warm l2.warmup (observe_steps g after) warm.time ≡ true =
      ap (λ f. is_warm l2.warmup f warm.time)
        (sym (family_of_lem k l2 warm (observe_steps g after) own2 here))
      ∙ w in
    let (h, found, frozen, same, codes, samples) =
      reference_fixed k l2 (observe_steps g after) warm later here own2 warm2 n2 in
    let (changed, shown, fields) = meet_lem l4 last n3 in
    let cold = observe_step_cold h (step_of l4 last) (frozen_cold h (step_of l4 last) frozen) in
    let reference : obs.family.reference ≡ copy_fields (observe_steps g after).fields =
      ap (λ f. f.reference) shown
      ∙ ap (λ f. (observe_step f (step_of l4 last)).reference)
          (family_of_lem k l4 last h own3 found)
      ∙ cold.reference
      ∙ same in
    observed_field_allows upstream obs p
    ∙ rw (reference, fields, again)
        (allowed (lookup p (copy_fields (observe_steps g after).fields)) fv kept)
