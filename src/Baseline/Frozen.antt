-- ===== src/Baseline/Frozen.antt =====
-- The frozen reference of a family (internal/baseline/baseline.go, `Observe`, `freeze` and `Reset`).
use pikopod.Base.{
  some, ℕ, ◌+◌, ◌≡◌, refl, ◌∙◌, Bool, true, false, ◌||◌, List, [], ◌∷◌, ◌==◌, arith, if◌then◌else◌,
  length, bytes_eq, bytes_beq_iff,
}
use pikopod.Base.Map.{Map, lookup}
use pikopod.Base.Bytes.{Bytes}
use pikopod.Baseline.{Family, Learner}
use pikopod.Baseline.Families.{copy_fields, freeze, is_warm, observe_family, reset, has_frozen}
use pikopod.Baseline.Runs.{
  Step, observe_step, observe_steps, Response, meet, meet_all, any_promotes, key_of, step_of,
  steps_of, meet_all-family,
}

abbrev pub meets_warm : Family → List Step → Bool
meets_warm f [] = false
meets_warm f (s ∷ ss) = is_warm s.learner.warmup f s.time || meets_warm (observe_step f s) ss

-- What freezing sets.
pub record SameReference (f g : Family) : Type 0 where
  pub frozen : g.frozen ≡ f.frozen
  pub reference : g.reference ≡ f.reference
  pub codes : g.ref_status_codes ≡ f.ref_status_codes
  pub samples : g.frozen_samples ≡ f.frozen_samples
  pub at : g.frozen_at ≡ f.frozen_at

pub observe_step_cold :
    (f : Family) (s : Step)
    → is_warm s.learner.warmup f s.time ≡ false
    → SameReference f (observe_step f s)
unfolding observe_family
observe_step_cold f s h = record {
  frozen = ground (arith, h);
  reference = ground (arith, h);
  codes = ground (arith, h);
  samples = ground (arith, h);
  at = ground (arith, h);
}

observe_step_warm :
    (f : Family) (s : Step)
    → is_warm s.learner.warmup f s.time ≡ true
    → SameReference (freeze f s.clock) (observe_step f s)
unfolding observe_family
observe_step_warm f s h = record {
  frozen = ground (arith, h);
  reference = ground (arith, h);
  codes = ground (arith, h);
  samples = ground (arith, h);
  at = ground (arith, h);
}

same_trans : (f g h : Family) → SameReference f g → SameReference g h → SameReference f h
same_trans f g h a b = record {
  frozen = b.frozen ∙ a.frozen;
  reference = b.reference ∙ a.reference;
  codes = b.codes ∙ a.codes;
  samples = b.samples ∙ a.samples;
  at = b.at ∙ a.at;
}

pub frozen_cold :
    (f : Family) (s : Step) → f.frozen ≡ true → is_warm s.learner.warmup f s.time ≡ false
unfolding is_warm
frozen_cold f s h = ground (arith, h)

frozen_stays :
    (f : Family) (ss : List Step) → f.frozen ≡ true → SameReference f (observe_steps f ss)
frozen_stays f [] h = record {
  frozen = refl;
  reference = refl;
  codes = refl;
  samples = refl;
  at = refl;
}
frozen_stays f (s ∷ ss) h =
    let one = observe_step_cold f s (frozen_cold f s h) in
    same_trans f (observe_step f s) (observe_steps (observe_step f s) ss) one
      (frozen_stays (observe_step f s) ss (one.frozen ∙ h))

-- A family is frozen with a response that finds it warm, which is not in the reference: this is what
-- the responses before it left, with their status codes and as many samples. As long as no response of
-- the run promotes a position of a path, after which families are merged, none changes it.
pub reference_fixed :
    (k : Bytes) (l : Learner) (f : Family) (r : Response) (after : List Response)
    → lookup k l.families ≡ some f
    → (key_of l r == k) ≡ true
    → is_warm l.warmup f r.time ≡ true
    → any_promotes l (r ∷ after) ≡ false
    → (g : Family) × (lookup k (meet_all l (r ∷ after)).families ≡ some g)
      × (g.frozen ≡ true)
      × (g.reference ≡ copy_fields f.fields)
      × (g.ref_status_codes ≡ f.status_codes)
      × (g.frozen_samples ≡ f.samples)
unfolding freeze
reference_fixed k l f r after e own w n =
    let rest = steps_of k (meet l r).0 after in
    let one = observe_step_warm f (step_of l r) w in
    let later = frozen_stays (observe_step f (step_of l r)) rest one.frozen in
    (
      observe_steps (observe_step f (step_of l r)) rest,
      meet_all-family k l (r ∷ after) f n e ∙ rw own refl,
      later.frozen ∙ one.frozen,
      later.reference ∙ one.reference,
      later.codes ∙ one.codes,
      later.samples ∙ one.samples,
    )

never_warm_stays :
    (f : Family) (ss : List Step) → meets_warm f ss ≡ false → SameReference f (observe_steps f ss)
never_warm_stays f [] c = record {
  frozen = refl;
  reference = refl;
  codes = refl;
  samples = refl;
  at = refl;
}
never_warm_stays f (s ∷ ss) c =
    same_trans f (observe_step f s) (observe_steps (observe_step f s) ss)
      (observe_step_cold f s (ground (arith, c)))
      (never_warm_stays (observe_step f s) ss (ground (arith, c)))

abbrev pub count_named : Map Bytes Family → Bytes → ℕ
count_named [] template = 0
count_named ((k, f) ∷ fs) template =
    (if f.template == template then 1 else 0) + count_named fs template

-- Resetting a template that is not empty removes its families and counts them: none of them is
-- frozen any more, and to every other template the answer is as before.
pub reset_lem :
    (fs : Map Bytes Family) (template : Bytes)
    → (template == []) ≡ false
    → ((reset fs template).1 ≡ count_named fs template)
      × (length (reset fs template).0 + count_named fs template ≡ length fs)
      × ((method : Bytes) → has_frozen (reset fs template).0 method template ≡ false)
      × ((method other : Bytes)
          → (template == other) ≡ false
          → has_frozen (reset fs template).0 method other ≡ has_frozen fs method other)
unfolding reset has_frozen
reset_lem [] template h = (refl, refl, λ m. refl, λ m o n. refl)
reset_lem ((k, f) ∷ fs) template h =
    let (n, len, gone, kept) = reset_lem fs template h in
    (
      ground (arith, h, n),
      ground (arith, h, len),
      λ m. ground (arith, h, gone m),
      λ m o q. ground (
        arith,
        h,
        q,
        kept m o q,
        bytes_beq_iff f.template template,
        bytes_beq_iff f.template o,
        bytes_beq_iff template o,
      ),
    )
