-- ===== src/Baseline/Runs.antt =====
-- A learner under a sequence of responses (internal/baseline/baseline.go, `Observe`), and what the
-- responses of a run do to one of its families while none of them promotes a position of a path, after
-- which `Observe` merges families.
use pikopod.Base.{
  ℕ, ◌≡◌, refl, ap, ◌∙◌, Bool, true, false, ◌||◌, Option, none, some, List, [], ◌∷◌, ◌==◌, arith,
  if◌then◌else◌, bytes_eq, bytes_beq_iff, Bool-cases, Option-cases, inl, inr,
}
use pikopod.Base.Map.{lookup, insert, lookup-insert}
use pikopod.Base.Bytes.{Bytes}
use pikopod.Base.Json.{Json}
use pikopod.PathTemplates.{Promotion, apply}
use pikopod.Baseline.{
  Family, Learner, Observation, observe_fields, flatten, family_key, status_class_of,
}
use pikopod.Baseline.Families.{observe_family, freeze, observe, or_new_family}

-- What one response does to its family; the learner is the one that it meets.
pub record Step : Type 0 where
  pub learner : Learner
  pub status : ℕ
  pub body : Json
  pub time : ℕ
  pub clock : ℕ

abbrev pub observe_step : Family → Step → Family
observe_step f s = observe_family s.learner f s.status s.body s.time s.clock

abbrev pub observe_steps : Family → List Step → Family
observe_steps f [] = f
observe_steps f (s ∷ ss) = observe_steps (observe_step f s) ss

pub observe_step-fields :
    (f : Family) (s : Step)
    → (observe_step f s).fields
      ≡ observe_fields s.learner.value_volatile s.learner.matcher f.fields (flatten s.body)
unfolding observe_family freeze
observe_step-fields f s = ground arith

-- A response as `Observe` takes it, with the learner's clock.
pub record Response : Type 0 where
  pub method : Bytes
  pub path : Bytes
  pub status : ℕ
  pub body : Json
  pub time : ℕ
  pub clock : ℕ

abbrev pub meet : Learner → Response → Learner × Observation
meet l r = observe l r.method r.path r.status r.body r.time r.clock

unfoldable pub meet_all : Learner → List Response → Learner
meet_all l [] = l
meet_all l (r ∷ rs) = meet_all (meet l r).0 rs

abbrev is_promotion : Option Promotion → Bool
is_promotion none = false
is_promotion (some p) = true

-- The response promotes a position of its path.
abbrev pub promotes : Learner → Response → Bool
promotes l r = is_promotion (apply l.guard r.path).2

-- Some response of the run does.
unfoldable pub any_promotes : Learner → List Response → Bool
any_promotes l [] = false
any_promotes l (r ∷ rs) = promotes l r || any_promotes (meet l r).0 rs

-- The key of the family that the response belongs to.
abbrev pub key_of : Learner → Response → Bytes
key_of l r = family_key r.method (apply l.guard r.path).1 (status_class_of r.status)

abbrev pub step_of : Learner → Response → Step
step_of l r = record {
  learner = l;
  status = r.status;
  body = r.body;
  time = r.time;
  clock = r.clock;
}

-- The responses of a run that belong to a family.
abbrev pub steps_of : Bytes → Learner → List Response → List Step
steps_of k l [] = []
steps_of k l (r ∷ rs) =
    let rest = steps_of k (meet l r).0 rs in if key_of l r == k then step_of l r ∷ rest else rest

-- The family of the response before it, a new one where there is none.
abbrev pub family_of : Learner → Response → Family
family_of l r =
    or_new_family r.method (apply l.guard r.path).1 (status_class_of r.status) r.time
      (lookup (key_of l r) l.families)

-- Without a promotion, a response changes its own family only, and shows what this becomes.
pub meet_lem :
    (l : Learner) (r : Response)
    → promotes l r ≡ false
    → ((meet l r).0.families
        ≡ insert (key_of l r) (observe_step (family_of l r) (step_of l r)) l.families)
      × ((meet l r).1.family ≡ observe_step (family_of l r) (step_of l r))
      × ((meet l r).1.fields ≡ flatten r.body)
unfolding observe
meet_lem l r h = elim (Option-cases (apply l.guard r.path).2) [
  | inl e ↦ (rw e refl, rw e refl, refl)
  | inr (p, e) ↦ absurd (ground (arith, h, e))
]

pub family_of_lem :
    (k : Bytes) (l : Learner) (r : Response) (f : Family)
    → (key_of l r == k) ≡ true
    → lookup k l.families ≡ some f
    → family_of l r ≡ f
family_of_lem k l r f own e =
    let same : key_of l r ≡ k = ground (arith, own, bytes_beq_iff (key_of l r) k) in
    ap (λ o. or_new_family r.method (apply l.guard r.path).1 (status_class_of r.status) r.time o)
      (ap (λ j. lookup j l.families) same ∙ e)

pub meet-own :
    (k : Bytes) (l : Learner) (r : Response)
    → promotes l r ≡ false
    → (key_of l r == k) ≡ true
    → lookup k (meet l r).0.families ≡ some (observe_step (family_of l r) (step_of l r))
meet-own k l r h own =
    ap (lookup k) (meet_lem l r h).0
    ∙ lookup-insert (key_of l r) k (observe_step (family_of l r) (step_of l r)) l.families
    ∙ rw own refl

meet-other :
    (k : Bytes) (l : Learner) (r : Response)
    → promotes l r ≡ false
    → (key_of l r == k) ≡ false
    → lookup k (meet l r).0.families ≡ lookup k l.families
meet-other k l r h other =
    ap (lookup k) (meet_lem l r h).0
    ∙ lookup-insert (key_of l r) k (observe_step (family_of l r) (step_of l r)) l.families
    ∙ rw other refl

pub meet_all-family :
    (k : Bytes) (l : Learner) (rs : List Response) (f : Family)
    → any_promotes l rs ≡ false
    → lookup k l.families ≡ some f
    → lookup k (meet_all l rs).families ≡ some (observe_steps f (steps_of k l rs))
unfolding meet_all any_promotes
meet_all-family k l [] f n e = e
meet_all-family k l (r ∷ rs) f n e =
    let later : any_promotes (meet l r).0 rs ≡ false = ground (arith, n) in
    elim (Bool-cases (key_of l r == k)) [
      | inl own ↦ rw own (
          meet_all-family k (meet l r).0 rs (observe_step f (step_of l r)) later (
            meet-own k l r (ground (arith, n)) own
            ∙ ap (λ g. some (observe_step g (step_of l r))) (family_of_lem k l r f own e)))
      | inr other ↦ rw other (
          meet_all-family k (meet l r).0 rs f later
            (meet-other k l r (ground (arith, n)) other ∙ e))
    ]
