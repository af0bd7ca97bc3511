-- ===== src/Mode/Collects.antt =====
-- What the first loop of `Compile` collects (internal/mode/mode.go).
use pikopod.Base.{
  ◌&&◌, nat_beq, bytes_eq, ℕ, ◌+◌, ◌≡◌, refl, sym, ap, ◌∙◌, Bool, true, false, ◌||◌, Option, none,
  some, List, [], ◌∷◌, ◌++◌, arith, if◌then◌else◌, length, Bool-cases, Option-cases, inl, inr,
  append_assoc, append-nil, length-append,
}
use pikopod.Base.Bytes.{Bytes}
use pikopod.Base.Json.{Json}
use pikopod.Sandbox.Faults.{hang, slow_body, latency, FaultKind, FaultRule}
use pikopod.Scenario.{
  SeedResource, StepConfig, inject_fault, seed_state, clear_fault, other_config, Step,
  is_conditioning, fault_rule_for,
}
use pikopod.Mode.{
  endless_hold, is_blocking_kind, holds_endlessly, fault_id, Outcome, stopped, collected, collect,
}

-- The conditioning steps that a scenario begins with, and the steps from the first other one on.
abbrev pub leading : List Step → List Step
leading [] = []
leading (s ∷ steps) = let rest = leading steps in if is_conditioning s.type then s ∷ rest else []

abbrev pub following : List Step → List Step
following [] = []
following (s ∷ steps) =
    let rest = following steps in if is_conditioning s.type then rest else s ∷ steps

abbrev pub is_clear : StepConfig → Bool
is_clear (clear_fault cfg) = true
is_clear _ = false

abbrev pub has_clear : List Step → Bool
has_clear [] = false
has_clear (s ∷ steps) = is_clear s.config || has_clear steps

-- The steps after the last one that clears the faults.
abbrev pub after_clear : List Step → List Step
after_clear [] = []
after_clear (s ∷ steps) =
    let rest = after_clear steps in
    if has_clear steps then rest else if is_clear s.config then steps else s ∷ steps

abbrev pub resources_in : StepConfig → List SeedResource
resources_in (seed_state resources) = resources
resources_in _ = []

abbrev pub resources_of : List Step → List SeedResource
resources_of [] = []
resources_of (s ∷ steps) = resources_in s.config ++ resources_of steps

-- The kinds whose waits block a connection, and the rules that do so in real time without an end.
abbrev pub blocks : FaultKind → Bool
blocks hang = true
blocks slow_body = true
blocks latency = true
blocks _ = false

abbrev pub is_endless : FaultRule → Bool
is_endless rule = rule.wallclock && (nat_beq rule.times 0 && blocks rule.kind)

holds_endlessly_lem : (rule : FaultRule) → holds_endlessly rule ≡ is_endless rule
unfolding holds_endlessly is_blocking_kind
holds_endlessly_lem rule = ground arith

module _ (marshal : Json → Option Bytes) where
  -- The rule of a step, where it arms one.
  abbrev pub rule_of : ℕ → StepConfig → Option FaultRule
  rule_of n (inject_fault cfg) = fault_rule_for marshal cfg (fault_id (n + 1))
  rule_of n _ = none

  -- The rules of the steps, numbered from the one after `n`.
  abbrev pub rules_from : ℕ → List Step → List FaultRule
  rules_from n [] = []
  rules_from n (s ∷ steps) = elim (rule_of n s.config) [
    | none ↦ rules_from n steps
    | some rule ↦ rule ∷ rules_from (n + 1) steps
  ]

  abbrev pub endless_rule : Option FaultRule → Bool
  endless_rule none = false
  endless_rule (some rule) = is_endless rule

  -- Some step arms a fault that is endless in this sense.
  abbrev pub any_endless : List Step → Bool
  any_endless [] = false
  any_endless (s ∷ steps) = endless_rule (rule_of 0 s.config) || any_endless steps

  -- The faults of a mode by its conditioning steps, after the faults collected before them.
  abbrev pub standing_faults : List FaultRule → List Step → List FaultRule
  standing_faults faults steps =
      if has_clear steps
      then rules_from 0 (after_clear steps)
      else faults ++ rules_from (length faults) steps

  pub endless_any_id :
      (config : StepConfig) (n : ℕ)
      → endless_rule (rule_of n config) ≡ endless_rule (rule_of 0 config)
  unfolding fault_rule_for
  endless_any_id (inject_fault cfg) n = ground arith
  endless_any_id (seed_state resources) n = refl
  endless_any_id (clear_fault cfg) n = refl
  endless_any_id other_config n = refl

  endless_blocks : (rule : FaultRule) → holds_endlessly rule ≡ true → blocks rule.kind ≡ true
  endless_blocks rule h = ground (arith, h, holds_endlessly_lem rule)

  abbrev pub collected_of : List FaultRule → List SeedResource → List Step → Outcome
  collected_of faults seeds steps = collected (record {
    faults = standing_faults faults (leading steps);
    seeds = seeds ++ resources_of (leading steps);
    rest = following steps;
  })

  -- How the first loop ends.
  pub data Ends (steps : List Step) (faults : List FaultRule) (seeds : List SeedResource)
      (out : Outcome) : Type 0 where
    ends_stopped :
        (kind : FaultKind)
        → any_endless (leading steps) ≡ true
        → blocks kind ≡ true
        → out ≡ stopped (endless_hold kind)
        → Ends steps faults seeds out
    ends_collected :
        any_endless (leading steps) ≡ false
        → out ≡ collected_of faults seeds steps
        → Ends steps faults seeds out

  -- A conditioning step that arms no endless fault, by what it leaves to the rest of the loop.
  step_on :
      (s : Step) (steps : List Step) (faults faults' : List FaultRule)
      (seeds seeds' : List SeedResource) (out : Outcome)
      → is_conditioning s.type ≡ true
      → endless_rule (rule_of 0 s.config) ≡ false
      → standing_faults faults' (leading steps) ≡ standing_faults faults (s ∷ leading steps)
      → seeds' ++ resources_of (leading steps)
        ≡ seeds ++ (resources_in s.config ++ resources_of (leading steps))
      → Ends steps faults' seeds' out
      → Ends (s ∷ steps) faults seeds out
  step_on s steps faults faults' seeds seeds' out c e f r (ends_stopped kind a b o) =
      ends_stopped kind (rw c (ap (λ t. t || any_endless (leading steps)) e ∙ a)) b o
  step_on s steps faults faults' seeds seeds' out c e f r (ends_collected a o) =
      ends_collected (rw c (ap (λ t. t || any_endless (leading steps)) e ∙ a))
        (o ∙ rw (c, f, r) refl)

  -- A step that adds no fault and clears none.
  same_standing :
      (s : Step) (faults : List FaultRule) (p : List Step)
      → is_clear s.config ≡ false
      → rule_of (length faults) s.config ≡ none
      → standing_faults faults p ≡ standing_faults faults (s ∷ p)
  same_standing s faults p c n = elim (Bool-cases (has_clear p)) [
    | inl h ↦ rw (c, h) refl
    | inr h ↦ rw (c, h, n, rules_from) refl
  ]

  cleared_standing :
      (s : Step) (faults : List FaultRule) (p : List Step)
      → is_clear s.config ≡ true
      → standing_faults [] p ≡ standing_faults faults (s ∷ p)
  cleared_standing s faults p c = elim (Bool-cases (has_clear p)) [
    | inl h ↦ rw (c, h) refl
    | inr h ↦ rw (c, h) refl
  ]

  armed_standing :
      (s : Step) (faults : List FaultRule) (p : List Step) (rule : FaultRule)
      → is_clear s.config ≡ false
      → rule_of (length faults) s.config ≡ some rule
      → standing_faults (faults ++ rule ∷ []) p ≡ standing_faults faults (s ∷ p)
  armed_standing s faults p rule c e = elim (Bool-cases (has_clear p)) [
    | inl h ↦ rw (c, h) refl
    | inr h ↦
        rw (c, h, e, length-append faults (rule ∷ []), rules_from)
          (append_assoc faults (rule ∷ []) (rules_from (length faults + 1) p))
  ]

  collect_step :
      (key type : Bytes) (config : StepConfig) (steps : List Step) (faults : List FaultRule)
      (seeds : List SeedResource)
      → is_conditioning type ≡ true
      → ((f : List FaultRule) (r : List SeedResource) → Ends steps f r (collect marshal steps f r))
      → Ends (record { key = key; type = type; config = config } ∷ steps) faults seeds (
          collect marshal (record { key = key; type = type; config = config } ∷ steps) faults seeds)
  unfolding collect
  collect_step key type (seed_state rs) steps faults seeds c rest =
      rw (c, collect)
        (step_on _ steps faults faults seeds (seeds ++ rs) _ c refl
          (same_standing (record { key = key; type = type; config = seed_state rs }) faults
            (leading steps) refl refl)
          (append_assoc seeds rs (resources_of (leading steps))) (rest faults (seeds ++ rs)))
  collect_step key type (clear_fault cfg) steps faults seeds c rest =
      rw (c, collect)
        (step_on _ steps faults [] seeds seeds _ c refl
          (cleared_standing (record { key = key; type = type; config = clear_fault cfg }) faults
            (leading steps) refl)
          refl (rest [] seeds))
  collect_step key type other_config steps faults seeds c rest =
      rw (c, collect)
        (step_on _ steps faults faults seeds seeds _ c refl
          (same_standing (record { key = key; type = type; config = other_config }) faults
            (leading steps) refl refl)
          refl (rest faults seeds))
  collect_step key type (inject_fault cfg) steps faults seeds c rest =
      let s : Step = record { key = key; type = type; config = inject_fault cfg } in
      let n = length faults in
      elim (Option-cases (fault_rule_for marshal cfg (fault_id (n + 1)))) [
        | inl e ↦
            rw (c, e, collect)
              (step_on s steps faults faults seeds seeds _ c
                (sym (endless_any_id (inject_fault cfg) n) ∙ ap endless_rule e)
                (same_standing s faults (leading steps) refl e) refl (rest faults seeds))
        | inr (rule, e) ↦ elim (Bool-cases (holds_endlessly rule)) [
          | inl h ↦
              rw (c, e, h, collect)
                (ends_stopped rule.kind
                  (rw c (
                    ground (
                      arith,
                      h,
                      holds_endlessly_lem rule,
                      endless_any_id (inject_fault cfg) n,
                      ap endless_rule e,
                    )))
                  (endless_blocks rule h) refl)
          | inr h ↦
              rw (c, e, h, collect)
                (step_on s steps faults (faults ++ rule ∷ []) seeds seeds _ c
                  (sym (endless_any_id (inject_fault cfg) n)
                    ∙ ap endless_rule e
                    ∙ sym (holds_endlessly_lem rule)
                    ∙ h)
                  (armed_standing s faults (leading steps) rule refl e) refl
                  (rest (faults ++ rule ∷ []) seeds))
        ]
      ]

  pub collect-Ends :
      (steps : List Step) (faults : List FaultRule) (seeds : List SeedResource)
      → Ends steps faults seeds (collect marshal steps faults seeds)
  unfolding collect
  collect-Ends [] faults seeds = ends_collected refl (rw (append-nil faults, append-nil seeds) refl)
  collect-Ends (s ∷ steps) faults seeds = elim (Bool-cases (is_conditioning s.type)) [
    | inr e ↦
        rw (e, collect)
          (ends_collected (rw e refl) (rw (e, append-nil faults, append-nil seeds) refl))
    | inl e ↦
        collect_step s.key s.type s.config steps faults seeds e (λ f r. collect-Ends steps f r)
  ]
