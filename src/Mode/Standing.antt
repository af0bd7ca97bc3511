-- ===== src/Mode/Standing.antt =====
-- What a scenario compiles to (internal/mode/mode.go, `Compile`).
use pikopod.Base.{
  ◌==◌, ◌≢◌, filter_by, bytes_eq, subst, ℕ, ◌+◌, ◌≡◌, refl, sym, ap, ◌∙◌, Bool, true, false, ◌||◌,
  Option, some, List, [], ◌∷◌, arith, Bool-cases, Option-cases, inl, inr,
}
use pikopod.Base.Bytes.{Bytes, codes}
use pikopod.Base.Json.{Json}
use pikopod.Sandbox.Faults.{FaultKind, FaultRule, hang, slow_body, latency}
use pikopod.Scenario.{
  InjectFaultConfig, SeedResource, StepConfig, inject_fault, seed_state, clear_fault, other_config,
  Step, fault_rule_for,
}
use pikopod.Mode.{
  Spec, endless_hold, no_standing_state, verify_steps, is_verify_type, Compiled, failed, compiled,
  fault_id, collected, finish, compile,
}
use pikopod.Mode.Collects.{
  blocks, is_endless, leading, following, after_clear, has_clear, is_clear, resources_of,
  rules_from, rule_of, endless_rule, any_endless, standing_faults, endless_any_id, ends_stopped,
  ends_collected, collect-Ends,
}

abbrev pub verify_types : List Bytes
verify_types =
    codes "VERIFY_SEQUENCE"
    ∷ codes "VERIFY_REQUESTS"
    ∷ codes "ASSERT_STATE"
    ∷ codes "EXPECT_WEBHOOK"
    ∷ []

abbrev pub is_listed : Bytes → List Bytes → Bool
is_listed t [] = false
is_listed t (x ∷ xs) = (t == x) || is_listed t xs

module _ (marshal : Json → Option Bytes) where
  -- A mode, unless there is neither fault nor resource.
  abbrev pub spec_or_none :
      Bytes → Bytes → List FaultRule → List SeedResource → List Step → Compiled
  spec_or_none name source [] [] rest = failed no_standing_state
  spec_or_none name source (f ∷ faults) [] rest = compiled (record {
    name = name;
    source = source;
    faults = f ∷ faults;
    seeds = [];
    verify = filter_by (λ s. is_listed s.type verify_types) rest;
  })
  spec_or_none name source faults (r ∷ seeds) rest = compiled (record {
    name = name;
    source = source;
    faults = faults;
    seeds = r ∷ seeds;
    verify = filter_by (λ s. is_listed s.type verify_types) rest;
  })

  verify_steps_lem :
      (steps : List Step)
      → verify_steps steps ≡ filter_by (λ (s : Step). is_listed s.type verify_types) steps
  unfolding verify_steps is_verify_type
  verify_steps_lem [] = refl
  verify_steps_lem (s ∷ steps) = ground (arith, verify_steps_lem steps)

  finish_lem :
      (name source : Bytes) (faults : List FaultRule) (seeds : List SeedResource) (rest : List Step)
      → finish marshal name source
          (collected (record { faults = faults; seeds = seeds; rest = rest }))
        ≡ spec_or_none name source faults seeds rest
  finish_lem name source [] [] rest = refl
  finish_lem name source (f ∷ faults) [] rest = ground (arith, verify_steps_lem rest)
  finish_lem name source [] (r ∷ seeds) rest = ground (arith, verify_steps_lem rest)
  finish_lem name source (f ∷ faults) (r ∷ seeds) rest = ground (arith, verify_steps_lem rest)

  -- What the conditioning steps at the head of a scenario amount to: the spec, where there is one.
  abbrev pub standing_spec : Bytes → Bytes → List Step → Compiled
  standing_spec name source steps =
      spec_or_none name source (standing_faults marshal [] (leading steps))
        (resources_of (leading steps)) (following steps)

  -- Compiling fails exactly on a scenario whose leading conditioning steps arm a hang, a slow body or a
  -- latency, served in real time and without an end, or leave neither a fault nor a resource. Else the
  -- mode has the faults of the leading steps after the last one that clears them, all resources of the
  -- leading steps, and of the other steps those that verify.
  pub compile_lem :
      (name source : Bytes) (steps : List Step)
      → (any_endless marshal (leading steps) ≡ true
          → (kind : FaultKind) × (blocks kind ≡ true)
            × (compile marshal name source steps ≡ failed (endless_hold kind)))
        × (any_endless marshal (leading steps) ≡ false
            → compile marshal name source steps ≡ standing_spec name source steps)
  unfolding compile
  compile_lem name source steps = elim (collect-Ends marshal steps [] []) [
    | ends_stopped kind a b o ↦
        (λ h. (kind, b, ap (finish marshal name source) o), λ h. absurd (ground (arith, a, h)))
    | ends_collected a o ↦ (
      λ h. absurd (ground (arith, a, h)),
      λ h.
          ap (finish marshal name source) o
          ∙ finish_lem name source (standing_faults marshal [] (leading steps))
              (resources_of (leading steps)) (following steps),
    )
  ]

  -- No real wait of a kind that blocks goes on without end.
  abbrev pub EndsBlocking : FaultRule → Type 0
  EndsBlocking rule =
      rule.wallclock ≡ true
      → rule.times ≡ 0
      → (rule.kind ≢ hang) × (rule.kind ≢ slow_body) × (rule.kind ≢ latency)

  is_endless-EndsBlocking : (rule : FaultRule) → is_endless rule ≡ false → EndsBlocking rule
  is_endless-EndsBlocking rule h w t = (
    λ e. ground (arith, h, w, t, ap blocks e),
    λ e. ground (arith, h, w, t, ap blocks e),
    λ e. ground (arith, h, w, t, ap blocks e),
  )

  -- The rules are named by their numbers, and each of a blocking kind ends its waits.
  abbrev pub Standing : ℕ → List FaultRule → Type 0
  Standing n [] = Unit
  Standing n (rule ∷ rules) =
      (rule.id ≡ fault_id (n + 1)) × EndsBlocking rule × Standing (n + 1) rules

  fault_rule_for-id :
      (cfg : InjectFaultConfig) (id : Bytes) (rule : FaultRule)
      → fault_rule_for marshal cfg id ≡ some rule
      → rule.id ≡ id
  unfolding fault_rule_for
  fault_rule_for-id cfg id rule e = ground (arith, e)

  rule_of-id :
      (config : StepConfig) (n : ℕ) (rule : FaultRule)
      → rule_of marshal n config ≡ some rule
      → rule.id ≡ fault_id (n + 1)
  rule_of-id (inject_fault cfg) n rule e = fault_rule_for-id cfg (fault_id (n + 1)) rule e
  rule_of-id (seed_state resources) n rule e = absurd (ground (arith, e))
  rule_of-id (clear_fault cfg) n rule e = absurd (ground (arith, e))
  rule_of-id other_config n rule e = absurd (ground (arith, e))

  or_false : (a b : Bool) → a || b ≡ false → (a ≡ false) × (b ≡ false)
  or_false a b h = (ground (arith, h), ground (arith, h))

  rules_from-Standing :
      (n : ℕ) (steps : List Step)
      → any_endless marshal steps ≡ false
      → Standing n (rules_from marshal n steps)
  rules_from-Standing n [] h = tt
  rules_from-Standing n (s ∷ steps) h =
      let (e, r) =
        or_false (endless_rule marshal (rule_of marshal 0 s.config)) (any_endless marshal steps)
          h in
      elim (Option-cases (rule_of marshal n s.config)) [
        | inl f ↦ rw (f, rules_from) (rules_from-Standing n steps r)
        | inr (rule, f) ↦
            rw (f, rules_from)
              (
                rule_of-id s.config n rule f,
                is_endless-EndsBlocking rule
                    (ap (endless_rule marshal) (sym f) ∙ endless_any_id marshal s.config n ∙ e),
                rules_from-Standing (n + 1) steps r,
              )
      ]

  any_endless-after_clear :
      (steps : List Step)
      → any_endless marshal steps ≡ false
      → any_endless marshal (after_clear steps) ≡ false
  any_endless-after_clear [] h = refl
  any_endless-after_clear (s ∷ steps) h =
      let (e, r) =
        or_false (endless_rule marshal (rule_of marshal 0 s.config)) (any_endless marshal steps)
          h in
      elim (Bool-cases (has_clear steps)) [
        | inl c ↦ rw c (any_endless-after_clear steps r)
        | inr c ↦ elim (Bool-cases (is_clear s.config)) [
          | inl d ↦ rw (c, d) r
          | inr d ↦ rw (c, d) h
        ]
      ]

  standing_faults-Standing :
      (steps : List Step)
      → any_endless marshal steps ≡ false
      → Standing 0 (standing_faults marshal [] steps)
  standing_faults-Standing steps h = elim (Bool-cases (has_clear steps)) [
    | inl c ↦ rw c (rules_from-Standing 0 (after_clear steps) (any_endless-after_clear steps h))
    | inr c ↦ rw c (rules_from-Standing 0 steps h)
  ]

  spec-faults :
      (name source : Bytes) (faults : List FaultRule) (seeds : List SeedResource) (rest : List Step)
      (spec : Spec)
      → spec_or_none name source faults seeds rest ≡ compiled spec
      → faults ≡ spec.faults
  spec-faults name source [] [] rest spec e = ground (arith, e)
  spec-faults name source (f ∷ faults) [] rest spec e = ground (arith, e)
  spec-faults name source [] (r ∷ seeds) rest spec e = ground (arith, e)
  spec-faults name source (f ∷ faults) (r ∷ seeds) rest spec e = ground (arith, e)

  -- The faults of a mode are named mode-1, mode-2 and so on in their order, and none of them that is
  -- served in real time and without an end is a latency, a hang or a slow body.
  pub compile-Standing :
      (name source : Bytes) (steps : List Step) (spec : Spec)
      → compile marshal name source steps ≡ compiled spec
      → Standing 0 spec.faults
  compile-Standing name source steps spec e =
      let (fails, gives) = compile_lem name source steps in
      elim (Bool-cases (any_endless marshal (leading steps))) [
        | inl h ↦ absurd (let (kind, b, f) = fails h in ground (arith, e, f))
        | inr h ↦
            subst (Standing 0) (spec-faults name source _ _ _ spec (sym (gives h) ∙ e))
              (standing_faults-Standing (leading steps) h)
      ]
