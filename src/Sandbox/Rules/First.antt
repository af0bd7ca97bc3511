-- ===== src/Sandbox/Rules/First.antt =====
-- Which rule answers a request (internal/sandbox/rules.go, `applyRules`).
use pikopod.Base.{
  ℕ, ◌+◌, ◌||◌, nat_beq, ltb, if◌then◌else◌, length, bytes_eq, arith, ◌≡◌, refl, ap, ◌∙◌, Bool,
  true, false, ◌&&◌, Option, none, some, List, [], ◌∷◌, ◌++◌, All, Bool-cases, inl, inr,
}
use pikopod.Base.Map.{lookup, insert, has}
use pikopod.Base.Bytes.{Bytes}
use pikopod.Sandbox.Windows.{consume_window, window_key, or_zero, max_fault_window_keys}
use pikopod.Sandbox.Rules.{
  CompiledRule, RuleStore, RuleRequest, rule_conditions_hold, fire, apply_rules,
}

-- The key under which the rule counts the request, and how often it has counted it.
abbrev pub key_of : RuleRequest → CompiledRule → Bytes
key_of req r = window_key r.per req.scope req.idempotency_key req.inner_path

abbrev pub counted : RuleRequest → CompiledRule → ℕ
counted req r = or_zero (lookup (key_of req r) r.consumed)

-- The rule has no window, or one that is not used up for the request's key, which it counts already or
-- has room to.
abbrev pub has_turn : RuleRequest → CompiledRule → Bool
has_turn req r =
    nat_beq r.times 0
    || (ltb (counted req r) r.times
        && (has (key_of req r) r.consumed || ltb (length r.consumed) max_fault_window_keys))

-- The rule with the request counted, where it has a window.
abbrev pub with_count : RuleRequest → CompiledRule → CompiledRule
with_count req r =
    if nat_beq r.times 0
    then r
    else record r { consumed = insert (key_of req r) (counted req r + 1) r.consumed }

pub fire_lem :
    (req : RuleRequest) (r : CompiledRule) {D : Type 0} (store : RuleStore D)
    → fire store req r ≡ (if has_turn req r then some (with_count req r) else none)
unfolding fire consume_window
fire_lem req r store = ground arith

module _ {D : Type 0} (store : RuleStore D) where
  -- The rule would answer the request, were it the only one.
  abbrev pub answers : D → RuleRequest → CompiledRule → Bool
  answers d req r = rule_conditions_hold store d req r && has_turn req r

  pub data Answer (d : D) (req : RuleRequest) (rules : List CompiledRule)
      (out : List CompiledRule × Option CompiledRule) : Type 0 where
    no_rule :
        All (λ r. answers d req r ≡ false) rules → out ≡ (rules, none) → Answer d req rules out
    first_rule :
        (before after : List CompiledRule) (r : CompiledRule)
        → rules ≡ before ++ r ∷ after
        → All (λ s. answers d req s ≡ false) before
        → rule_conditions_hold store d req r ≡ true
        → has_turn req r ≡ true
        → out ≡ (before ++ with_count req r ∷ after, some (with_count req r))
        → Answer d req rules out

  skip_rule :
      (d : D) (req : RuleRequest) (r : CompiledRule) (rules : List CompiledRule)
      (out : List CompiledRule × Option CompiledRule)
      → answers d req r ≡ false
      → Answer d req rules out
      → Answer d req (r ∷ rules) (r ∷ out.0, out.1)
  skip_rule d req r rules out h (no_rule all e) = no_rule (h, all) (ap (λ o. (r ∷ o.0, o.1)) e)
  skip_rule d req r rules out h (first_rule before after s place all c f e) =
      first_rule (r ∷ before) after s (ap (λ l. r ∷ l) place) (h, all) c f
        (ap (λ o. (r ∷ o.0, o.1)) e)

  -- The rule that fires is the first one whose conditions hold and that has no window, or one in which
  -- the request's key is below its limit and is counted already or finds room. Its window counts the
  -- request once more under this key; every other rule is left as it was. No rule fires, and none is
  -- changed, only where there is none such.
  pub apply_rules-Answer :
      (d : D) (req : RuleRequest) (rules : List CompiledRule)
      → Answer d req rules (apply_rules store d req rules)
  unfolding apply_rules
  apply_rules-Answer d req [] = no_rule tt refl
  apply_rules-Answer d req (r ∷ rules) =
      let rest = apply_rules-Answer d req rules in
      elim (Bool-cases (rule_conditions_hold store d req r)) [
        | inr c ↦
            rw (c, apply_rules) (skip_rule d req r rules _ (ap (λ b. b && has_turn req r) c) rest)
        | inl c ↦ elim (Bool-cases (has_turn req r)) [
          | inr f ↦
              rw (c, fire_lem req r store, f, apply_rules)
                (skip_rule d req r rules _ (ap (λ b. b && has_turn req r) c ∙ f) rest)
          | inl f ↦
              rw (c, fire_lem req r store, f, apply_rules) (first_rule [] rules r refl tt c f refl)
        ]
      ]
