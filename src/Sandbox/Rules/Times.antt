-- ===== src/Sandbox/Rules/Times.antt =====
-- How often a rule answers (internal/sandbox/rules.go, `applyRules` with `consumeWindow`).
use pikopod.Base.{
  ℕ, ◌+◌, ◌&&◌, ◌==◌, if◌then◌else◌, ◌≤◌, ◌≡◌, Bool, true, false, Option, none, some, List, [], ◌∷◌,
  nat_beq, length, bytes_eq,
}
use pikopod.Base.Map.{lookup}
use pikopod.Base.Bytes.{Bytes}
use pikopod.Sandbox.Windows.{or_zero, max_fault_window_keys}
use pikopod.Sandbox.Rules.First.{key_of}
use pikopod.Sandbox.Rules.{CompiledRule, RuleStore, RuleRequest, apply_rules}

-- A rule with a window has answered no key more often than it may, and counts at most 1024 keys.
pub record WithinTimes (r : CompiledRule) : Type 0 where
  pub few_keys : length r.consumed ≤ max_fault_window_keys
  pub few_times : nat_beq r.times 0 ≡ false → (k : Bytes) → or_zero (lookup k r.consumed) ≤ r.times

abbrev or_rule : CompiledRule → Option CompiledRule → CompiledRule
or_rule a none = a
or_rule a (some b) = b

abbrev is_rule : Option CompiledRule → Bool
is_rule none = false
is_rule (some b) = true

-- What a rule of this id has counted of the key, and its limit; a request it answers under the key.
abbrev pub count_in : Bytes → Bytes → CompiledRule → ℕ
count_in id k r = if r.id == id then or_zero (lookup k r.consumed) else 0

abbrev pub count_for : Bytes → Bytes → List CompiledRule → ℕ
count_for id k [] = 0
count_for id k (r ∷ rules) = count_in id k r + count_for id k rules

abbrev pub limit_for : Bytes → List CompiledRule → ℕ
limit_for id [] = 0
limit_for id (r ∷ rules) = (if r.id == id then r.times else 0) + limit_for id rules

abbrev pub answer_of : Bytes → Bytes → RuleRequest → Option CompiledRule → ℕ
answer_of id k req none = 0
answer_of id k req (some r) = if (r.id == id) && (key_of req r == k) then 1 else 0

module _ {D : Type 0} (store : RuleStore D) where
  -- How often, in a run of requests, a rule of this id answers one that it counts under the key.
  pub answers_to : Bytes → Bytes → List CompiledRule → List (D × RuleRequest) → ℕ
  answers_to id k rules [] = 0
  answers_to id k rules ((d, req) ∷ reqs) =
      let (after, fired) = apply_rules store d req rules in
      let rest = answers_to id k after reqs in answer_of id k req fired + rest
