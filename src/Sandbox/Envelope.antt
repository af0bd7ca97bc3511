-- ===== src/Sandbox/Envelope.antt =====
-- internal/sandbox/envelope.go: `expand`, which fills the placeholders of an envelope's templates. The
-- loop runs on fuel, one more than the template is long: each round takes at least four bytes off it.
pub mod Expand
use pikopod.Base.{
  ℕ, zero, suc, Bool, ◌&&◌, Option, none, some, List, [], ◌∷◌, ◌++◌, nat_beq, if◌then◌else◌, length,
  bytes_eq,
}
use pikopod.Base.Map.{Map, lookup}
use pikopod.Base.Bytes.{Bytes}
use pikopod.Volatile.{trim_space_left, trim_space_right}

-- What stands before and after the first two bytes `c` in a row: `strings.Index(s, "{{")`.
unfoldable pub cut_twice : ℕ → Bytes → Option (Bytes × Bytes)
cut_twice c [] = none
cut_twice c (x ∷ []) = none
cut_twice c (x ∷ y ∷ s) =
    let rest = cut_twice c (y ∷ s) in
    if nat_beq x c && nat_beq y c
    then some ([], s)
    else elim rest [ none ↦ none | some (a, b) ↦ some (x ∷ a, b) ]

-- `vars[name]`, empty where there is none
unfoldable pub var_of : Map Bytes Bytes → Bytes → Bytes
unfolding lookup trim_space_left trim_space_right
var_of vars name = elim (lookup (trim_space_right (trim_space_left name)) vars) [
  | none ↦ []
  | some v ↦ v
]

-- One round of the loop: what it writes, and what it leaves to the next.
pub data Round : Type 0 where
  last_round : Bytes → Round
  next_round : Bytes → Bytes → Round

unfoldable pub expand_round : Map Bytes Bytes → Bytes → Round
unfolding cut_twice var_of
expand_round vars rest = elim (cut_twice b'{' rest) [
  | none ↦ last_round rest
  | some (before, after) ↦ elim (cut_twice b'}' after) [
    | none ↦ last_round rest
    | some (name, left) ↦ next_round (before ++ var_of vars name) left
  ]
]

abbrev pub continue : (Bytes → Bytes) → Round → Bytes
continue go (last_round out) = out
continue go (next_round out left) = out ++ go left

unfoldable pub expand_fuel : ℕ → Map Bytes Bytes → Bytes → Bytes
unfolding expand_round
expand_fuel zero vars rest = []
expand_fuel (suc n) vars rest = continue (expand_fuel n vars) (expand_round vars rest)

-- `expand`
unfoldable pub expand : Bytes → Map Bytes Bytes → Bytes
unfolding expand_fuel
expand template vars = expand_fuel (suc (length template)) vars template
