-- ===== src/Sandbox/Envelope/Expand.antt =====
-- That the loop of `expand` ends (internal/sandbox/envelope.go).
use pikopod.Base.{
  Bool, true, false, not, ◌&&◌, Option, none, List, nat_beq, bytes_eq, ℕ, ◌+◌, ◌≤◌, some, [], ◌∷◌,
  ◌++◌, length,
}
use pikopod.Base.Map.{Map, lookup}
use pikopod.Base.Bytes.{Bytes}
use pikopod.Volatile.{trim_space_left, trim_space_right}
use pikopod.Sandbox.Envelope.{Round, last_round, next_round}

-- A round leaves at least four bytes less.
abbrev Shorter : Bytes → Round → Type 0
Shorter rest (last_round out) = Unit
Shorter rest (next_round out left) = length left + 4 ≤ length rest

abbrev pub or_nothing : Option Bytes → Bytes
or_nothing none = []
or_nothing (some v) = v

-- No two bytes `c` stand in a row.
abbrev pub no_pair : ℕ → Bytes → Bool
no_pair c [] = true
no_pair c (x ∷ []) = true
no_pair c (x ∷ y ∷ s) = not (nat_beq x c && nat_beq y c) && no_pair c (y ∷ s)

-- And none stands at the end.
abbrev pub ends_with : ℕ → Bytes → Bool
ends_with c [] = false
ends_with c (x ∷ []) = nat_beq x c
ends_with c (x ∷ y ∷ s) = ends_with c (y ∷ s)

-- A template: texts and names in turn, each name in double braces, and the text after the last.
abbrev pub template_of : List (Bytes × Bytes) → Bytes → Bytes
template_of [] tail = tail
template_of ((text, name) ∷ parts) tail =
    text ++ b'{' ∷ b'{' ∷ (name ++ b'}' ∷ b'}' ∷ template_of parts tail)

-- What it stands for.
abbrev pub filled : Map Bytes Bytes → List (Bytes × Bytes) → Bytes → Bytes
filled vars [] tail = tail
filled vars ((text, name) ∷ parts) tail =
    text
    ++ (or_nothing (lookup (trim_space_right (trim_space_left name)) vars)
        ++ filled vars parts tail)

-- No text has two opening braces in a row or one before the double brace, and no name so for closing
-- ones.
abbrev pub plain_parts : List (Bytes × Bytes) → Bool
plain_parts [] = true
plain_parts ((text, name) ∷ parts) =
    (no_pair b'{' text && not (ends_with b'{' text))
    && ((no_pair b'}' name && not (ends_with b'}' name)) && plain_parts parts)
