-- ===== src/PathTemplates/Cardinality.antt =====
-- How many segments one position of a path keeps (internal/pathtmpl/pathtmpl.go, `Apply`).
use pikopod.Base.{
  Option, none, filter_by, ℕ, ◌≤◌, ◌≡◌, ◌⊎◌, Bool, true, false, ◌||◌, some, List, [], ◌∷◌, ◌==◌,
  length, bytes_eq, All,
}
use pikopod.Base.Map.{Map, lookup, has}
use pikopod.Base.Bytes.{Bytes}
use pikopod.PathTemplates.{
  Guard, member, or_no_values, or_no_pins, id_placeholder, guard_segment, fixed_segment,
}

-- What comes out for the segments that come to one position, one after the other.
abbrev pub outputs : Guard → Bytes → List Bytes → List Bytes
outputs g key [] = []
outputs g key (seg ∷ segs) =
    (guard_segment g key seg).1 ∷ outputs (guard_segment g key seg).0 key segs

-- The placeholder, or a text of the list.
abbrev pub IsKnown : List Bytes → Bytes → Type 0
IsKnown kept out = (out ≡ id_placeholder) ⊎ (member out kept ≡ true)

abbrev pub keys_of : Map Bytes ℕ → List Bytes
keys_of [] = []
keys_of ((k, n) ∷ m) = k ∷ keys_of m

-- The values that a position has shown so far.
abbrev pub values_at : Guard → Bytes → Map Bytes ℕ
values_at g key = or_no_values (lookup key g.seen)

-- A round at a position that is not promoted yet: it stays open, with the values it had and the
-- segment's; or it is promoted, and what is pinned it had shown before.
pub data Round (g : Guard) (key seg : Bytes) (r : Guard × Bytes × Bool) : Type 0 where
  open_still :
      r.1 ≡ seg
      → member key r.0.promoted ≡ false
      → length (values_at r.0 key) ≤ g.threshold
      → ((k : Bytes) → has k (values_at r.0 key) ≡ (seg == k) || has k (values_at g key))
      → Round g key seg r
  closed :
      member key r.0.promoted ≡ true
      → IsKnown (or_no_pins (lookup key r.0.pinned)) r.1
      → ((k : Bytes)
          → member k (or_no_pins (lookup key r.0.pinned)) ≡ true
          → has k (values_at g key) ≡ true)
      → Round g key seg r

-- `kept` bounds what comes out of the position from the guard `g` on.
pub record Bounds (g : Guard) (key : Bytes) (segs kept : List Bytes) : Type 0 where
  pub small : length kept ≤ g.threshold
  pub all_known : All (IsKnown kept) (outputs g key segs)
  pub shown : (k : Bytes) → has k (values_at g key) ≡ true → member k kept ≡ true

-- What comes out for them where `Apply` leaves to `ClassifySegment` those that it matches.
abbrev pub all_outputs : Guard → Bytes → List Bytes → List Bytes
all_outputs g key [] = []
all_outputs g key (seg ∷ segs) = elim (fixed_segment seg) [
  | some out ↦ out ∷ all_outputs g key segs
  | none ↦ (guard_segment g key seg).1 ∷ all_outputs (guard_segment g key seg).0 key segs
]

abbrev is_left : Option Bytes → Bool
is_left none = true
is_left (some out) = false

-- The segments that are left to the guard.
abbrev guarded : List Bytes → List Bytes
guarded segs = filter_by (λ seg. is_left (fixed_segment seg)) segs

-- A text that comes out is one of `kept`, or the placeholder, or what `ClassifySegment` made of one.
abbrev pub IsExpected : List Bytes → Bytes → Type 0
IsExpected kept out = IsKnown kept out ⊎ ((seg : Bytes) × (fixed_segment seg ≡ some out))
