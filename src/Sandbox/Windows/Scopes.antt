-- ===== src/Sandbox/Windows/Scopes.antt =====
-- Forgetting a scope drops its own counters only (internal/sandbox/scope.go, `forgetScope`).
use pikopod.Base.{
  ℕ, ◌≡◌, ◌≢◌, refl, false, none, [], ◌∷◌, ◌++◌, ◌==◌, arith, if◌then◌else◌, bytes_eq, bytes_beq,
  bytes_beq_iff,
}
use pikopod.Base.Map.{Map, lookup}
use pikopod.Base.Bytes.{Bytes, contains, has_prefix}
use pikopod.Sandbox.Windows.{drop_prefixed, scope_prefix, scoped_key, scope_key_mark}

-- Dropping a prefix removes the keys that have it, and no other.
pub lookup-drop_prefixed :
    (m : Map Bytes ℕ) (prefix k : Bytes)
    → lookup k (drop_prefixed m prefix) ≡ (if has_prefix k prefix then none else lookup k m)
unfolding drop_prefixed lookup
lookup-drop_prefixed [] prefix k = ground arith
lookup-drop_prefixed ((j, n) ∷ m) prefix k =
    ground (arith, lookup-drop_prefixed m prefix k, bytes_beq_iff j k)

has_prefix-mark :
    (c : ℕ) (a b r : Bytes)
    → contains c a ≡ false
    → contains c b ≡ false
    → has_prefix (a ++ c ∷ r) (b ++ c ∷ []) ≡ bytes_beq a b
unfolding has_prefix contains
has_prefix-mark c [] [] r ha hb = ground arith
has_prefix-mark c [] (y ∷ b) r ha hb = ground arith
has_prefix-mark c (x ∷ a) [] r ha hb = ground arith
has_prefix-mark c (x ∷ a) (y ∷ b) r ha hb = ground (arith, has_prefix-mark c a b r)

has_prefix-no_mark :
    (c : ℕ) (a b : Bytes) → contains c a ≡ false → has_prefix a (b ++ c ∷ []) ≡ false
unfolding has_prefix contains
has_prefix-no_mark c [] [] h = refl
has_prefix-no_mark c [] (y ∷ b) h = refl
has_prefix-no_mark c (x ∷ a) [] h = ground arith
has_prefix-no_mark c (x ∷ a) (y ∷ b) h = ground (arith, has_prefix-no_mark c a b)

-- Where no scope and no unscoped key holds the separator, forgetting a scope (which is never the
-- empty one) resets the counters of exactly that scope: a counter of any other scope, or of no
-- scope, reads as before.
pub forget_scope_isolates :
    (m : Map Bytes ℕ) (scope other key : Bytes)
    → scope ≢ []
    → contains scope_key_mark scope ≡ false
    → contains scope_key_mark other ≡ false
    → contains scope_key_mark key ≡ false
    → lookup (scoped_key other key) (drop_prefixed m (scope_prefix scope))
      ≡ (if other == scope then none else lookup (scoped_key other key) m)
unfolding scope_prefix scoped_key
forget_scope_isolates m scope [] key ne hs ho hk = ground (
  arith,
  lookup-drop_prefixed m (scope ++ scope_key_mark ∷ []) key,
  has_prefix-no_mark scope_key_mark key scope hk,
  bytes_beq_iff [] scope,
)
forget_scope_isolates m scope (x ∷ other) key ne hs ho hk = ground (
  arith,
  lookup-drop_prefixed m (scope ++ scope_key_mark ∷ []) ((x ∷ other) ++ scope_key_mark ∷ key),
  has_prefix-mark scope_key_mark (x ∷ other) scope key ho hs,
)
