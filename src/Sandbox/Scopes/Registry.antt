-- ===== src/Sandbox/Scopes/Registry.antt =====
-- The registry of scopes is a bounded least-recently-used set (internal/sandbox/scope.go).
use pikopod.Base.{
  ℕ, ◌+◌, ◌≤◌, ◌≡◌, ◌≢◌, true, false, not, ◌&&◌, none, some, [], ◌∷◌, ◌==◌, arith, leb, leb→le,
  if◌then◌else◌, bytes_eq, bytes_beq_iff, Bool-cases, inl, inr, All, All-mono, subst, length,
}
use pikopod.Base.Map.{
  Map, IsMap, lookup, has, insert, delete, lookup-has, lookup-insert, lookup-delete, length-insert,
  length-delete-has, has-lookup-some, insert-IsMap, delete-IsMap, All-insert, All-delete,
}
use pikopod.Base.Map.Oldest.{oldest, oldest_lem, KeysNonempty}
use pikopod.Base.Bytes.{Bytes}
use pikopod.Sandbox.Scopes.{ScopeRegistry, max_scopes, victim_for, touch_registry}

pub record IsValid (r : ScopeRegistry) : Type 0 where
  pub bounded : length r.seen ≤ max_scopes
  pub keyed : IsMap r.seen
  pub named : KeysNonempty (λ (n : ℕ). n) r.seen
  pub past : All (λ (p : Bytes × ℕ). p.1 ≤ r.tick) r.seen

-- The scope that is evicted is in the registry, and no scope there was touched before it.
victim_for_lem :
    (r : ScopeRegistry) (scope : Bytes)
    → IsValid r
    → max_scopes ≤ length r.seen
    → (w : ℕ) × (lookup (oldest (λ (n : ℕ). n) [] 0 r.seen) r.seen ≡ some w)
      × All (λ (p : Bytes × ℕ). w ≤ p.1) r.seen
victim_for_lem r scope h full = oldest_lem (λ (n : ℕ). n) r.seen (omega arith) h.named h.keyed

touch_registry-bounded :
    (r : ScopeRegistry) (scope : Bytes)
    → IsValid r
    → length (touch_registry r scope).seen ≤ max_scopes
unfolding touch_registry
touch_registry-bounded r scope h =
    let victim = oldest (λ (n : ℕ). n) [] 0 r.seen in
    elim (Bool-cases (leb max_scopes (length r.seen))) [
      | inl full ↦
          let (w, e, least) = victim_for_lem r scope h (leb→le _ _ full) in
          ground (
            arith,
            length-insert scope (r.tick + 1) r.seen,
            length-insert scope (r.tick + 1) (delete victim r.seen),
            length-delete-has victim r.seen (has-lookup-some victim w r.seen e),
            h.bounded,
          )
      | inr room ↦ ground (arith, length-insert scope (r.tick + 1) r.seen, h.bounded)
    ]

touch_registry-keyed :
    (r : ScopeRegistry) (scope : Bytes) → IsValid r → IsMap (touch_registry r scope).seen
unfolding touch_registry
touch_registry-keyed r scope h =
    let victim = victim_for r scope in
    ground (
      arith,
      insert-IsMap scope (r.tick + 1) (delete victim r.seen) (delete-IsMap victim r.seen h.keyed),
      insert-IsMap scope (r.tick + 1) r.seen h.keyed,
    )

touch_registry-All :
    (P : Bytes × ℕ → Type 0) (r : ScopeRegistry) (scope : Bytes)
    → P (scope, r.tick + 1)
    → All P r.seen
    → All P (touch_registry r scope).seen
unfolding touch_registry
touch_registry-All P r scope p h =
    elim (not (has scope r.seen) && leb max_scopes (length r.seen))
      as (λ b.
        All P
          (insert scope (r.tick + 1) (if b then delete (victim_for r scope) r.seen else r.seen))) [
            | true ↦
                All-insert P scope (r.tick + 1) (delete (victim_for r scope) r.seen) p
                  (All-delete P (victim_for r scope) r.seen h)
            | false ↦ All-insert P scope (r.tick + 1) r.seen p h
          ]

touch_registry-IsValid :
    (r : ScopeRegistry) (scope : Bytes) → scope ≢ [] → IsValid r → IsValid (touch_registry r scope)
touch_registry-IsValid r scope ne h = record {
  bounded = touch_registry-bounded r scope h;
  keyed = touch_registry-keyed r scope h;
  named = touch_registry-All (λ (p : Bytes × ℕ). p.0 ≢ []) r scope ne h.named;
  past =
      unfold touch_registry in
      touch_registry-All (λ (p : Bytes × ℕ). p.1 ≤ r.tick + 1) r scope (omega arith)
        (All-mono (λ (p : Bytes × ℕ). p.1 ≤ r.tick) (λ (p : Bytes × ℕ). p.1 ≤ r.tick + 1)
          (λ x b. omega arith) r.seen h.past);
}

victim_oldest :
    (r : ScopeRegistry) (scope : Bytes)
    → IsValid r
    → victim_for r scope ≢ []
    → (lookup scope r.seen ≡ none)
      × (length r.seen ≡ max_scopes)
      × (w : ℕ) × (lookup (victim_for r scope) r.seen ≡ some w)
      × All (λ (p : Bytes × ℕ). w ≤ p.1) r.seen
unfolding victim_for
victim_oldest r scope h ne =
    elim (Bool-cases (not (has scope r.seen) && leb max_scopes (length r.seen))) [
      | inl full ↦ (
        ground (arith, full, lookup-has scope r.seen),
        ground (arith, full, h.bounded),
        (victim_for_lem r scope h (ground arith)).0,
        rw full (victim_for_lem r scope h (ground arith)).1,
        (victim_for_lem r scope h (ground arith)).2,
      )
      | inr room ↦ absurd (ne (rw room))
    ]

not_named : (w : ℕ) (m : Map Bytes ℕ) → KeysNonempty (λ (n : ℕ). n) m → ¬ (lookup [] m ≡ some w)
unfolding lookup
not_named w [] ks l = ground arith
not_named w ((k, x) ∷ m) ks l = not_named w m ks.1 (ground (arith, bytes_beq_iff k [], ks.0))

victim_named :
    (r : ScopeRegistry) (scope : Bytes)
    → IsValid r
    → not (has scope r.seen) && leb max_scopes (length r.seen) ≡ true
    → victim_for r scope ≢ []
unfolding victim_for
victim_named r scope h full e =
    let (w, found, least) = victim_for_lem r scope h (ground arith) in
    not_named w r.seen h.named
      (subst (λ (v : Bytes). lookup v r.seen ≡ some w) (ground (arith, e, full)) found)

no_victim :
    (r : ScopeRegistry) (scope : Bytes)
    → not (has scope r.seen) && leb max_scopes (length r.seen) ≡ false
    → victim_for r scope ≡ []
unfolding victim_for
no_victim r scope room = ground arith

-- Touching a scope that has a name stamps it with a new time, above all others, and keeps the
-- registry valid: at most 256 scopes, each once. Every other scope keeps its time, except the
-- victim, which is gone; there is one only where the scope is new and the registry holds 256, and then
-- it is a scope that no other was touched before.
pub touch_registry_lru :
    (r : ScopeRegistry) (scope other : Bytes)
    → scope ≢ []
    → IsValid r
    → IsValid (touch_registry r scope)
      × (lookup other (touch_registry r scope).seen ≡ (
          if scope == other
          then some (r.tick + 1)
          else if (victim_for r scope == other) && not (other == [])
          then none
          else lookup other r.seen))
      × (victim_for r scope ≢ []
          → (lookup scope r.seen ≡ none)
            × (length r.seen ≡ max_scopes)
            × (w : ℕ) × (lookup (victim_for r scope) r.seen ≡ some w)
            × All (λ (p : Bytes × ℕ). w ≤ p.1) r.seen)
unfolding touch_registry
touch_registry_lru r scope other ne h =
    let v = victim_for r scope in
    (
      touch_registry-IsValid r scope ne h,
      elim (Bool-cases (not (has scope r.seen) && leb max_scopes (length r.seen))) [
        | inl full ↦ ground (
          arith,
          lookup-insert scope other (r.tick + 1) (delete v r.seen),
          lookup-delete v other r.seen,
          victim_named r scope h full,
          bytes_beq_iff scope other,
          bytes_beq_iff v other,
          bytes_beq_iff other [],
        )
        | inr room ↦ ground (
          arith,
          lookup-insert scope other (r.tick + 1) r.seen,
          no_victim r scope room,
          bytes_beq_iff scope other,
          bytes_beq_iff v other,
          bytes_beq_iff other [],
        )
      ],
      victim_oldest r scope h,
    )
