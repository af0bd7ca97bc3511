-- ===== src/Base/Map.antt =====
-- Go maps as association lists. The order of the list stands for the order of one iteration, which
-- Go leaves open: no theorem fixes it.
pub mod Oldest
use pikopod.Base.{
  suc, ◌≤◌, ◌<◌, ◌≡◌, refl, Bool, true, false, not, ◌&&◌, ◌||◌, Option, none, some, List, [], ◌∷◌,
  arith, Comparable, ◌==◌, if◌then◌else◌, length, All,
}

abbrev pub Map {ℓ κ} : Type ℓ → Type κ → Type (ℓ ⊔ κ)
Map K V = List (K × V)

module _ {ℓ κ} {K : Type ℓ} {V : Type κ} ⦃e : Comparable K⦄ where
  -- `v, ok := m[k]`
  unfoldable pub lookup : K → Map K V → Option V
  lookup key [] = none
  lookup key ((other, held) ∷ rest) = if other == key then some held else lookup key rest

  -- `m[k] = v`
  unfoldable pub insert : K → V → Map K V → Map K V
  insert key new [] = (key, new) ∷ []
  insert key new ((other, held) ∷ rest) =
      let later = insert key new rest in
      if other == key then (key, new) ∷ rest else (other, held) ∷ later

  -- `delete(m, k)`
  unfoldable pub delete : K → Map K V → Map K V
  delete k [] = []
  delete k ((j, w) ∷ m) = let rest = delete k m in if j == k then rest else (j, w) ∷ rest

  -- `_, ok := m[k]`
  unfoldable pub has : K → Map K V → Bool
  has k [] = false
  has k ((j, v) ∷ m) = (j == k) || has k m

  -- What is put under a key is found there, and all else as before.
  pub lookup-insert :
      (key asked : K) (new : V) (m : Map K V)
      → lookup asked (insert key new m) ≡ (if key == asked then some new else lookup asked m)
  unfolding lookup insert
  lookup-insert key asked new [] = refl
  lookup-insert key asked new ((other, held) ∷ rest) = ground (
    arith,
    e.same_iff key asked,
    e.same_iff other key,
    e.same_iff other asked,
    lookup-insert key asked new rest,
  )

  pub lookup-insert-same : (k : K) (v : V) (m : Map K V) → lookup k (insert k v m) ≡ some v
  lookup-insert-same k v m = ground (arith, lookup-insert k k v m, e.same_iff k k)

  pub lookup-delete :
      (k j : K) (m : Map K V) → lookup j (delete k m) ≡ (if k == j then none else lookup j m)
  unfolding lookup delete
  lookup-delete k j [] = ground arith
  lookup-delete k j ((i, w) ∷ m) =
      ground (arith, e.same_iff k j, e.same_iff i k, e.same_iff i j, lookup-delete k j m)

  pub length-insert :
      (k : K) (v : V) (m : Map K V)
      → length (insert k v m) ≡ (if has k m then length m else suc (length m))
  unfolding insert has
  length-insert k v [] = refl
  length-insert k v ((j, w) ∷ m) = ground (arith, length-insert k v m)

  pub length-delete-le : (k : K) (m : Map K V) → length (delete k m) ≤ length m
  unfolding delete
  length-delete-le k [] = omega arith
  length-delete-le k ((j, w) ∷ m) = ground (arith, length-delete-le k m)

  pub length-delete-has : (k : K) (m : Map K V) → has k m ≡ true → length (delete k m) < length m
  unfolding delete has
  length-delete-has k ((j, w) ∷ m) h = ground (arith, length-delete-le k m, length-delete-has k m)
  length-delete-has k [] h = absurd (ground arith)

  pub has-lookup : (k : K) (m : Map K V) → lookup k m ≡ none → has k m ≡ false
  unfolding lookup has
  has-lookup k [] h = refl
  has-lookup k ((j, w) ∷ m) h = ground (arith, has-lookup k m)

  pub lookup-has : (k : K) (m : Map K V) → has k m ≡ false → lookup k m ≡ none
  unfolding lookup has
  lookup-has k [] h = refl
  lookup-has k ((j, w) ∷ m) h = ground (arith, lookup-has k m)

  pub has-lookup-some : (k : K) (v : V) (m : Map K V) → lookup k m ≡ some v → has k m ≡ true
  unfolding lookup has
  has-lookup-some k v [] h = ground arith
  has-lookup-some k v ((j, w) ∷ m) h = ground (arith, has-lookup-some k v m)

  pub has-insert : (k j : K) (v : V) (m : Map K V) → has j (insert k v m) ≡ (k == j) || has j m
  unfolding insert has
  has-insert k j v [] = ground arith
  has-insert k j v ((i, w) ∷ m) =
      ground (arith, e.same_iff k j, e.same_iff i k, e.same_iff i j, has-insert k j v m)

  pub has-delete : (k j : K) (m : Map K V) → has j (delete k m) ≡ not (k == j) && has j m
  unfolding delete has
  has-delete k j [] = ground arith
  has-delete k j ((i, w) ∷ m) =
      ground (arith, e.same_iff k j, e.same_iff i k, e.same_iff i j, has-delete k j m)

  -- No key stands twice: what every Go map satisfies.
  abbrev pub IsMap : Map K V → Type 0
  IsMap [] = Unit
  IsMap ((k, v) ∷ m) = (has k m ≡ false) × IsMap m

  pub insert-IsMap : (k : K) (v : V) (m : Map K V) → IsMap m → IsMap (insert k v m)
  unfolding insert has
  insert-IsMap k v [] h = ground arith
  insert-IsMap k v ((j, w) ∷ m) h =
      ground (arith, insert-IsMap k v m, e.same_iff k j, e.same_iff j k, has-insert k j v m)

  pub delete-IsMap : (k : K) (m : Map K V) → IsMap m → IsMap (delete k m)
  unfolding delete
  delete-IsMap k [] h = ground arith
  delete-IsMap k ((j, w) ∷ m) h = ground (arith, delete-IsMap k m, has-delete k j m)

  pub All-insert {μ} :
      (P : K × V → Type μ) (k : K) (v : V) (m : Map K V) → P (k, v) → All P m → All P (insert k v m)
  unfolding insert
  All-insert P k v [] p h = (p, tt)
  All-insert P k v ((j, w) ∷ m) p h =
      elim (j == k) as (λ b. All P (if b then (k, v) ∷ m else (j, w) ∷ insert k v m)) [
        | true ↦ (p, h.1)
        | false ↦ (h.0, All-insert P k v m p h.1)
      ]

  pub All-delete {μ} : (P : K × V → Type μ) (k : K) (m : Map K V) → All P m → All P (delete k m)
  unfolding delete
  All-delete P k [] h = h
  All-delete P k ((j, w) ∷ m) h =
      elim (j == k) as (λ b. All P (if b then delete k m else (j, w) ∷ delete k m)) [
        | true ↦ All-delete P k m h.1
        | false ↦ (h.0, All-delete P k m h.1)
      ]
