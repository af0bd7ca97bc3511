-- ===== src/Base/Splits.antt =====
-- Texts that are split at a byte and joined again.
use pikopod.Base.{
  ℕ, ◌≡◌, ◌≢◌, refl, subst, false, ◌||◌, none, some, List, [], ◌∷◌, ◌++◌, arith, nat_beq, All,
  Bool-cases, Option-cases, inl, inr,
}
use pikopod.Base.Bytes.{Bytes, split, join, contains, cut, split-cons, split-join}

pub contains-append : (d : ℕ) (a b : Bytes) → contains d (a ++ b) ≡ contains d a || contains d b
unfolding contains
contains-append d [] b = refl
contains-append d (x ∷ a) b = ground (arith, contains-append d a b)

pub join-contains :
    (c d : ℕ) (l : List Bytes)
    → nat_beq c d ≡ false
    → All (λ s. contains d s ≡ false) l
    → contains d (join c l) ≡ false
unfolding join contains
join-contains c d [] ne h = refl
join-contains c d (s ∷ []) ne h = h.0
join-contains c d (s ∷ t ∷ l) ne h =
    ground (arith, contains-append d s (c ∷ join c (t ∷ l)), h.0, join-contains c d (t ∷ l) ne h.1)

pub split_plain : (c : ℕ) (s : Bytes) → All (λ x. contains c x ≡ false) (split c s)
unfolding split contains
split_plain c [] = (refl, tt)
split_plain c (x ∷ s) =
    let (h, t, e) = split-cons c s in
    let rest = subst (All (λ y. contains c y ≡ false)) e (split_plain c s) in
    elim (Bool-cases (nat_beq x c)) [
      | inl q ↦ rw (q, e) (refl, rest)
      | inr q ↦ rw (q, e) (ground (arith, q, rest.0), rest.1)
    ]

pub split-ne-nil : (c : ℕ) (s : Bytes) → split c s ≢ []
split-ne-nil c s n = let (h, t, e) = split-cons c s in ground (arith, n, e)

pub split-join_cons :
    (c : ℕ) (l : List Bytes) → l ≢ [] → All (λ s. contains c s ≡ false) l → split c (join c l) ≡ l
split-join_cons c [] ne h = absurd (ne refl)
split-join_cons c (s ∷ l) ne h = split-join c s l h

-- The text before the first separator has none.
pub cut_plain : (c : ℕ) (s a b : Bytes) → cut c s ≡ some (a, b) → contains c a ≡ false
unfolding cut contains
cut_plain c [] a b e = absurd (ground (arith, e))
cut_plain c (x ∷ s) a b e = elim (Option-cases (cut c s)) [
  | inl n ↦ ground (arith, e, n)
  | inr ((p, r), n) ↦ ground (arith, e, n, cut_plain c s p r n)
]

pub contains-cut :
    (c d : ℕ) (s a b : Bytes)
    → cut c s ≡ some (a, b)
    → contains d s ≡ false
    → (contains d a ≡ false) × (contains d b ≡ false)
unfolding cut contains
contains-cut c d [] a b e h = absurd (ground (arith, e))
contains-cut c d (x ∷ s) a b e h = elim (Option-cases (cut c s)) [
  | inl n ↦ (ground (arith, e, n, h), ground (arith, e, n, h))
  | inr ((p, r), n) ↦
      let (l, k) = contains-cut c d s p r n (ground (arith, h)) in
      (ground (arith, e, n, h, l), ground (arith, e, n, h, k))
]

pub none-contains : (c : ℕ) (s : Bytes) → cut c s ≡ none → contains c s ≡ false
unfolding cut contains
none-contains c [] e = refl
none-contains c (x ∷ s) e = elim (Option-cases (cut c s)) [
  | inl n ↦ ground (arith, e, n, none-contains c s n)
  | inr ((p, r), n) ↦ absurd (ground (arith, e, n))
]

-- The pieces of a text without a byte are without it.
pub split-contains :
    (c d : ℕ) (s : Bytes) → contains d s ≡ false → All (λ x. contains d x ≡ false) (split c s)
unfolding split contains
split-contains c d [] h = (refl, tt)
split-contains c d (x ∷ s) h =
    let (p, t, e) = split-cons c s in
    let rest =
      subst (All (λ y. contains d y ≡ false)) e (split-contains c d s (ground (arith, h))) in
    elim (Bool-cases (nat_beq x c)) [
      | inl q ↦ rw (q, e) (refl, rest)
      | inr q ↦ rw (q, e) (ground (arith, h, rest.0), rest.1)
    ]
