-- ===== src/Replay/Served.antt =====
-- What serving a recording changes (internal/replay/replay.go, `takeUnserved`).
use pikopod.Base.{
  ℕ, zero, suc, ◌<◌, ◌≡◌, refl, Bool, true, false, not, ◌&&◌, ◌||◌, Option, none, some, List, [],
  ◌∷◌, ◌==◌, arith, nat_beq, nat_beq_iff, bytes_beq_iff, bytes_eq, length, find_by, get_elem?,
  get_elem?-modify, get_elem?_in, All, take, drop, Option-cases, Bool-cases, inl, inr, subst,
}
use pikopod.Base.Map.{insert, delete, lookup-insert, lookup-delete}
use pikopod.Base.Bytes.{Bytes}
use pikopod.Replay.{Recording, is_served, mark_served, unmark_served, take_unserved}

-- Marking changes what one scope was served of one recording, and nothing else.
pub is_served-mark :
    (heap : List Recording) (scope other : Bytes) (i j : ℕ)
    → i < length heap
    → is_served (mark_served heap scope i) other j
      ≡ (nat_beq i j && (scope == other)) || is_served heap other j
unfolding is_served mark_served
is_served-mark heap scope other i j h =
    let (r, e) = get_elem?_in heap i h in
    ground (
      arith,
      e,
      get_elem?-modify (λ r. record r { served = insert scope true r.served }) i j heap,
      lookup-insert scope other true r.served,
      bytes_beq_iff scope other,
      nat_beq_iff i j,
    )

pub is_served-unmark :
    (heap : List Recording) (scope other : Bytes) (i j : ℕ)
    → is_served (unmark_served heap scope i) other j
      ≡ not (nat_beq i j && (scope == other)) && is_served heap other j
unfolding is_served unmark_served
is_served-unmark heap scope other i j = elim (Option-cases (get_elem? heap j)) [
  | inl e ↦
      ground
        (arith, e, get_elem?-modify (λ r. record r { served = delete scope r.served }) i j heap)
  | inr (r, e) ↦ ground (
    arith,
    e,
    get_elem?-modify (λ r. record r { served = delete scope r.served }) i j heap,
    lookup-delete scope other r.served,
    bytes_beq_iff scope other,
    nat_beq_iff i j,
  )
]

-- No place stands twice in the list, and each is a place of the heap.
abbrev pub Distinct : List ℕ → Type 0
Distinct [] = Unit
Distinct (x ∷ xs) = All (λ y. nat_beq x y ≡ false) xs × Distinct xs

abbrev pub InHeap : List Recording → List ℕ → Type 0
InHeap heap recs = All (λ i. i < length heap) recs

abbrev pub Served : List Recording → Bytes → ℕ → Type 0
Served heap scope i = is_served heap scope i ≡ true

abbrev pub Fresh : List Recording → Bytes → ℕ → Type 0
Fresh heap scope i = is_served heap scope i ≡ false

-- The scope was served the first `k` recordings of the list, and no other of it.
abbrev pub Progress : List Recording → Bytes → List ℕ → ℕ → Type 0
Progress heap scope recs k =
    All (Served heap scope) (take k recs) × All (Fresh heap scope) (drop k recs)

All-zip :
    {P Q R : ℕ → Type 0} (xs : List ℕ)
    → ((x : ℕ) → P x → Q x → R x)
    → All P xs
    → All Q xs
    → All R xs
All-zip [] f p q = tt
All-zip (x ∷ xs) f p q = (f x p.0 q.0, All-zip xs f p.1 q.1)

pub find-Progress :
    (heap : List Recording) (scope : Bytes) (recs : List ℕ) (k : ℕ)
    → Progress heap scope recs k
    → find_by (λ i. not (is_served heap scope i)) recs ≡ get_elem? recs k
find-Progress heap scope [] k h = refl
find-Progress heap scope (x ∷ xs) zero h = ground arith
find-Progress heap scope (x ∷ xs) (suc k) h =
    ground (arith, h.0.0, find-Progress heap scope xs k (h.0.1, h.1))

pub Progress-step :
    (heap : List Recording) (scope : Bytes) (i : ℕ) (recs : List ℕ) (k : ℕ)
    → i < length heap
    → get_elem? recs k ≡ some i
    → Distinct recs
    → Progress heap scope recs k
    → Progress (mark_served heap scope i) scope recs (suc k)
Progress-step heap scope i [] k b e d h = absurd (ground arith)
Progress-step heap scope i (x ∷ xs) zero b e d h = (
  (
    ground
        (arith, is_served-mark heap scope scope i x b, bytes_beq_iff scope scope, nat_beq_iff i x),
    tt,
  ),
  All-zip xs
      (λ y ne fresh.
        ground (arith, is_served-mark heap scope scope i y b, nat_beq_iff i y, nat_beq_iff x y))
      d.0 h.1.1,
)
Progress-step heap scope i (x ∷ xs) (suc k) b e d h =
    let (done, rest) = Progress-step heap scope i xs k b e d.1 (h.0.1, h.1) in
    ((ground (arith, is_served-mark heap scope scope i x b, h.0.0), done), rest)

pub find_by-All :
    (P : ℕ → Type 0) (p : ℕ → Bool) (xs : List ℕ) {i : ℕ} → All P xs → find_by p xs ≡ some i → P i
find_by-All P p [] h e = absurd (ground arith)
find_by-All P p (x ∷ xs) {i} h e = elim (Bool-cases (p x)) [
  | inl t ↦ subst P (ground arith) h.0
  | inr f ↦ find_by-All P p xs h.1 (ground arith)
]

infix 50 ◌==?◌
abbrev pub ◌==?◌ : Option ℕ → ℕ → Bool
none ==? j = false
some i ==? j = nat_beq i j

-- The answer of `takeUnserved` is the first recording of the list that the scope was not served;
-- no other scope, and no other recording of this scope, is touched.
pub take_unserved_lem :
    (heap : List Recording) (recs : List ℕ) (scope other : Bytes) (j : ℕ)
    → InHeap heap recs
    → ((take_unserved heap recs scope).1 ≡ find_by (λ i. not (is_served heap scope i)) recs)
      × (is_served (take_unserved heap recs scope).0 other j
          ≡ ((take_unserved heap recs scope).1 ==? j && (scope == other)) || is_served heap other j)
unfolding take_unserved
take_unserved_lem heap recs scope other j h =
    elim (Option-cases (find_by (λ i. not (is_served heap scope i)) recs)) [
      | inl e ↦ (ground (arith, e), ground (arith, e))
      | inr (i, e) ↦ (
        ground (arith, e),
        ground (
          arith,
          e,
          is_served-mark heap scope other i j
              (find_by-All (λ i. i < length heap) (λ i. not (is_served heap scope i)) recs h e),
        ),
      )
    ]
