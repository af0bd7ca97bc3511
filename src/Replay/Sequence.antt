-- ===== src/Replay/Sequence.antt =====
-- A scope is served an exact match's recordings in order, and the last one from then on
-- (internal/replay/replay.go, the exact tier of `MatchValueScoped`).
use pikopod.Base.{
  ℕ, zero, suc, ◌+◌, ◌≤◌, ◌<◌, ◌≡◌, refl, sym, ◌∙◌, true, false, not, none, some, List, [], ◌∷◌,
  arith, nat_beq, nat_beq_iff, ltb, min, if◌then◌else◌, length, bytes_eq, find_by, get_elem?,
  get_elem?_in, length-modify, All, last?, Bool-cases, inl, inr, subst,
}
use pikopod.Base.Map.{insert}
use pikopod.Base.Bytes.{Bytes}
use pikopod.Replay.{Recording, is_served, mark_served, answer_exact, position}
use pikopod.Replay.Served.{Distinct, InHeap, Fresh, Progress, find-Progress, Progress-step}

length-mark :
    (heap : List Recording) (scope : Bytes) (i : ℕ)
    → length (mark_served heap scope i) ≡ length heap
unfolding mark_served
length-mark heap scope i =
    length-modify (λ r. record r { served = insert scope true r.served }) i heap

-- The heap after `n` requests that the exact tier answered for the scope.
pub after_exact : List Recording → List ℕ → Bytes → ℕ → List Recording
unfolding answer_exact
after_exact heap recs scope zero = heap
after_exact heap recs scope (suc n) = (answer_exact (after_exact heap recs scope n) recs scope).0

position_lem :
    (i : ℕ) (recs : List ℕ) (k base : ℕ)
    → get_elem? recs k ≡ some i
    → Distinct recs
    → position i recs base ≡ base + k + 1
unfolding position
position_lem i [] k base e d = absurd (ground arith)
position_lem i (x ∷ xs) zero base e d = ground (arith, nat_beq_iff x i)
position_lem i (x ∷ xs) (suc k) base e d =
    ground (arith, position_lem i xs k (base + 1) e d.1, not_first i xs k e d.0)
  where
    not_first :
        (i : ℕ) (xs : List ℕ) (k : ℕ)
        → get_elem? xs k ≡ some i
        → All (λ y. nat_beq x y ≡ false) xs
        → nat_beq x i ≡ false
    not_first i [] k e h = absurd (ground arith)
    not_first i (y ∷ ys) zero e h = ground (arith, h.0)
    not_first i (y ∷ ys) (suc k) e h = not_first i ys k e h.1

InHeap-at :
    (heap : List Recording) (i : ℕ) (recs : List ℕ) (k : ℕ)
    → get_elem? recs k ≡ some i
    → InHeap heap recs
    → i < length heap
InHeap-at heap i [] k e h = absurd (ground arith)
InHeap-at heap i (x ∷ xs) zero e h = ground (arith, h.0)
InHeap-at heap i (x ∷ xs) (suc k) e h = InHeap-at heap i xs k e h.1

InHeap-length :
    (heap heap' : List Recording) (recs : List ℕ)
    → length heap' ≡ length heap
    → InHeap heap recs
    → InHeap heap' recs
InHeap-length heap heap' [] e h = tt
InHeap-length heap heap' (x ∷ xs) e h = (omega (arith, h.0), InHeap-length heap heap' xs e h.1)

get_none : (recs : List ℕ) (k : ℕ) → length recs ≤ k → get_elem? recs k ≡ none
get_none [] k h = refl
get_none (x ∷ xs) zero h = absurd (omega arith)
get_none (x ∷ xs) (suc k) h = get_none xs k (omega arith)

progress_next : ℕ → ℕ → ℕ
progress_next k len = if ltb k len then suc k else k

-- One request of the exact tier, from a point where the scope was served the first `k`.
record Next (heap : List Recording) (recs : List ℕ) (scope : Bytes) (k : ℕ) : Type 0 where
  answer :
      (answer_exact heap recs scope).1
      ≡ (if ltb k (length recs) then get_elem? recs k else last? recs)
  held : (answer_exact heap recs scope).2.held ≡ not (ltb k (length recs))
  place : (answer_exact heap recs scope).2.seq_pos ≡ min (k + 1) (length recs)
  onward : Progress (answer_exact heap recs scope).0 scope recs (progress_next k (length recs))
  room : InHeap (answer_exact heap recs scope).0 recs

Next-exact :
    (heap : List Recording) (recs : List ℕ) (scope : Bytes) (k : ℕ)
    → k ≤ length recs
    → Distinct recs
    → InHeap heap recs
    → Progress heap scope recs k
    → Next heap recs scope k
unfolding answer_exact progress_next
Next-exact heap recs scope k le d b h = elim (Bool-cases (ltb k (length recs))) [
  | inl more ↦
      let (i, e) = get_elem?_in recs k (ground arith) in
      let found = find-Progress heap scope recs k h ∙ e in
      record {
        answer = ground (arith, found, e);
        held = ground (arith, found);
        place = ground (arith, found, position_lem i recs k 0 e d);
        onward =
            subst (λ hp. Progress hp scope recs (if ltb k (length recs) then suc k else k))
              (sym (marks i found))
              (rw more (Progress-step heap scope i recs k (InHeap-at heap i recs k e b) e d h));
        room =
            subst (λ hp. InHeap hp recs) (sym (marks i found))
              (InHeap-length heap (mark_served heap scope i) recs (length-mark heap scope i) b);
      }
  | inr done ↦
      let found = find-Progress heap scope recs k h ∙ get_none recs k (ground arith) in
      record {
        answer = ground (arith, found);
        held = ground (arith, found);
        place = ground (arith, found);
        onward =
            subst (λ hp. Progress hp scope recs (if ltb k (length recs) then suc k else k))
              (sym (stays found)) (rw done h);
        room = subst (λ hp. InHeap hp recs) (sym (stays found)) b;
      }
]
  where
    marks :
        (i : ℕ)
        → find_by (λ j. not (is_served heap scope j)) recs ≡ some i
        → (answer_exact heap recs scope).0 ≡ mark_served heap scope i
    marks i e = ground arith

    stays :
        find_by (λ j. not (is_served heap scope j)) recs ≡ none
        → (answer_exact heap recs scope).0 ≡ heap
    stays e = ground arith

Progress-Fresh :
    (heap : List Recording) (scope : Bytes) (recs : List ℕ)
    → All (Fresh heap scope) recs
    → Progress heap scope recs 0
Progress-Fresh heap scope recs h = (tt, h)

Progress-after :
    (heap : List Recording) (recs : List ℕ) (scope : Bytes) (n : ℕ)
    → Distinct recs
    → InHeap heap recs
    → All (Fresh heap scope) recs
    → Progress (after_exact heap recs scope n) scope recs (min n (length recs))
      × InHeap (after_exact heap recs scope n) recs
unfolding after_exact
Progress-after heap recs scope zero d b f =
    let e : min zero (length recs) ≡ 0 = omega arith in
    (subst (Progress heap scope recs) (sym e) (Progress-Fresh heap scope recs f), b)
Progress-after heap recs scope (suc n) d b f =
    let (h, room) = Progress-after heap recs scope n d b f in
    let next =
      Next-exact (after_exact heap recs scope n) recs scope (min n (length recs)) (omega arith) d
        room h in
    let e : progress_next (min n (length recs)) (length recs) ≡ min (suc n) (length recs) =
      unfold progress_next in ground arith in
    (
      subst (Progress (answer_exact (after_exact heap recs scope n) recs scope).0 scope recs) e
          next.onward,
      next.room,
    )

-- For a list of recordings that stand in the set once each and that a scope was not served yet, the
-- scope's request number `n` (from 0) is answered with recording `n` of the list while there is one,
-- and with the last recording, marked as held, ever after; the position beside it is `n + 1`, or the
-- length of the list.
pub exact_sequence :
    (heap : List Recording) (recs : List ℕ) (scope : Bytes) (n : ℕ)
    → Distinct recs
    → InHeap heap recs
    → All (Fresh heap scope) recs
    → ((answer_exact (after_exact heap recs scope n) recs scope).1
        ≡ (if ltb n (length recs) then get_elem? recs n else last? recs))
      × ((answer_exact (after_exact heap recs scope n) recs scope).2.held
          ≡ not (ltb n (length recs)))
      × ((answer_exact (after_exact heap recs scope n) recs scope).2.seq_pos
          ≡ min (n + 1) (length recs))
exact_sequence heap recs scope n d b f =
    let (h, room) = Progress-after heap recs scope n d b f in
    let k = min n (length recs) in
    let next = Next-exact (after_exact heap recs scope n) recs scope k (omega arith) d room h in
    (next.answer ∙ same_place recs n, next.held ∙ ground arith, next.place ∙ omega arith)
  where
    same_place :
        (l : List ℕ) (m : ℕ)
        → (if ltb (min m (length l)) (length l) then get_elem? l (min m (length l)) else last? l)
          ≡ (if ltb m (length l) then get_elem? l m else last? l)
    same_place l m = elim (Bool-cases (ltb m (length l))) [
      | inl t ↦ let e : min m (length l) ≡ m = ground arith in rw e
      | inr t ↦ let e : min m (length l) ≡ length l = ground arith in rw e (ground arith)
    ]
