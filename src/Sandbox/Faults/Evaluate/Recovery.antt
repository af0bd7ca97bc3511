-- ===== src/Sandbox/Faults/Evaluate/Recovery.antt =====
-- That a client recovers by retrying (internal/sandbox/faults.go, `evaluateFaults`).
use pikopod.Base.{
  ℕ, zero, suc, ◌+◌, ◌≤◌, ◌<◌, ◌≡◌, refl, true, false, subst, ◌&&◌, List, [], ◌∷◌, arith,
  if◌then◌else◌, All, bytes_eq, bytes_beq_iff, Bool-cases, inl, inr, ◌⊎◌, All-mono,
}
use native.Mathlib.Numerals.{unary_clauses}
use pikopod.Base.Map.{lookup, lookup-insert}
use pikopod.Sandbox.Windows.{window_key, or_zero, consume_window}
use pikopod.Sandbox.Faults.{FaultRule}
use pikopod.Sandbox.Faults.Evaluate.{
  FaultOutcome, Request, no_outcome, concerns, gate, apply_rule, evaluate_loop, evaluate_faults,
}

-- The rules after the request was sent `n` times.
pub retried : Request → ℕ → List FaultRule → List FaultRule
retried q zero fs = fs
retried q (suc n) fs = retried q n (evaluate_faults q fs).0

-- How often the rule has fired for the request's key.
abbrev count_of : Request → FaultRule → ℕ
count_of q f = or_zero (lookup (window_key f.per q.scope q.idempotency_key q.inner_path) f.consumed)

abbrev Silent : Request → FaultRule → Type 0
Silent q f = (i : ℕ) → gate q f i ≡ (f, false)

-- After `n` retries, a rule with a window of at most `total` is silent, or has counted all of them.
abbrev Worn : Request → ℕ → ℕ → FaultRule → Type 0
Worn q total n f =
    concerns q f ≡ true → (0 < f.times) × (f.times ≤ total) × (Silent q f ⊎ (n ≤ count_of q f))

gate_spent : (q : Request) (f : FaultRule) → 0 < f.times → f.times ≤ count_of q f → Silent q f
unfolding gate consume_window
gate_spent q f h k i = ground arith

-- A rule with a window fires and counts, or stays silent.
gate_counts :
    (q : Request) (f : FaultRule)
    → 0 < f.times
    → Silent q f ⊎ ((i : ℕ) → count_of q (gate q f i).0 ≡ count_of q f + 1)
unfolding gate consume_window
gate_counts q f h =
    let key = window_key f.per q.scope q.idempotency_key q.inner_path in
    elim (Bool-cases (consume_window f.consumed f.times key).1) [
      | inl e ↦ inr (λ i. ground (
        arith,
        e,
        lookup-insert key key (or_zero (lookup key f.consumed) + 1) f.consumed,
        bytes_beq_iff key key,
      ))
      | inr e ↦ inl (λ i. ground (arith, e))
    ]

gate-kept :
    (q : Request) (f : FaultRule) (i : ℕ)
    → ((gate q f i).0.times ≡ f.times) × (concerns q (gate q f i).0 ≡ concerns q f)
unfolding gate concerns
gate-kept q f i = (ground arith, ground arith)

gate-Worn :
    (q : Request) (total n i : ℕ) (f : FaultRule)
    → concerns q f ≡ true
    → Worn q total n f
    → Worn q total (n + 1) (gate q f i).0
gate-Worn q total n i f c w e =
    let (pos_, few, s) = w c in
    let (t, k) = gate-kept q f i in
    (
      omega (arith, t, pos_),
      omega (arith, t, few),
      elim (gate_counts q f pos_) [
        | inl silent ↦ inl (λ j. rw (silent i, silent j) refl)
        | inr counts ↦ elim s [
          | inl silent ↦ inl (λ j. rw (silent i, silent j) refl)
          | inr many ↦ inr (omega (arith, counts i, many))
        ]
      ],
    )

evaluate_loop-Worn :
    (q : Request) (total n i : ℕ) (out : FaultOutcome) (fs : List FaultRule)
    → All (Worn q total n) fs
    → All (Worn q total (n + 1)) (evaluate_loop q i out fs).0
unfolding evaluate_loop
evaluate_loop-Worn q total n i out [] h = tt
evaluate_loop-Worn q total n i out (f ∷ fs) h =
    let c = concerns q f in
    let (g, fired) = gate q f i in
    (
      elim (Bool-cases c) [
        | inl e ↦ rw e (gate-Worn q total n i f e h.0)
        | inr e ↦ rw e (λ d. absurd (ground (arith, d, e)))
      ],
      evaluate_loop-Worn q total n (if c then i + 1 else i)
          (if c && fired then apply_rule q g i out else out) fs h.1,
    )

retried-Worn :
    (q : Request) (total n m : ℕ) (fs : List FaultRule)
    → All (Worn q total m) fs
    → All (Worn q total (m + n)) (retried q n fs)
unfolding retried evaluate_faults
retried-Worn q total zero m fs h = simp unary_clauses h
retried-Worn q total (suc n) m fs h =
    subst (λ k. All (Worn q total k) (retried q (suc n) fs)) (omega arith)
      (retried-Worn q total n (m + 1) (evaluate_faults q fs).0
        (evaluate_loop-Worn q total m 0 no_outcome fs h))

Worn-Silent :
    (q : Request) (n : ℕ) (f : FaultRule) → concerns q f ≡ true → Worn q n n f → Silent q f
Worn-Silent q n f c w =
    let (p, few, s) = w c in
    elim s [ inl silent ↦ silent | inr many ↦ gate_spent q f p (omega (arith, few, many)) ]

evaluate_loop-silent :
    (q : Request) (n i : ℕ) (out : FaultOutcome) (fs : List FaultRule)
    → All (Worn q n n) fs
    → evaluate_loop q i out fs ≡ (fs, out)
unfolding evaluate_loop
evaluate_loop-silent q n i out [] h = refl
evaluate_loop-silent q n i out (f ∷ fs) h = elim (Bool-cases (concerns q f)) [
  | inl e ↦ rw (e, Worn-Silent q n f e h.0 i) (rw (evaluate_loop-silent q n (i + 1) out fs h.1))
  | inr e ↦ rw e (rw (evaluate_loop-silent q n i out fs h.1))
]

-- Where every rule that concerns a request has a window of at most `n` requests, a client that sends
-- the request `n` times meets no fault with the next one: each rule has used its window up, or its map
-- of counters has no room for the request's key. The rules stay as they are from there on.
pub retry_recovers :
    (q : Request) (n : ℕ) (fs : List FaultRule)
    → All (λ f. concerns q f ≡ true → (0 < f.times) × (f.times ≤ n)) fs
    → evaluate_faults q (retried q n fs) ≡ (retried q n fs, no_outcome)
unfolding evaluate_faults
retry_recovers q n fs h =
    let start =
      All-mono (λ f. concerns q f ≡ true → (0 < f.times) × (f.times ≤ n)) (Worn q n 0)
        (λ f w c. ((w c).0, (w c).1, inr (omega arith))) fs h in
    rw (
      evaluate_loop-silent q n 0 no_outcome (retried q n fs) (
        subst (λ k. All (Worn q n k) (retried q n fs)) (omega arith)
          (retried-Worn q n n 0 fs start)))
