-- ===== src/Sandbox/Faults/Evaluate/Laws.antt =====
-- What the evaluation of the faults guarantees (internal/sandbox/faults.go, `evaluateFaults`).
use pikopod.Base.{
  ℕ, ◌+◌, ◌≡◌, refl, ap, ◌∙◌, Bool, true, false, ◌&&◌, Option, none, some, List, [], ◌∷◌, arith,
  if◌then◌else◌, map, or_else, bytes_eq,
}
use pikopod.Base.Int.{ℤ, ◌≤ℤ◌}
use pikopod.Sandbox.Faults.{FaultKind, FaultRule, error}
use pikopod.Sandbox.Faults.Evaluate.{
  RawResponse, FaultOutcome, Request, no_outcome, max_fault_delay_ms, concerns, gate, apply_rule,
  evaluate_loop, evaluate_faults, clamp, error_response,
}

-- No request is held or delayed for more than a minute, whatever faults are armed.
pub evaluate_bounded :
    (q : Request) (fs : List FaultRule)
    → ((evaluate_faults q fs).1.delay_ms ≤ℤ max_fault_delay_ms)
      × ((evaluate_faults q fs).1.hang_ms ≤ℤ max_fault_delay_ms)
      × ((evaluate_faults q fs).1.slow_body_ms ≤ℤ max_fault_delay_ms)
unfolding evaluate_faults
evaluate_bounded q fs =
    let out = (evaluate_loop q 0 no_outcome fs).1 in
    (clamp_le out.delay_ms, clamp_le out.hang_ms, clamp_le out.slow_body_ms)
  where
    clamp_le : (v : ℤ) → clamp v ≤ℤ max_fault_delay_ms
    clamp_le v = ground arith

-- The rules that fire for a request, in order, each with its place among those that concern it.
pub fired_rules : Request → ℕ → List FaultRule → List (FaultRule × ℕ)
fired_rules q i [] = []
fired_rules q i (f ∷ fs) =
    let c = concerns q f in
    let rest = fired_rules q (if c then i + 1 else i) fs in
    if c && (gate q f i).1 then ((gate q f i).0, i) ∷ rest else rest

pub apply_all : Request → FaultOutcome → List (FaultRule × ℕ) → FaultOutcome
apply_all q out [] = out
apply_all q out ((f, i) ∷ l) = apply_all q (apply_rule q f i out) l

evaluate_loop-fired :
    (q : Request) (i : ℕ) (out : FaultOutcome) (fs : List FaultRule)
    → (evaluate_loop q i out fs).1 ≡ apply_all q out (fired_rules q i fs)
unfolding evaluate_loop fired_rules apply_all
evaluate_loop-fired q i out [] = refl
evaluate_loop-fired q i out (f ∷ fs) =
    let c = concerns q f in
    let (g, fired) = gate q f i in
    ground (
      arith,
      evaluate_loop-fired q (if c then i + 1 else i)
          (if c && fired then apply_rule q g i out else out) fs,
    )

abbrev pub is_error : FaultKind → Bool
is_error error = true
is_error _ = false

-- The response of the first `error` fault of a list.
pub first_error : Request → List (FaultRule × ℕ) → Option RawResponse
first_error q [] = none
first_error q ((f, i) ∷ l) =
    let rest = first_error q l in if is_error f.kind then some (error_response q f) else rest

apply_rule-err :
    (q : Request) (f : FaultRule) (i : ℕ) (out : FaultOutcome)
    → (apply_rule q f i out).err_resp
      ≡ or_else out.err_resp (if is_error f.kind then some (error_response q f) else none)
unfolding apply_rule
apply_rule-err q f i out = ground arith

apply_all-err :
    (q : Request) (out : FaultOutcome) (l : List (FaultRule × ℕ))
    → (apply_all q out l).err_resp ≡ or_else out.err_resp (first_error q l)
unfolding apply_all first_error
apply_all-err q out [] = ground arith
apply_all-err q out ((f, i) ∷ l) =
    ground (arith, apply_all-err q (apply_rule q f i out) l, apply_rule-err q f i out)

-- Of the faults that fire, the first `error` fault gives the response, with its status (500 where
-- none is set) and its body or the spec's example; later ones add nothing to it, and without one
-- there is no error response.
pub evaluate_first_error :
    (q : Request) (fs : List FaultRule)
    → (evaluate_faults q fs).1.err_resp ≡ first_error q (fired_rules q 0 fs)
unfolding evaluate_faults
evaluate_first_error q fs =
    ap (λ (o : FaultOutcome). o.err_resp) (evaluate_loop-fired q 0 no_outcome fs)
    ∙ apply_all-err q no_outcome (fired_rules q 0 fs)

-- A rule without its counters.
abbrev pub uncounted : FaultRule → FaultRule
uncounted f = record f { consumed = [] }

gate-uncounted : (q : Request) (f : FaultRule) (i : ℕ) → uncounted (gate q f i).0 ≡ uncounted f
unfolding gate
gate-uncounted q f i = ground arith

-- A request changes nothing of the armed rules but the counters of their windows.
pub evaluate_keeps_rules :
    (q : Request) (i : ℕ) (out : FaultOutcome) (fs : List FaultRule)
    → map uncounted (evaluate_loop q i out fs).0 ≡ map uncounted fs
unfolding evaluate_loop
evaluate_keeps_rules q i out [] = refl
evaluate_keeps_rules q i out (f ∷ fs) =
    let c = concerns q f in
    let (g, fired) = gate q f i in
    ground (
      arith,
      evaluate_keeps_rules q (if c then i + 1 else i)
          (if c && fired then apply_rule q g i out else out) fs,
      gate-uncounted q f i,
    )
