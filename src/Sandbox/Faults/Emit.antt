-- ===== src/Sandbox/Faults/Emit.antt =====
-- Webhook deliveries through the armed faults (internal/sandbox/webhooks.go, `emitThroughFaults`).
use pikopod.Base.{
  ℕ, ◌+◌, ◌≡◌, ◌≢◌, refl, sym, inl, inr, Bool-cases, true, false, Option, none, some, List, [], ◌∷◌,
  ◌++◌, arith, if◌then◌else◌, All,
}
use pikopod.Sandbox.Deliveries.{WebhookDelivery}
use pikopod.Sandbox.Faults.{
  FaultKind, FaultRule, duplicate_webhook, drop_webhook, reorder_webhook, delay_webhook, applies_to,
  act, emit_loop, is_webhook_fault_kind,
}
use pikopod.Sandbox.Faults.Clear.{held_all, tally}

-- The kind of the fault that acts on a delivery, if one does.
abbrev pub acting : List FaultRule → WebhookDelivery → Option FaultKind
acting [] d = none
acting (f ∷ fs) d = let rest = acting fs d in if applies_to f d then some f.kind else rest

-- Only a reorder fault holds a delivery back.
abbrev pub HoldsInOrder : FaultRule → Type 0
HoldsInOrder f = f.kind ≢ reorder_webhook → f.held ≡ none

-- What an acting fault adds to the deliveries, and what it takes away.
abbrev pub copies : Option FaultKind → ℕ → WebhookDelivery → ℕ → ℕ
copies (some duplicate_webhook) n d seq = tally n (d ∷ record d { seq = seq + 1 } ∷ [])
copies (some drop_webhook) n d seq = 0
copies _ n d seq = tally n (d ∷ [])

act-conserves :
    (n : ℕ) (f : FaultRule) (fs : List FaultRule) (d : WebhookDelivery) (seq : ℕ)
    → HoldsInOrder f
    → is_webhook_fault_kind f.kind ≡ true
    → tally n (act f.kind f fs d seq).1 + tally n (held_all (act f.kind f fs d seq).0)
      ≡ copies (some f.kind) n d seq + tally n (held_all (f ∷ fs))
unfolding act is_webhook_fault_kind
act-conserves n f fs d seq h w = ground arith

-- Where only reorder faults hold deliveries, passing a delivery through the faults loses nothing and
-- invents nothing: what is emitted or held afterwards is what was held before and the delivery
-- itself, but a drop fault takes it away and a duplicate fault adds one copy with a fresh number.
pub emit_conserves :
    (n : ℕ) (fs : List FaultRule) (d : WebhookDelivery) (seq : ℕ)
    → All HoldsInOrder fs
    → tally n (emit_loop fs d seq).1 + tally n (held_all (emit_loop fs d seq).0)
      ≡ copies (acting fs d) n d seq + tally n (held_all fs)
unfolding emit_loop
emit_conserves n [] d seq h = ground arith
emit_conserves n (f ∷ fs) d seq h =
    ground (arith, emit_conserves n fs d seq h.1, act-conserves n f fs d seq h.0)

act-HoldsInOrder :
    (f : FaultRule) (fs : List FaultRule) (d : WebhookDelivery) (seq : ℕ)
    → HoldsInOrder f
    → All HoldsInOrder fs
    → (k : FaultKind) → k ≡ f.kind
    → All HoldsInOrder (act k f fs d seq).0
unfolding act
act-HoldsInOrder f fs d seq h hs duplicate_webhook e = hs
act-HoldsInOrder f fs d seq h hs drop_webhook e = hs
act-HoldsInOrder f fs d seq h hs delay_webhook e = hs
act-HoldsInOrder f fs d seq h hs reorder_webhook e =
    elim f.held
      as (λ held.
        All HoldsInOrder
          (elim held as (λ _. List FaultRule × List WebhookDelivery × ℕ) [
            | none ↦ (record f { held = some d } ∷ fs, [], seq)
            | some x ↦ (fs, d ∷ x ∷ [], seq)
          ]).0) [ none ↦ ((λ ne. absurd (ne (sym e))), hs) | some x ↦ hs ]
act-HoldsInOrder f fs d seq h hs _ e = (h, hs)

-- Passing a delivery through the faults keeps that only reorder faults hold deliveries.
pub emit_loop-HoldsInOrder :
    (fs : List FaultRule) (d : WebhookDelivery) (seq : ℕ)
    → All HoldsInOrder fs
    → All HoldsInOrder (emit_loop fs d seq).0
unfolding emit_loop
emit_loop-HoldsInOrder [] d seq h = h
emit_loop-HoldsInOrder (f ∷ fs) d seq h = elim (Bool-cases (applies_to f d)) [
  | inl on ↦ rw on (act-HoldsInOrder f fs d seq h.0 h.1 f.kind refl)
  | inr off ↦ rw off (h.0, emit_loop-HoldsInOrder fs d seq h.1)
]

-- The first of two deliveries that a fresh reorder fault applies to is held back and nothing is
-- sent; the second is sent first, the held one after it, and the fault is gone. Faults before it
-- apply to neither delivery; those after it are not reached.
pub reorder_swaps :
    (pre post : List FaultRule) (f : FaultRule) (d1 d2 : WebhookDelivery) (seq : ℕ)
    → f.kind ≡ reorder_webhook
    → f.held ≡ none
    → applies_to f d1 ≡ true
    → applies_to f d2 ≡ true
    → All (λ g. applies_to g d1 ≡ false) pre
    → All (λ g. applies_to g d2 ≡ false) pre
    → (emit_loop (pre ++ f ∷ post) d1 seq ≡ (pre ++ record f { held = some d1 } ∷ post, [], seq))
      × (emit_loop (pre ++ record f { held = some d1 } ∷ post) d2 seq
          ≡ (pre ++ post, d2 ∷ d1 ∷ [], seq))
unfolding emit_loop
reorder_swaps [] post f d1 d2 seq k e a1 a2 h1 h2 =
    (unfold act in ground arith, unfold act in ground arith)
reorder_swaps (g ∷ pre) post f d1 d2 seq k e a1 a2 h1 h2 =
    let (one, two) = reorder_swaps pre post f d1 d2 seq k e a1 a2 h1.1 h2.1 in
    (ground (arith, one, h1.0), ground (arith, two, h2.0))
