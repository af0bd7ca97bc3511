-- ===== src/Sandbox/Faults.antt =====
-- internal/sandbox/faults.go: the armed faults, and webhooks.go: what they do to a delivery
-- (`emitThroughFaults`). `Probability` and `Delay` of a rule are read by `faultFires` and
-- `DelayDistribution.sample` only, which work on floats: `Faults.Evaluate` takes both as arguments,
-- and the rule here has no field for them.
pub mod Clear
pub mod Emit
pub mod Paths
pub mod Evaluate
use pikopod.Base.{
  ℕ, zero, suc, ◌+◌, ◌-◌, Bool, true, false, not, ◌&&◌, ◌||◌, Option, none, some, List, [], ◌∷◌,
  ◌++◌, ◌==◌, nat_beq, ltb, leb, if◌then◌else◌, length, bytes_eq,
}
use pikopod.Base.Int.{ℤ, pos, negsuc, pos_part}
use pikopod.Base.Map.{Map}
use pikopod.Base.Bytes.{Bytes}
use pikopod.Sandbox.Deliveries.{WebhookDelivery, Outbox, append_delivery, append_all}

-- The kinds of `faultKinds`; any other text is `unknown`.
pub data FaultKind : Type 0 where
  error latency hang slow_body rate_limit : FaultKind
  connection_reset malformed_response empty_response random_data_then_close : FaultKind
  wrong_content_length : FaultKind
  duplicate_webhook drop_webhook reorder_webhook delay_webhook : FaultKind
  unknown : Bytes → FaultKind

pub record FaultRule : Type 0 where
  pub method : Bytes
  pub path : Bytes
  pub kind : FaultKind
  pub status : ℕ
  pub delay_ms : ℤ
  pub id : Bytes
  pub event : Bytes
  pub wallclock : Bool
  pub times : ℕ
  pub per : Bytes
  pub body : Bytes
  pub headers : Map Bytes Bytes
  pub consumed : Map Bytes ℕ
  pub held : Option WebhookDelivery

unfoldable pub is_webhook_fault_kind : FaultKind → Bool
is_webhook_fault_kind duplicate_webhook = true
is_webhook_fault_kind drop_webhook = true
is_webhook_fault_kind reorder_webhook = true
is_webhook_fault_kind delay_webhook = true
is_webhook_fault_kind _ = false

unfoldable pub valid_fault_kind : FaultKind → Bool
valid_fault_kind (unknown _) = false
valid_fault_kind _ = true

-- `ResolveFaultKind`
unfoldable pub resolve_fault_kind : FaultKind → ℕ → FaultKind × ℕ
resolve_fault_kind rate_limit status = (error, 429)
resolve_fault_kind error status = (error, if nat_beq status 0 then 500 else status)
resolve_fault_kind kind status = (kind, status)

-- `ArmFault`
unfoldable pub arm_fault : List FaultRule → FaultRule → List FaultRule
arm_fault faults f = faults ++ f ∷ []

abbrev pub clears : Bytes → Bytes → FaultRule → Bool
clears method path f =
    ((method == []) || (f.method == method)) && ((path == []) || (f.path == path))

abbrev pub and_held : Option WebhookDelivery → List WebhookDelivery → List WebhookDelivery
and_held none release = release
and_held (some d) release = release ++ d ∷ []

-- The loop of `ClearFaults`: what it keeps, how many it removes, the deliveries it releases.
unfoldable pub clear_loop :
    Bytes
    → Bytes
    → List FaultRule
    → List FaultRule
    → ℕ
    → List WebhookDelivery
    → List FaultRule × ℕ × List WebhookDelivery
clear_loop method path [] kept removed release = (kept, removed, release)
clear_loop method path (f ∷ fs) kept removed release =
    let match = clears method path f in
    clear_loop method path fs (if match then kept else kept ++ f ∷ [])
      (if match then removed + 1 else removed) (if match then and_held f.held release else release)

-- `ClearFaults`: the faults left, the outbox after the release, and the number removed.
unfoldable pub clear_faults : List FaultRule → Outbox → Bytes → Bytes → List FaultRule × Outbox × ℕ
unfolding clear_loop append_all
clear_faults faults o method path =
    let (kept, removed, release) = clear_loop method path faults [] 0 [] in
    (kept, append_all o release, removed)

abbrev pub default_webhook_delay : ℤ → ℕ
default_webhook_delay (pos zero) = 30000
default_webhook_delay (pos (suc n)) = suc n
default_webhook_delay (negsuc n) = 30000

-- What the first fault that applies does to the delivery `d`: the faults from it on, the deliveries
-- to emit, and the sequence counter.
unfoldable pub act :
    FaultKind
    → FaultRule
    → List FaultRule
    → WebhookDelivery
    → ℕ
    → List FaultRule × List WebhookDelivery × ℕ
act duplicate_webhook f fs d seq = (fs, d ∷ record d { seq = seq + 1 } ∷ [], seq + 1)
act drop_webhook f fs d seq = (fs, [], seq)
act delay_webhook f fs d seq =
    (fs, record d { due_ms = d.virtual_time_ms + default_webhook_delay f.delay_ms } ∷ [], seq)
act reorder_webhook f fs d seq = elim f.held [
  | none ↦ (record f { held = some d } ∷ fs, [], seq)
  | some h ↦ (fs, d ∷ h ∷ [], seq)
]
act _ f fs d seq = (f ∷ fs, d ∷ [], seq)

abbrev pub applies_to : FaultRule → WebhookDelivery → Bool
applies_to f d = is_webhook_fault_kind f.kind && ((f.event == []) || (f.event == d.event))

-- The loop of `emitThroughFaults`, which stops at the first fault that applies.
unfoldable pub emit_loop :
    List FaultRule → WebhookDelivery → ℕ → List FaultRule × List WebhookDelivery × ℕ
unfolding act is_webhook_fault_kind
emit_loop [] d seq = ([], d ∷ [], seq)
emit_loop (f ∷ fs) d seq =
    let rest = emit_loop fs d seq in
    if applies_to f d then act f.kind f fs d seq else (f ∷ rest.0, rest.1, rest.2)

pub record EmitState : Type 0 where
  pub faults : List FaultRule
  pub webhook_seq : ℕ
  pub outbox : Outbox

-- `emitThroughFaults`
unfoldable pub emit_through_faults : EmitState → WebhookDelivery → EmitState
unfolding emit_loop append_all
emit_through_faults s d =
    let (faults, emit, seq) = emit_loop s.faults d s.webhook_seq in
    record { faults = faults; webhook_seq = seq; outbox = append_all s.outbox emit }
