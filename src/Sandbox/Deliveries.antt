-- ===== src/Sandbox/Deliveries.antt =====
-- internal/sandbox/webhooks.go: the log of webhook deliveries and the queue of the sink. The virtual
-- clock and the times on a delivery are milliseconds since the Unix epoch, never negative.
pub mod Log
use pikopod.Base.{
  ℕ, suc, ◌+◌, ◌-◌, Bool, true, false, not, ◌&&◌, ◌||◌, Option, none, some, List, [], ◌∷◌, ◌++◌,
  ◌==◌, nat_beq, ltb, leb, max, if◌then◌else◌, length, drop, keep_last, filter_by, bytes_eq, map,
}
use pikopod.Base.Bytes.{Bytes}

abbrev pub max_webhook_log : ℕ
max_webhook_log = 1000

abbrev pub webhook_sink_queue : ℕ
webhook_sink_queue = 256

pub record WebhookDelivery : Type 0 where
  pub id : Bytes
  pub event : Bytes
  pub seq : ℕ
  pub virtual_time_ms : ℕ
  pub due_ms : ℕ
  pub payload : Bytes
  pub signature : Bytes

-- `sinkCh` with what its buffer holds, and the counters beside it.
pub record Sink : Type 0 where
  pub queue : List WebhookDelivery
  pub closed : Bool
  pub dropped : ℕ

pub record Outbox : Type 0 where
  pub webhook_log : List WebhookDelivery
  pub sink : Option Sink

-- The `select` with its `default`: a full queue drops the delivery.
unfoldable pub offer : Sink → WebhookDelivery → Sink
offer s d =
    if s.closed
    then record s { dropped = s.dropped + 1 }
    else if ltb (length s.queue) webhook_sink_queue
    then record s { queue = s.queue ++ d ∷ [] }
    else record s { dropped = s.dropped + 1 }

unfoldable pub append_delivery : Outbox → WebhookDelivery → Outbox
unfolding offer
append_delivery o d =
    let log = o.webhook_log ++ d ∷ [] in
    record {
      webhook_log = if ltb max_webhook_log (length log) then keep_last max_webhook_log log else log;
      sink = elim o.sink [ none ↦ none | some s ↦ some (offer s d) ];
    }

unfoldable pub append_all : Outbox → List WebhookDelivery → Outbox
unfolding append_delivery
append_all o [] = o
append_all o (d ∷ ds) = append_all (append_delivery o d) ds

-- `Deliveries`
unfoldable pub deliveries : Outbox → Bytes → List WebhookDelivery
deliveries o event_filter =
    filter_by (λ d. (event_filter == []) || (d.event == event_filter)) o.webhook_log

abbrev pub due_of : WebhookDelivery → ℕ
due_of d = if nat_beq d.due_ms 0 then d.virtual_time_ms else d.due_ms

abbrev skipped : Bytes → ℕ → WebhookDelivery → Bool
skipped event_filter horizon d =
    (not (event_filter == []) && not (d.event == event_filter)) || ltb horizon (due_of d)

-- The loop of `DeliveriesDueBy`, with its two results.
unfoldable pub due_loop :
    Bytes → ℕ → List WebhookDelivery → List WebhookDelivery → ℕ → List WebhookDelivery × ℕ
due_loop event_filter horizon [] out last = (out, last)
due_loop event_filter horizon (d ∷ ds) out last =
    let skip = skipped event_filter horizon d in
    due_loop event_filter horizon ds (if skip then out else out ++ d ∷ [])
      (if skip then last else if ltb last (due_of d) then due_of d else last)

unfoldable pub deliveries_due_by : Outbox → Bytes → ℕ → List WebhookDelivery × ℕ
unfolding due_loop
deliveries_due_by o event_filter horizon = due_loop event_filter horizon o.webhook_log [] 0
