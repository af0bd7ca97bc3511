-- ===== src/Sandbox/Deliveries/Log.antt =====
-- The delivery log is bounded, and `DeliveriesDueBy` selects by due time
-- (internal/sandbox/webhooks.go).
use pikopod.Base.{
  ℕ, ◌-◌, ◌≤◌, ◌≡◌, sym, ap, Bool, not, Option, none, some, List, [], ◌∷◌, ◌++◌, arith, ltb, max,
  if◌then◌else◌, length, filter_by, length-append, length-drop,
}
use mathlib.Core.List.{append_assoc, append-nil}
use pikopod.Base.Bytes.{Bytes}
use pikopod.Sandbox.Deliveries.{
  WebhookDelivery, Outbox, Sink, append_delivery, append_all, offer, deliveries_due_by, due_loop,
  due_of, skipped, max_webhook_log, webhook_sink_queue,
}

abbrev SinkFits : Option Sink → Type 0
SinkFits none = Unit
SinkFits (some s) = length s.queue ≤ webhook_sink_queue

pub record Fits (o : Outbox) : Type 0 where
  pub log_fits : length o.webhook_log ≤ max_webhook_log
  pub sink_fits : SinkFits o.sink

append_delivery-Fits : (o : Outbox) (d : WebhookDelivery) → Fits o → Fits (append_delivery o d)
unfolding append_delivery
append_delivery-Fits o d h =
    let log = o.webhook_log ++ d ∷ [] in
    record {
      log_fits = ground (
        arith,
        h.log_fits,
        length-append o.webhook_log (d ∷ []),
        length-drop (length log - max_webhook_log) log,
      );
      sink_fits = sink_case o.sink h.sink_fits;
    }
  where
    sink_case :
        (s : Option Sink)
        → SinkFits s
        → SinkFits (elim s [ none ↦ none | some t ↦ some (offer t d) ])
    sink_case none k = tt
    sink_case (some t) k = ground (arith, length-append t.queue (d ∷ []))

-- Whatever is delivered, the log keeps at most 1000 deliveries and the sink's queue at most 256.
pub append_all-Fits : (o : Outbox) (ds : List WebhookDelivery) → Fits o → Fits (append_all o ds)
unfolding append_all
append_all-Fits o [] h = h
append_all-Fits o (d ∷ ds) h = append_all-Fits (append_delivery o d) ds (append_delivery-Fits o d h)

-- The latest due time in a list.
abbrev pub latest : List WebhookDelivery → ℕ
latest [] = 0
latest (d ∷ ds) = max (due_of d) (latest ds)

abbrev pub selects : Bytes → ℕ → WebhookDelivery → Bool
selects event_filter horizon d = not (skipped event_filter horizon d)

due_loop-out :
    (event_filter : Bytes) (horizon : ℕ) (ds out : List WebhookDelivery) (last : ℕ)
    → (due_loop event_filter horizon ds out last).0
      ≡ out ++ filter_by (selects event_filter horizon) ds
unfolding due_loop
due_loop-out event_filter horizon [] out last = sym (append-nil out)
due_loop-out event_filter horizon (d ∷ ds) out last =
    let p = selects event_filter horizon in
    let later = if ltb last (due_of d) then due_of d else last in
    ground (
      arith,
      due_loop-out event_filter horizon ds out last,
      due_loop-out event_filter horizon ds (out ++ d ∷ []) later,
      append_assoc out (d ∷ []) (filter_by p ds),
    )

due_loop-last :
    (event_filter : Bytes) (horizon : ℕ) (ds out : List WebhookDelivery) (last : ℕ)
    → (due_loop event_filter horizon ds out last).1
      ≡ max last (latest (filter_by (selects event_filter horizon) ds))
unfolding due_loop
due_loop-last event_filter horizon [] out last = omega arith
due_loop-last event_filter horizon (d ∷ ds) out last =
    let later = if ltb last (due_of d) then due_of d else last in
    ground (
      arith,
      due_loop-last event_filter horizon ds out last,
      due_loop-last event_filter horizon ds (out ++ d ∷ []) later,
    )

due_within :
    (event_filter : Bytes) (horizon : ℕ) (ds : List WebhookDelivery)
    → latest (filter_by (selects event_filter horizon) ds) ≤ horizon
due_within event_filter horizon [] = omega arith
due_within event_filter horizon (d ∷ ds) = ground (arith, due_within event_filter horizon ds)

-- `DeliveriesDueBy` answers with the deliveries of the log, in order, that the event filter lets
-- through and that are due by the horizon; the arrival time beside them is the latest of their due
-- times (0 for none), which is no later than the horizon.
pub deliveries_due_by_lem :
    (o : Outbox) (event_filter : Bytes) (horizon : ℕ)
    → ((deliveries_due_by o event_filter horizon).0
        ≡ filter_by (selects event_filter horizon) o.webhook_log)
      × ((deliveries_due_by o event_filter horizon).1
          ≡ latest (deliveries_due_by o event_filter horizon).0)
      × ((deliveries_due_by o event_filter horizon).1 ≤ horizon)
unfolding deliveries_due_by
deliveries_due_by_lem o event_filter horizon =
    let out = due_loop-out event_filter horizon o.webhook_log [] 0 in
    let last = due_loop-last event_filter horizon o.webhook_log [] 0 in
    let same = ap latest out in
    (
      out,
      omega (arith, last, same),
      omega (arith, last, due_within event_filter horizon o.webhook_log),
    )
