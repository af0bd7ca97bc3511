-- ===== src/Alert/Ceiling.antt =====
-- The hourly ceiling on deliveries and the bound of the queue (internal/alert/alert.go, `emit` and
-- `deliver`).
use pikopod.Base.{
  ℕ, ◌+◌, ◌-◌, ◌≤◌, ◌≡◌, sym, Bool, true, false, List, [], ◌∷◌, ◌++◌, arith, if◌then◌else◌, length,
  length-append, bytes_eq, subst,
}
use pikopod.Alert.{
  Alerter, DriftEvent, DeliveryItem, Message, alert, ceiling, deliver, persist, rate_limit,
  note_event, emit, hour, max_deliveries_per_hour, delivery_queue,
}
use pikopod.Base.Time.{longer}

-- The messages of the queue that count as alerts.
abbrev pub alerts_in : List DeliveryItem → ℕ
alerts_in [] = 0
alerts_in (i ∷ q) = (if i.counts_as_alert then 1 else 0) + alerts_in q

alerts_in-append : (p q : List DeliveryItem) → alerts_in (p ++ q) ≡ alerts_in p + alerts_in q
alerts_in-append [] q = ground arith
alerts_in-append (i ∷ p) q = ground (arith, alerts_in-append p q)

-- Events that are raised one after the other, each with its time.
abbrev pub emit_all : Alerter → List (DriftEvent × ℕ) → Alerter
emit_all a [] = a
emit_all a ((ev, now) ∷ evs) = emit_all (emit a ev now) evs

abbrev pub AllWithin : ℕ → List (DriftEvent × ℕ) → Type 0
AllWithin start [] = Unit
AllWithin start ((ev, now) ∷ evs) = (longer now start hour ≡ false) × AllWithin start evs

deliver-alerts :
    (a : Alerter) (t : Message) (c : Bool)
    → (alerts_in (deliver a t c).queue ≤ alerts_in a.queue + (if c then 1 else 0))
      × ((deliver a t c).delivery_window_start ≡ a.delivery_window_start)
      × ((deliver a t c).delivery_window_count ≡ a.delivery_window_count)
      × (length a.queue ≤ delivery_queue → length (deliver a t c).queue ≤ delivery_queue)
unfolding deliver
deliver-alerts a t c =
    let q : List DeliveryItem = record { text = t; counts_as_alert = c } ∷ [] in
    (
      ground (arith, alerts_in-append a.queue q),
      ground arith,
      ground arith,
      ground (arith, length-append a.queue q),
    )

rate_limit-budget :
    (a : Alerter) (ev : DriftEvent) (now : ℕ)
    → longer now a.delivery_window_start hour ≡ false
    → (alerts_in (rate_limit a ev now).queue
          + (max_deliveries_per_hour - (rate_limit a ev now).delivery_window_count)
        ≤ alerts_in a.queue + (max_deliveries_per_hour - a.delivery_window_count))
      × ((rate_limit a ev now).delivery_window_start ≡ a.delivery_window_start)
unfolding rate_limit persist
rate_limit-budget a ev now w =
    let b : Alerter = record a {
      delivery_window_count = a.delivery_window_count + 1;
      persisted = a.states;
    } in
    rw w (
      ground (arith, deliver-alerts b (alert ev) true, deliver-alerts b ceiling false),
      ground (arith, deliver-alerts b (alert ev) true, deliver-alerts b ceiling false),
    )

emit-budget :
    (a : Alerter) (ev : DriftEvent) (now : ℕ)
    → longer now a.delivery_window_start hour ≡ false
    → (alerts_in (emit a ev now).queue
          + (max_deliveries_per_hour - (emit a ev now).delivery_window_count)
        ≤ alerts_in a.queue + (max_deliveries_per_hour - a.delivery_window_count))
      × ((emit a ev now).delivery_window_start ≡ a.delivery_window_start)
unfolding emit note_event persist
emit-budget a ev now w =
    let h = rate_limit-budget (note_event a ev) ev now w in (ground (arith, h), ground (arith, h))

emit-queue :
    (a : Alerter) (ev : DriftEvent) (now : ℕ)
    → length a.queue ≤ delivery_queue
    → length (emit a ev now).queue ≤ delivery_queue
unfolding emit note_event rate_limit persist deliver
emit-queue a ev now h = ground (
  arith,
  length-append a.queue (record { text = alert ev; counts_as_alert = true } ∷ []),
  length-append a.queue (record { text = ceiling; counts_as_alert = false } ∷ []),
)

-- Of the events that are raised in an hour from the start of the delivery window, at most as many
-- are queued as alerts as the window still has of its 60; and the queue never holds more than 256
-- messages.
pub emit_all_ceiling :
    (a : Alerter) (evs : List (DriftEvent × ℕ))
    → AllWithin a.delivery_window_start evs
    → length a.queue ≤ delivery_queue
    → (alerts_in (emit_all a evs).queue
        ≤ alerts_in a.queue + (max_deliveries_per_hour - a.delivery_window_count))
      × (length (emit_all a evs).queue ≤ delivery_queue)
emit_all_ceiling a [] w h = (omega arith, h)
emit_all_ceiling a ((ev, now) ∷ evs) w h =
    let (budget, start) = emit-budget a ev now w.0 in
    let rest =
      emit_all_ceiling (emit a ev now) evs (subst (λ s. AllWithin s evs) (sym start) w.1)
        (emit-queue a ev now h) in
    (omega (arith, budget, rest.0), rest.1)
