-- ===== src/Webhooks.antt =====
-- internal/agent/webhooks.go: deliveries of webhooks that arrive twice or out of order. An event time
-- that is not positive is 0. The readings of the clock in one call are one, and the part under the
-- mutex is one step. The fingerprint of a finding, a SHA-256, is a parameter.
pub mod Order
pub mod Dedupe
pub mod Watermark
use pikopod.Base.{
  ℕ, ◌+◌, ◌-◌, Bool, true, false, not, ◌&&◌, ◌||◌, Option, none, some, List, [], ◌∷◌, ◌++◌, ◌==◌,
  nat_beq, leb, ltb, if◌then◌else◌, length, bytes_eq,
}
use pikopod.Base.Map.{Map, lookup, insert, delete}
use pikopod.Base.Bytes.{Bytes, codes}
use pikopod.Drift.{Finding, Kind, webhook_duplicate, webhook_out_of_order}
use pikopod.Alert.{Alerter, DriftEvent, Level, warn, err}
use pikopod.Base.Time.{elapsed}
use pikopod.Alert.Report.{report_first}

abbrev pub webhook_dedupe_window : ℕ
webhook_dedupe_window = 86400000000000

abbrev pub webhook_max_tracked : ℕ
webhook_max_tracked = 4096

pub record Delivery : Type 0 where
  pub id : Bytes
  pub event : Bytes
  pub resource : Bytes
  pub event_ts : ℕ
  pub index : ℕ

pub record WebhookState : Type 0 where
  pub seen : Map Bytes ℕ
  pub order : List Bytes
  pub last_ts : Map Bytes ℕ
  pub by_res : List Bytes

abbrev pub new_webhook_state : WebhookState
new_webhook_state = record { seen = []; order = []; last_ts = []; by_res = [] }

-- A key that is new goes to the end of the order, the first one out when there are too many, and gets
-- its value.
unfoldable pub admit : Bytes → ℕ → List Bytes → Map Bytes ℕ → List Bytes × Map Bytes ℕ
unfolding insert delete
admit k v [] m = (k ∷ [], insert k v m)
admit k v (first ∷ order) m =
    if ltb webhook_max_tracked (length (first ∷ order ++ k ∷ []))
    then (order ++ k ∷ [], insert k v (delete first m))
    else (first ∷ order ++ k ∷ [], insert k v m)

-- The test of the delivery's id: the state after it, and whether it is a duplicate.
unfoldable pub observe_id : Bytes → ℕ → WebhookState → WebhookState × Bool
unfolding lookup insert admit
observe_id id now st =
    let entered = admit id now st.order st.seen in
    if id == [] then (st, false) else elim (lookup id st.seen) [
      | none ↦ (record st { order = entered.0; seen = entered.1 }, false)
      | some first ↦
          if leb (elapsed now first) webhook_dedupe_window
          then (st, true)
          else (record st { seen = insert id now st.seen }, false)
    ]

-- The test of the event's time: the state after it, and whether it is out of order.
unfoldable pub observe_resource : Bytes → ℕ → WebhookState → WebhookState × Bool
unfolding lookup insert admit
observe_resource resource ts st =
    let entered = admit resource ts st.by_res st.last_ts in
    if (resource == []) || nat_beq ts 0 then (st, false) else elim (lookup resource st.last_ts) [
      | none ↦ (record st { by_res = entered.0; last_ts = entered.1 }, false)
      | some last ↦
          if ltb ts last
          then (st, true)
          else if ltb last ts
          then (record st { last_ts = insert resource ts st.last_ts }, false)
          else (st, false)
    ]

-- Both, with the two verdicts: a duplicate, and out of order.
unfoldable pub observe : Delivery → ℕ → WebhookState → WebhookState × (Bool × Bool)
unfolding observe_id observe_resource
observe d now st =
    let (s, duplicate) = observe_id d.id now st in
    let (s', late) = observe_resource d.resource d.event_ts s in (s', (duplicate, late))

pub record Agent : Type 0 where
  pub webhooks : Map Bytes WebhookState
  pub events_emitted : ℕ
  pub alerter : Alerter

abbrev pub or_new : Option WebhookState → WebhookState
or_new none = new_webhook_state
or_new (some st) = st

module _ (fingerprint : Finding → Bytes) where
  -- `webhookIncident`
  unfoldable pub webhook_incident : Agent → Bytes → Delivery → Kind → Level → Bytes → ℕ → Agent
  unfolding report_first
  webhook_incident a upstream d kind level detail now =
      let template = codes "/hooks/" ++ upstream in
      let f : Finding = record {
        upstream = upstream;
        method = codes "POST";
        template = template;
        status_class = [];
        kind = kind;
        field = d.event;
        before = [];
        after = [];
        note = [];
        documented = false;
      } in
      let ev : DriftEvent = record {
        fingerprint = [];
        upstream = [];
        method = codes "POST";
        endpoint = template;
        status_class = [];
        kind = kind;
        field = d.event;
        before = [];
        after = [];
        first_seen = 0;
        last_seen = 0;
        occurrences = 0;
        source = [];
        level = level;
        detail = detail;
        note = [];
        category = [];
      } in
      record a {
        events_emitted = a.events_emitted + 1;
        alerter = report_first a.alerter upstream (fingerprint f) ev [] now;
      }

  -- `observeDelivery` for a record of `upstream`
  unfoldable pub observe_delivery : Agent → Bytes → Option Delivery → ℕ → Agent
  unfolding observe webhook_incident lookup insert
  observe_delivery a upstream none now = a
  observe_delivery a upstream (some d) now =
      let (st, (duplicate, late)) = observe d now (or_new (lookup upstream a.webhooks)) in
      let b = record a { webhooks = insert upstream st a.webhooks } in
      let c =
        if duplicate
        then webhook_incident b upstream d webhook_duplicate warn
            (codes "the same delivery id arrived twice within 24h") now
        else b in
      if late
      then webhook_incident c upstream d webhook_out_of_order err
          (codes "an older event for a resource arrived after a newer one") now
      else c
