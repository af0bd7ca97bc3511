-- ===== src/Alert.antt =====
-- internal/alert/alert.go: which drifts are reported, once each, and how often. A time is a number of
-- nanoseconds since Go's zero time, which 0 stands for. The texts that are delivered are values of
-- `Message`; the goroutine that takes them from the queue is the step `deliver_sync`. The mutex makes
-- each section under it one step, and each method here is one caller's sections in a row.
pub mod Report
pub mod Once
pub mod Ceiling
pub mod Evict
pub mod Threshold
use pikopod.Base.{
  ℕ, ◌+◌, ◌-◌, min, Bool, true, false, not, ◌&&◌, ◌||◌, Option, none, some, List, [], ◌∷◌, ◌++◌,
  ◌==◌, nat_beq, leb, ltb, if◌then◌else◌, length, bytes_eq, filter_by,
}
use pikopod.Base.Map.{Map, lookup, insert, delete}
use pikopod.Base.Bytes.{Bytes, codes}
use pikopod.Base.Time.{elapsed, longer}
use pikopod.Drift.{
  Kind, Finding, field_added, enum_value_new, upstream_error, upstream_unreachable, rate_limited,
  client_error,
}

-- The level strings; `unset` is the empty one.
pub data Level : Type 0 where
  unset info warn err : Level

unfoldable pub level_rank : Level → ℕ
level_rank info = 0
level_rank warn = 1
level_rank _ = 2

abbrev pub kind_level : Kind → Level
kind_level field_added = info
kind_level enum_value_new = warn
kind_level rate_limited = warn
kind_level client_error = warn
kind_level _ = err

-- `ObservedLevel`
unfoldable pub observed_level : Finding → Level
observed_level f = if f.documented then info else kind_level f.kind

-- `SchemaVersion` is a constant and has no field here.
pub record DriftEvent : Type 0 where
  pub fingerprint : Bytes
  pub upstream : Bytes
  pub method : Bytes
  pub endpoint : Bytes
  pub status_class : Bytes
  pub kind : Kind
  pub field : Bytes
  pub before : Bytes
  pub after : Bytes
  pub first_seen : ℕ
  pub last_seen : ℕ
  pub occurrences : ℕ
  pub source : Bytes
  pub level : Level
  pub detail : Bytes
  pub note : Bytes
  pub category : Bytes

pub record FpState : Type 0 where
  pub first : ℕ
  pub last : ℕ
  pub occurrences : ℕ
  pub window_start : ℕ
  pub window_count : ℕ
  pub alerted : Bool
  pub acked : Bool
  pub event : Option DriftEvent

-- `Options` as `New` completes them.
pub record Options : Type 0 where
  pub min_occurrences : ℕ
  pub window : ℕ
  pub summary_every : ℕ
  pub min_level : Level
  pub max_tracked : ℕ

pub data Message : Type 0 where
  alert : DriftEvent → Message
  ceiling : Message
  saturated : ℕ → Message
  digest : Map Bytes ℕ → ℕ → Message

pub record DeliveryItem : Type 0 where
  pub text : Message
  pub counts_as_alert : Bool

pub record Alerter : Type 0 where
  pub opts : Options
  pub states : Map Bytes FpState
  pub persisted : Map Bytes FpState
  pub log : List DriftEvent
  pub delivery_window_start : ℕ
  pub delivery_window_count : ℕ
  pub digest_start : ℕ
  pub digest_counts : Map Bytes ℕ
  pub digest_floored : ℕ
  pub queue : List DeliveryItem
  pub deliveries_dropped : ℕ
  pub saturation_evictions : ℕ
  pub saturation_notified : Bool
  pub closed : Bool
  pub last_delivery_ok : Bool
  pub alerts_sent : ℕ

abbrev pub max_deliveries_per_hour : ℕ
max_deliveries_per_hour = 60

abbrev pub delivery_queue : ℕ
delivery_queue = 256

abbrev pub hour : ℕ
hour = 3600000000000

-- `New`'s defaults; what is not positive is 0 here. `max_int64` is what a `Duration` can hold.
unfoldable pub complete : Options → Options
complete o = record o {
  min_occurrences = if nat_beq o.min_occurrences 0 then 3 else o.min_occurrences;
  window = if nat_beq o.window 0 then 900000000000 else o.window;
  max_tracked = if nat_beq o.max_tracked 0 then 10000 else o.max_tracked;
}

-- `deliver`: the `select` drops the message when the queue is full.
unfoldable pub deliver : Alerter → Message → Bool → Alerter
deliver a text counts =
    if a.closed
    then a
    else if ltb (length a.queue) delivery_queue
    then record a { queue = a.queue ++ record { text = text; counts_as_alert = counts } ∷ [] }
    else record a { deliveries_dropped = a.deliveries_dropped + 1; last_delivery_ok = false }

-- One round of `deliveryLoop` with `deliverSync`; `ok` is what the sinks answered.
unfoldable pub deliver_sync : Alerter → Bool → Alerter
deliver_sync a ok = elim a.queue [
  | [] ↦ a
  | item ∷ rest ↦ record a {
    queue = rest;
    alerts_sent = if item.counts_as_alert then a.alerts_sent + 1 else a.alerts_sent;
    last_delivery_ok = ok;
  }
]

unfoldable pub persist : Alerter → Alerter
persist a = record a { persisted = a.states }

abbrev pub or_zero : Option ℕ → ℕ
or_zero none = 0
or_zero (some n) = n

abbrev pub level_text : Level → Bytes
level_text unset = []
level_text info = codes "INFO"
level_text warn = codes "WARN"
level_text err = codes "ERR"

abbrev pub or_err : Level → Level
or_err unset = err
or_err l = l

-- `source|level`, with the defaults of `emit`.
unfoldable pub digest_key : DriftEvent → Bytes
digest_key ev =
    (if ev.source == [] then codes "observed" else ev.source) ++ b'|' ∷ level_text (or_err ev.level)

unfoldable pub floor_of : Level → ℕ
unfolding level_rank
floor_of unset = 0
floor_of l = level_rank l

-- The delivery half of `emit`, past the floor.
unfoldable pub rate_limit : Alerter → DriftEvent → ℕ → Alerter
unfolding deliver persist
rate_limit a ev now =
    let fresh = longer now a.delivery_window_start hour in
    let n = (if fresh then 0 else a.delivery_window_count) + 1 in
    let b = persist (record a {
      delivery_window_start = if fresh then now else a.delivery_window_start;
      delivery_window_count = n;
    }) in
    if leb n max_deliveries_per_hour
    then deliver b (alert ev) true
    else if nat_beq n (max_deliveries_per_hour + 1)
    then deliver b ceiling false
    else b

-- The event goes to the log and into the counts of the next digest.
unfoldable pub note_event : Alerter → DriftEvent → Alerter
unfolding digest_key insert lookup
note_event a ev =
    let key = digest_key ev in
    record a {
      log = a.log ++ ev ∷ [];
      digest_counts = insert key (or_zero (lookup key a.digest_counts) + 1) a.digest_counts;
    }

unfoldable pub emit : Alerter → DriftEvent → ℕ → Alerter
unfolding rate_limit note_event level_rank persist floor_of
emit a ev now =
    let b = note_event a ev in
    if ltb (level_rank (or_err ev.level)) (floor_of a.opts.min_level)
    then persist (record b { digest_floored = a.digest_floored + 1 })
    else rate_limit b ev now
