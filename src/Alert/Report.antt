-- ===== src/Alert/Report.antt =====
-- What a caller reports (internal/alert/alert.go). The fingerprint is an argument: it is the text that
-- `Finding.Fingerprint` computes with SHA-256. A state that the source changes through a pointer is
-- put back in the map, and with it the event that hangs on it.
use pikopod.Base.{
  ℕ, ◌+◌, Bool, true, false, not, ◌&&◌, ◌||◌, Option, none, some, [], ◌∷◌, ◌==◌, nat_beq, leb, ltb,
  if◌then◌else◌, length, bytes_eq,
}
use pikopod.Base.Map.{Map, lookup, insert, delete}
use pikopod.Base.Bytes.{Bytes}
use pikopod.Drift.{Finding}
use pikopod.Alert.{
  DriftEvent, FpState, Options, Alerter, observed_level, emit, deliver, saturated, digest, persist,
}
use pikopod.Base.Time.{longer, elapsed}

-- The loop of `evictOneLocked`; the empty fingerprint is no victim yet.
unfoldable pub evict_scan : Bytes → Bool → ℕ → Map Bytes FpState → Bytes
evict_scan victim acked last [] = victim
evict_scan victim acked last ((fp, st) ∷ m) =
    let candidate = st.acked || st.alerted in
    let better =
      (victim == [])
      || ((st.acked && not acked)
          || ((st.acked && acked || not st.acked && not acked) && ltb st.last last)) in
    let take = candidate && better in
    evict_scan (if take then fp else victim) (if take then st.acked else acked)
      (if take then st.last else last) m

-- `evictOneLocked`: the alerter and whether an entry went.
unfoldable pub evict_one : Alerter → Alerter × Bool
unfolding evict_scan delete
evict_one a =
    let victim = evict_scan [] false 0 a.states in
    if victim == [] then (a, false) else (
      record a {
        states = delete victim a.states;
        saturation_evictions = a.saturation_evictions + 1;
      },
      true,
    )

-- The first lines of `Report` and `reportFirst`: the state of a fingerprint, a new one when there is
-- room or room can be made.
unfoldable pub track : Alerter → Bytes → ℕ → Alerter × Option FpState
unfolding lookup evict_one
track a fp now =
    let fresh : FpState = record {
      first = now;
      last = now;
      occurrences = 0;
      window_start = now;
      window_count = 0;
      alerted = false;
      acked = false;
      event = none;
    } in
    let room = evict_one a in
    elim (lookup fp a.states) [
      | some st ↦ (a, some st)
      | none ↦
          if leb a.opts.max_tracked (length a.states)
          then (if room.1 then (room.0, some fresh) else (a, none))
          else (a, some fresh)
    ]

-- `st.Last = now; st.Occurrences++` and the window of `Report`.
unfoldable pub count_occurrence : Options → ℕ → FpState → FpState
count_occurrence opts now st =
    let moved = longer now st.window_start opts.window in
    record st {
      last = now;
      occurrences = st.occurrences + 1;
      window_start = if moved then now else st.window_start;
      window_count = (if moved then 0 else st.window_count) + 1;
    }

abbrev pub touch_event : FpState → FpState
touch_event st = record st {
  event = elim st.event [
    | none ↦ none
    | some ev ↦ some (record ev { last_seen = st.last; occurrences = st.occurrences })
  ];
}

unfoldable pub event_of : Finding → Bytes → FpState → DriftEvent
unfolding observed_level
event_of f fp st = record {
  fingerprint = fp;
  upstream = f.upstream;
  method = f.method;
  endpoint = f.template;
  status_class = f.status_class;
  kind = f.kind;
  field = f.field;
  before = f.before;
  after = f.after;
  first_seen = st.first;
  last_seen = st.last;
  occurrences = st.occurrences;
  source = [];
  level = observed_level f;
  detail = [];
  note = f.note;
  category = [];
}

-- The end of `Report` and `reportFirst`, when the state `st` is `due` for the alert `ev` or not.
unfoldable pub settle : Alerter → Bytes → FpState → Bool → DriftEvent → ℕ → Alerter
unfolding emit insert
settle b fp st due ev now =
    if due
    then emit
        (record b { states = insert fp (record st { alerted = true; event = some ev }) b.states })
        ev now
    else record b { states = insert fp (touch_event st) b.states }

-- `Report`, past its first lines
unfoldable pub report_tracked : Alerter → Option FpState → Finding → Bytes → ℕ → Alerter
unfolding count_occurrence event_of settle deliver
report_tracked b none f fp now =
    let c = record b { saturation_notified = true } in
    if b.saturation_notified then c else deliver c (saturated b.opts.max_tracked) false
report_tracked b (some st0) f fp now =
    let st = count_occurrence b.opts now st0 in
    let due = not st.alerted && not st.acked && leb b.opts.min_occurrences st.window_count in
    settle b fp st due (event_of f fp st) now

-- `Report`
unfoldable pub report : Alerter → Finding → Bytes → ℕ → Alerter
unfolding track report_tracked
report a f fp now = let (b, found) = track a fp now in report_tracked b found f fp now

-- `reportFirst`, past its first lines
unfoldable pub report_first_tracked :
    Alerter → Option FpState → Bytes → Bytes → DriftEvent → Bytes → ℕ → Alerter
unfolding settle
report_first_tracked b none upstream fp ev source now = b
report_first_tracked b (some st0) upstream fp ev source now =
    let st = record st0 { last = now; occurrences = st0.occurrences + 1 } in
    let out = record ev {
      fingerprint = fp;
      upstream = upstream;
      source = if source == [] then ev.source else source;
      first_seen = st.first;
      last_seen = st.last;
      occurrences = st.occurrences;
    } in
    settle b fp st (not st.alerted && not st.acked) out now

-- `reportFirst`
unfoldable pub report_first : Alerter → Bytes → Bytes → DriftEvent → Bytes → ℕ → Alerter
unfolding track report_first_tracked
report_first a upstream fp ev source now =
    let (b, found) = track a fp now in report_first_tracked b found upstream fp ev source now

-- `Ack`
unfoldable pub ack : Alerter → Bytes → Alerter × Bool
unfolding lookup insert persist
ack a fp = elim (lookup fp a.states) [
  | none ↦ (a, false)
  | some st ↦
      (persist (record a { states = insert fp (record st { acked = true }) a.states }), true)
]

-- `MaybeDigest`
unfoldable pub maybe_digest : Alerter → ℕ → Alerter
unfolding deliver
maybe_digest a now =
    if nat_beq a.opts.summary_every 0
    then a
    else if nat_beq a.digest_start 0
    then record a { digest_start = now }
    else if not (leb a.opts.summary_every (elapsed now a.digest_start))
        || nat_beq (length a.digest_counts) 0
    then a
    else deliver (record a { digest_counts = []; digest_floored = 0; digest_start = now })
        (digest a.digest_counts a.digest_floored) false
