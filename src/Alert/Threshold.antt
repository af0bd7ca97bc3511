-- ===== src/Alert/Threshold.antt =====
-- When an alert is raised (internal/alert/alert.go, `Report`).
use pikopod.Base.{
  ℕ, ◌+◌, ◌≡◌, refl, sym, ap, Bool, true, false, not, ◌&&◌, ◌||◌, some, List, [], ◌∷◌, arith, leb,
  if◌then◌else◌, length, length-append, bytes_eq, bytes_beq_iff, subst,
}
use pikopod.Base.Map.{lookup, insert, lookup-insert}
use pikopod.Base.Bytes.{Bytes}
use pikopod.Drift.{Finding}
use pikopod.Alert.{Alerter, DriftEvent, FpState, Options}
use pikopod.Base.Time.{longer}
use pikopod.Alert.Report.{count_occurrence, event_of, touch_event, settle, report, report_tracked}
use pikopod.Alert.Once.{emit-states, emit-opts, emit-log, track_found}

-- The same drift, reported at each of the times.
abbrev pub report_all : Alerter → Finding → Bytes → List ℕ → Alerter
report_all a f fp [] = a
report_all a f fp (now ∷ nows) = report_all (report a f fp now) f fp nows

abbrev pub AllInWindow : Alerter → FpState → List ℕ → Type 0
AllInWindow a st [] = Unit
AllInWindow a st (now ∷ nows) =
    (longer now st.window_start a.opts.window ≡ false) × AllInWindow a st nows

-- The time of the alert.
abbrev is_due : Options → FpState → Bool
is_due opts st = not st.alerted && not st.acked && leb opts.min_occurrences st.window_count

report_found :
    (a : Alerter) (f : Finding) (fp : Bytes) (now : ℕ) (st : FpState)
    → lookup fp a.states ≡ some st
    → report a f fp now ≡ (
        let c = count_occurrence a.opts now st in
        settle a fp c (is_due a.opts c) (event_of f fp c) now)
unfolding report report_tracked
report_found a f fp now st e = rw (track_found a fp now st e) refl

-- A report of a tracked fingerprint: the log, the options and what is tracked for it.
pub record Reported (a : Alerter) (fp : Bytes) (c : FpState) (b : Alerter) : Type 0 where
  pub opts : b.opts ≡ a.opts
  pub state : FpState
  pub tracked : lookup fp b.states ≡ some state
  pub alerted : state.alerted ≡ c.alerted || is_due a.opts c
  pub acked : state.acked ≡ c.acked
  pub count : state.window_count ≡ c.window_count
  pub start : state.window_start ≡ c.window_start
  pub log : length b.log ≡ length a.log + (if is_due a.opts c then 1 else 0)

settle-Reported :
    (a : Alerter) (fp : Bytes) (c : FpState) (due : Bool) (ev : DriftEvent) (now : ℕ)
    → is_due a.opts c ≡ due
    → Reported a fp c (settle a fp c due ev now)
unfolding settle
settle-Reported a fp c true ev now e =
    let x = record c { alerted = true; event = some ev } in
    let b = record a { states = insert fp x a.states } in
    record {
      opts = emit-opts b ev now;
      state = x;
      tracked =
          rw (emit-states b ev now)
            (ground (arith, lookup-insert fp fp x a.states, bytes_beq_iff fp fp));
      alerted = ground arith;
      acked = refl;
      count = refl;
      start = refl;
      log = ground (arith, ap length (emit-log b ev now), length-append a.log (ev ∷ []));
    }
settle-Reported a fp c false ev now e = record {
  opts = refl;
  state = touch_event c;
  tracked = ground (arith, lookup-insert fp fp (touch_event c) a.states, bytes_beq_iff fp fp);
  alerted = ground arith;
  acked = refl;
  count = refl;
  start = refl;
  log = ground arith;
}

report_step :
    (a : Alerter) (f : Finding) (fp : Bytes) (now : ℕ) (st : FpState)
    → lookup fp a.states ≡ some st
    → Reported a fp (count_occurrence a.opts now st) (report a f fp now)
report_step a f fp now st e =
    let c = count_occurrence a.opts now st in
    subst (Reported a fp c) (sym (report_found a f fp now st e))
      (settle-Reported a fp c (is_due a.opts c) (event_of f fp c) now refl)

within_moves :
    (a b : Alerter) (st x : FpState) (nows : List ℕ)
    → b.opts ≡ a.opts
    → x.window_start ≡ st.window_start
    → AllInWindow a st nows
    → AllInWindow b x nows
within_moves a b st x [] eo es w = tt
within_moves a b st x (now ∷ nows) eo es w =
    (ground (arith, eo, es, w.0), within_moves a b st x nows eo es w.1)

-- A fingerprint is tracked and not acknowledged, its window is open at all the times, and its alert
-- was raised exactly if the window counts enough occurrences already. Then the reports raise one
-- alert in all if it was not raised before and the window counts enough with them, and else none.
pub report_all_threshold :
    (a : Alerter) (f : Finding) (fp : Bytes) (nows : List ℕ) (st : FpState)
    → lookup fp a.states ≡ some st
    → st.acked ≡ false
    → AllInWindow a st nows
    → st.alerted ≡ leb a.opts.min_occurrences st.window_count
    → length (report_all a f fp nows).log
      ≡ length a.log
        + (if not st.alerted && leb a.opts.min_occurrences (st.window_count + length nows)
            then 1
            else 0)
unfolding count_occurrence
report_all_threshold a f fp [] st found live w t = ground arith
report_all_threshold a f fp (now ∷ nows) st found live w t =
    let r = report_step a f fp now st found in
    let rest =
      report_all_threshold (report a f fp now) f fp nows r.state r.tracked
        (ground (arith, r.acked, live))
        (within_moves a (report a f fp now) st r.state nows r.opts (ground (arith, r.start, w.0))
          w.1)
        (ground (arith, r.alerted, r.acked, r.count, r.opts, t, w.0, live)) in
    ground (arith, rest, r.log, r.alerted, r.count, r.opts, w.0, t, live)
