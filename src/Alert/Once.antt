-- ===== src/Alert/Once.antt =====
-- One alert for a fingerprint (internal/alert/alert.go, `Report` and `reportFirst`).
use pikopod.Base.{
  Bool, false, ◌⊎◌, inl, inr, Option, none, List, ℕ, ◌+◌, ◌≡◌, refl, ap, ◌∙◌, Bool, true, ◌||◌,
  some, [], ◌∷◌, ◌++◌, arith, bytes_eq,
}
use pikopod.Base.Map.{lookup, insert, lookup-insert-same}
use pikopod.Base.Bytes.{Bytes}
use pikopod.Drift.{Finding}
use pikopod.Alert.{
  Alerter, DriftEvent, FpState, Message, saturated, deliver, persist, rate_limit, emit, note_event,
}
use pikopod.Alert.Report.{
  track, count_occurrence, touch_event, settle, report, report_tracked, report_first,
  report_first_tracked,
}

pub deliver-states : (a : Alerter) (t : Message) (c : Bool) → (deliver a t c).states ≡ a.states
unfolding deliver
deliver-states a t c = ground arith

pub deliver-opts : (a : Alerter) (t : Message) (c : Bool) → (deliver a t c).opts ≡ a.opts
unfolding deliver
deliver-opts a t c = ground arith

pub deliver-log : (a : Alerter) (t : Message) (c : Bool) → (deliver a t c).log ≡ a.log
unfolding deliver
deliver-log a t c = ground arith

pub emit-states : (a : Alerter) (ev : DriftEvent) (now : ℕ) → (emit a ev now).states ≡ a.states
unfolding emit note_event rate_limit persist deliver
emit-states a ev now = ground arith

pub emit-opts : (a : Alerter) (ev : DriftEvent) (now : ℕ) → (emit a ev now).opts ≡ a.opts
unfolding emit note_event rate_limit persist deliver
emit-opts a ev now = ground arith

pub emit-log : (a : Alerter) (ev : DriftEvent) (now : ℕ) → (emit a ev now).log ≡ a.log ++ ev ∷ []
unfolding emit note_event rate_limit persist deliver
emit-log a ev now = ground arith

pub track_found :
    (a : Alerter) (fp : Bytes) (now : ℕ) (st : FpState)
    → lookup fp a.states ≡ some st
    → track a fp now ≡ (a, some st)
unfolding track
track_found a fp now st e = rw (e, track) refl

report_done :
    (a : Alerter) (f : Finding) (fp : Bytes) (now : ℕ) (st : FpState)
    → lookup fp a.states ≡ some st
    → st.alerted || st.acked ≡ true
    → report a f fp now
      ≡ record a { states = insert fp (touch_event (count_occurrence a.opts now st)) a.states }
unfolding report report_tracked settle track count_occurrence
report_done a f fp now st found done = rw (found, report, track) (ground arith)

report_first_done :
    (a : Alerter) (upstream fp : Bytes) (ev : DriftEvent) (source : Bytes) (now : ℕ) (st : FpState)
    → lookup fp a.states ≡ some st
    → st.alerted || st.acked ≡ true
    → report_first a upstream fp ev source now ≡ record a {
      states =
          insert fp
            (touch_event (record st { last = now; occurrences = st.occurrences + 1 }))
            a.states;
    }
unfolding report_first report_first_tracked settle track
report_first_done a upstream fp ev source now st found done =
    rw (found, report_first, track) (ground arith)

-- A report of the fingerprint, by either way.
pub data Call : Type 0 where
  finding_call : Finding → ℕ → Call
  first_call : Bytes → DriftEvent → Bytes → ℕ → Call

abbrev pub call_on : Bytes → Alerter → Call → Alerter
call_on fp a (finding_call f now) = report a f fp now
call_on fp a (first_call upstream ev source now) = report_first a upstream fp ev source now

pub calls_on : Bytes → Alerter → List Call → Alerter
calls_on fp a [] = a
calls_on fp a (c ∷ cs) = calls_on fp (call_on fp a c) cs

-- The fingerprint is tracked, and its alert was raised or it was acknowledged.
abbrev IsDone : Bytes → Alerter → Type 0
IsDone fp a = (st : FpState) × (lookup fp a.states ≡ some st) × (st.alerted || st.acked ≡ true)

call-IsDone :
    (fp : Bytes) (a : Alerter) (c : Call)
    → IsDone fp a
    → IsDone fp (call_on fp a c) × ((call_on fp a c).log ≡ a.log)
unfolding count_occurrence
call-IsDone fp a (finding_call f now) (st, found, done) =
    let t = touch_event (count_occurrence a.opts now st) in
    let e = report_done a f fp now st found done in
    (
      (t, ap (λ x. lookup fp x.states) e ∙ lookup-insert-same fp t a.states, done),
      ap (λ x. x.log) e,
    )
call-IsDone fp a (first_call upstream ev source now) (st, found, done) =
    let t = touch_event (record st { last = now; occurrences = st.occurrences + 1 }) in
    let e = report_first_done a upstream fp ev source now st found done in
    (
      (t, ap (λ x. lookup fp x.states) e ∙ lookup-insert-same fp t a.states, done),
      ap (λ x. x.log) e,
    )

calls_done :
    (fp : Bytes) (a : Alerter) (cs : List Call) → IsDone fp a → (calls_on fp a cs).log ≡ a.log
unfolding calls_on
calls_done fp a [] h = refl
calls_done fp a (c ∷ cs) h =
    let (next, e) = call-IsDone fp a c h in calls_done fp (call_on fp a c) cs next ∙ e

track-log : (a : Alerter) (fp : Bytes) (now : ℕ) → (track a fp now).0.log ≡ a.log
unfolding track
track-log a fp now = ground arith

-- The end of a report writes nothing to the log, or one event, after which the alert is raised.
settle_once :
    (b : Alerter) (fp : Bytes) (st : FpState) (due : Bool) (ev : DriftEvent) (now : ℕ)
    → ((settle b fp st due ev now).log ≡ b.log)
      ⊎ (((settle b fp st due ev now).log ≡ b.log ++ ev ∷ [])
          × IsDone fp (settle b fp st due ev now))
unfolding settle
settle_once b fp st false ev now = inl refl
settle_once b fp st true ev now =
    let s = record st { alerted = true; event = some ev } in
    let c = record b { states = insert fp s b.states } in
    inr (
      emit-log c ev now,
      (s, ap (lookup fp) (emit-states c ev now) ∙ lookup-insert-same fp s b.states, refl),
    )

-- One more event at most, and only with the fingerprint done.
abbrev Once : Bytes → Alerter → Alerter → Type 0
Once fp a b = (b.log ≡ a.log) ⊎ ((ev : DriftEvent) × (b.log ≡ a.log ++ ev ∷ []) × IsDone fp b)

settle-Once :
    (fp : Bytes) (a b : Alerter) (st : FpState) (due : Bool) (ev : DriftEvent) (now : ℕ)
    → b.log ≡ a.log
    → Once fp a (settle b fp st due ev now)
settle-Once fp a b st due ev now e = elim (settle_once b fp st due ev now) [
  | inl n ↦ inl (n ∙ e)
  | inr (n, d) ↦ inr (ev, n ∙ ap (λ l. l ++ ev ∷ []) e, d)
]

report_tracked-Once :
    (fp : Bytes) (a b : Alerter) (o : Option FpState) (f : Finding) (now : ℕ)
    → b.log ≡ a.log
    → Once fp a (report_tracked b o f fp now)
unfolding report_tracked
report_tracked-Once fp a b none f now e = inl (
    ground (
      arith,
      e,
      deliver-log (record b { saturation_notified = true }) (saturated b.opts.max_tracked) false,
    ))
report_tracked-Once fp a b (some st) f now e =
    settle-Once fp a b (count_occurrence b.opts now st) _ _ now e

report_first_tracked-Once :
    (fp : Bytes) (a b : Alerter) (o : Option FpState) (upstream : Bytes) (ev : DriftEvent)
    (source : Bytes) (now : ℕ)
    → b.log ≡ a.log
    → Once fp a (report_first_tracked b o upstream fp ev source now)
unfolding report_first_tracked
report_first_tracked-Once fp a b none upstream ev source now e = inl e
report_first_tracked-Once fp a b (some st) upstream ev source now e =
    settle-Once fp a b (record st { last = now; occurrences = st.occurrences + 1 }) _ _ now e

call-Once : (fp : Bytes) (a : Alerter) (c : Call) → Once fp a (call_on fp a c)
unfolding report report_first
call-Once fp a (finding_call f now) =
    report_tracked-Once fp a (track a fp now).0 (track a fp now).1 f now (track-log a fp now)
call-Once fp a (first_call upstream ev source now) =
    report_first_tracked-Once fp a (track a fp now).0 (track a fp now).1 upstream ev source now
      (track-log a fp now)

-- Reports of one fingerprint, by whichever way and however often, and whether or not it was tracked
-- before them, raise at most one alert: the event log is as it was, or has one event more.
pub report_once :
    (fp : Bytes) (a : Alerter) (cs : List Call)
    → ((calls_on fp a cs).log ≡ a.log)
      ⊎ ((ev : DriftEvent) × ((calls_on fp a cs).log ≡ a.log ++ ev ∷ []))
unfolding calls_on
report_once fp a [] = inl refl
report_once fp a (c ∷ cs) = elim (call-Once fp a c) [
  | inl e ↦ elim (report_once fp (call_on fp a c) cs) [
    | inl l ↦ inl (l ∙ e)
    | inr (ev, l) ↦ inr (ev, l ∙ ap (λ x. x ++ ev ∷ []) e)
  ]
  | inr (ev, e, d) ↦ inr (ev, calls_done fp (call_on fp a c) cs d ∙ e)
]
