-- ===== src/Alert/Evict.antt =====
-- The bound on tracked fingerprints (internal/alert/alert.go, `evictOneLocked` and its callers).
use pikopod.Base.{
  ℕ, ◌+◌, ◌≤◌, ◌≡◌, ◌≢◌, ◌⊎◌, refl, Bool, true, false, not, ◌&&◌, ◌||◌, Option, none, some, [], ◌∷◌,
  ◌==◌, arith, leb, ltb, if◌then◌else◌, length, bytes_eq, bytes_beq_iff, Bool-cases, Option-cases,
  inl, inr, subst,
}
use pikopod.Base.Map.{
  Map, IsMap, lookup, has, insert, delete, lookup-insert, lookup-delete, insert-IsMap, delete-IsMap,
  length-insert, length-delete-has, has-lookup-some,
}
use pikopod.Base.Bytes.{Bytes}
use pikopod.Drift.{Finding}
use pikopod.Alert.{Alerter, DriftEvent, FpState, deliver, saturated}
use pikopod.Alert.Report.{
  evict_scan, evict_one, track, touch_event, settle, report, report_tracked, report_first,
  report_first_tracked,
}
use pikopod.Alert.Once.{emit-states, emit-opts, deliver-states, deliver-opts}

-- What the loop finds, when no entry was seen before, or `victim` was.
abbrev pub IsEvictable : Bytes → Map Bytes FpState → Type 0
IsEvictable r m = (st : FpState) × (lookup r m ≡ some st) × (st.acked || st.alerted ≡ true)

IsEvictable-later :
    (r fp : Bytes) (st : FpState) (m : Map Bytes FpState)
    → has fp m ≡ false
    → IsEvictable r m
    → IsEvictable r ((fp, st) ∷ m)
unfolding lookup
IsEvictable-later r fp st m h (w, e, c) =
    (w, ground (arith, e, has-lookup-some r w m e, h, bytes_beq_iff fp r), c)

IsEvictable-here :
    (r fp : Bytes) (st : FpState) (m : Map Bytes FpState)
    → r ≡ fp
    → st.acked || st.alerted ≡ true
    → IsEvictable r ((fp, st) ∷ m)
unfolding lookup
IsEvictable-here r fp st m e c = (st, ground (arith, e, bytes_beq_iff fp r), c)

evict_scan_lem :
    (victim : Bytes) (acked : Bool) (last : ℕ) (m : Map Bytes FpState)
    → IsMap m
    → (evict_scan victim acked last m ≡ victim) ⊎ IsEvictable (evict_scan victim acked last m) m
unfolding evict_scan
evict_scan_lem victim acked last [] h = inl refl
evict_scan_lem victim acked last ((fp, st) ∷ m) h =
    let better =
      (victim == [])
      || ((st.acked && not acked)
          || ((st.acked && acked || not st.acked && not acked) && ltb st.last last)) in
    let P = λ (r : Bytes). (r ≡ victim) ⊎ IsEvictable r ((fp, st) ∷ m) in
    elim (Bool-cases ((st.acked || st.alerted) && better)) [
      | inl t ↦
          let e : evict_scan fp st.acked st.last m ≡ evict_scan victim acked last ((fp, st) ∷ m) =
            rw t refl in
          subst P e (elim (evict_scan_lem fp st.acked st.last m h.1) [
            | inl e ↦ inr (IsEvictable-here _ fp st m e (ground arith))
            | inr e ↦ inr (IsEvictable-later _ fp st m h.0 e)
          ])
      | inr t ↦
          let e : evict_scan victim acked last m ≡ evict_scan victim acked last ((fp, st) ∷ m) =
            rw t refl in
          subst P e (elim (evict_scan_lem victim acked last m h.1) [
            | inl e ↦ inl e
            | inr e ↦ inr (IsEvictable-later _ fp st m h.0 e)
          ])
    ]

evict_one_lem :
    (a : Alerter)
    → IsMap a.states
    → (evict_one a ≡ (a, false))
      ⊎ ((v : Bytes) × IsEvictable v a.states
          × (evict_one a ≡ (
            record a {
              states = delete v a.states;
              saturation_evictions = a.saturation_evictions + 1;
            },
            true,
          )))
unfolding evict_one
evict_one_lem a h =
    let v = evict_scan [] false 0 a.states in
    elim (Bool-cases (v == [])) [
      | inl e ↦ inl (rw e refl)
      | inr e ↦ elim (evict_scan_lem [] false 0 a.states h) [
        | inl n ↦ absurd (ground (arith, e, n, bytes_beq_iff v []))
        | inr c ↦ inr (v, c, rw e refl)
      ]
    ]

-- The states, and the options, that `track` leaves: a full map has lost one entry that was alerted
-- or acknowledged, if the fingerprint is new.
pub record Tracked (a : Alerter) (fp : Bytes) (b : Alerter) : Type 0 where
  pub opts : b.opts ≡ a.opts
  pub keyed : IsMap b.states
  pub room : (st : FpState) → length (insert fp st b.states) ≤ a.opts.max_tracked
  pub keeps :
      (other : Bytes) (st : FpState)
      → lookup other a.states ≡ some st
      → st.acked || st.alerted ≡ false
      → lookup other b.states ≡ some st

abbrev pub IsTracked : Alerter → Bytes → Alerter → Option FpState → Type 0
IsTracked a fp b none = b ≡ a
IsTracked a fp b (some st) = Tracked a fp b

track_evict :
    (a : Alerter) (fp v : Bytes)
    → lookup fp a.states ≡ none
    → IsMap a.states
    → length a.states ≤ a.opts.max_tracked
    → IsEvictable v a.states
    → Tracked a fp
        (record a { states = delete v a.states; saturation_evictions = a.saturation_evictions + 1 })
track_evict a fp v new h bound (w, found, c) = record {
  opts = refl;
  keyed = delete-IsMap v a.states h;
  room = λ st. ground (
    arith,
    length-insert fp st (delete v a.states),
    length-delete-has v a.states (has-lookup-some v w a.states found),
  );
  keeps = λ other st e live. ground (arith, lookup-delete v other a.states, bytes_beq_iff v other);
}

track_lem :
    (a : Alerter) (fp : Bytes) (now : ℕ)
    → IsMap a.states
    → length a.states ≤ a.opts.max_tracked
    → IsTracked a fp (track a fp now).0 (track a fp now).1
unfolding track
track_lem a fp now h bound = elim (Option-cases (lookup fp a.states)) [
  | inr (st, e) ↦
      rw (e, track)
        (record {
          opts = refl;
          keyed = h;
          room = λ st'.
              ground (arith, length-insert fp st' a.states, has-lookup-some fp st a.states e);
          keeps = λ other st' e live. e;
        })
  | inl new ↦
      rw (new, track)
        (elim (Bool-cases (leb a.opts.max_tracked (length a.states))) [
          | inr room ↦ rw room (record {
            opts = refl;
            keyed = h;
            room = λ st'. ground (arith, length-insert fp st' a.states);
            keeps = λ other st' e live. e;
          })
          | inl full ↦ rw full (elim (evict_one_lem a h) [
            | inl e ↦ rw e refl
            | inr (v, c, e) ↦ rw e (track_evict a fp v new h bound c)
          ])
        ])
]

settle-states :
    (b : Alerter) (fp : Bytes) (st : FpState) (due : Bool) (ev : DriftEvent) (now : ℕ)
    → (settle b fp st due ev now).states
      ≡ insert fp
          (if due then record st { alerted = true; event = some ev } else touch_event st)
          b.states
unfolding settle
settle-states b fp st true ev now =
    emit-states
      (record b { states = insert fp (record st { alerted = true; event = some ev }) b.states }) ev
      now
settle-states b fp st false ev now = refl

settle-opts :
    (b : Alerter) (fp : Bytes) (st : FpState) (due : Bool) (ev : DriftEvent) (now : ℕ)
    → (settle b fp st due ev now).opts ≡ b.opts
unfolding settle
settle-opts b fp st true ev now =
    emit-opts
      (record b { states = insert fp (record st { alerted = true; event = some ev }) b.states }) ev
      now
settle-opts b fp st false ev now = refl

-- The table of fingerprints is in order: one entry for each, and not more than the options allow.
pub record IsValid (a : Alerter) : Type 0 where
  pub keyed : IsMap a.states
  pub bounded : length a.states ≤ a.opts.max_tracked

-- Whatever `b` tracks, but for `fp`, and `a` has an open window for, is as in `a`.
abbrev pub KeepsOpen : Alerter → Bytes → Alerter → Type 0
KeepsOpen a fp b =
    (other : Bytes) (st : FpState)
    → other ≢ fp
    → lookup other a.states ≡ some st
    → st.acked || st.alerted ≡ false
    → lookup other b.states ≡ some st

settle_lem :
    (a b : Alerter) (fp : Bytes) (st : FpState) (due : Bool) (ev : DriftEvent) (now : ℕ)
    → Tracked a fp b
    → IsValid (settle b fp st due ev now) × KeepsOpen a fp (settle b fp st due ev now)
settle_lem a b fp st due ev now h =
    let x = if due then record st { alerted = true; event = some ev } else touch_event st in
    let e = settle-states b fp st due ev now in
    (
      record {
        keyed = rw e (insert-IsMap fp x b.states h.keyed);
        bounded = rw (e, settle-opts b fp st due ev now, h.opts) (h.room x);
      },
      λ other w ne found live. rw e ground (
        arith,
        lookup-insert fp other x b.states,
        h.keeps other w found live,
        bytes_beq_iff fp other,
      ),
    )

abbrev pub IsKept : Alerter → Bytes → Alerter → Type 0
IsKept a fp b = IsValid b × KeepsOpen a fp b

saturated_lem :
    (a : Alerter) (fp : Bytes)
    → IsValid a
    → IsKept a fp (
        let c = record a { saturation_notified = true } in
        if a.saturation_notified then c else deliver c (saturated a.opts.max_tracked) false)
saturated_lem a fp h =
    let c = record a { saturation_notified = true } in
    let m = saturated a.opts.max_tracked in
    elim a.saturation_notified as (λ n. IsKept a fp (if n then c else deliver c m false)) [
      | true ↦ (record { keyed = h.keyed; bounded = h.bounded }, λ other w ne found live. found)
      | false ↦ (
        record {
          keyed = rw (deliver-states c m false) h.keyed;
          bounded = rw (deliver-states c m false, deliver-opts c m false) h.bounded;
        },
        λ other w ne found live. rw (deliver-states c m false) found,
      )
    ]

report_tracked_lem :
    (found : Option FpState) (a b : Alerter) (f : Finding) (fp : Bytes) (now : ℕ)
    → IsValid a
    → IsTracked a fp b found
    → IsKept a fp (report_tracked b found f fp now)
unfolding report_tracked
report_tracked_lem (some st) a b f fp now h t = settle_lem a b fp _ _ _ now t
report_tracked_lem none a b f fp now h t = rw t (saturated_lem a fp h)

report_first_tracked_lem :
    (found : Option FpState) (a b : Alerter) (upstream fp : Bytes) (ev : DriftEvent)
    (source : Bytes) (now : ℕ)
    → IsValid a
    → IsTracked a fp b found
    → IsKept a fp (report_first_tracked b found upstream fp ev source now)
unfolding report_first_tracked
report_first_tracked_lem (some st) a b upstream fp ev source now h t = settle_lem a b fp _ _ _ now t
report_first_tracked_lem none a b upstream fp ev source now h t =
    rw t (h, λ other w ne found live. found)

-- Reports keep the table of fingerprints valid, at most `max_tracked` of them: to make room, only
-- an entry that was alerted or acknowledged is given up, never an open window of another
-- fingerprint, which stays as it was.
pub report_bounded :
    (a : Alerter) (f : Finding) (fp upstream source : Bytes) (ev : DriftEvent) (now : ℕ)
    → IsValid a
    → IsKept a fp (report a f fp now) × IsKept a fp (report_first a upstream fp ev source now)
unfolding report report_first
report_bounded a f fp upstream source ev now h =
    let t = track_lem a fp now h.keyed h.bounded in
    (
      report_tracked_lem (track a fp now).1 a (track a fp now).0 f fp now h t,
      report_first_tracked_lem (track a fp now).1 a (track a fp now).0 upstream fp ev source now h
          t,
    )
