-- ===== src/Webhooks/Dedupe.antt =====
-- Which deliveries are reported as duplicates (internal/agent/webhooks.go, `observeDelivery`).
use pikopod.Base.{
  ℕ, suc, ◌+◌, ◌≤◌, ◌<◌, ◌≡◌, ◌≢◌, refl, sym, ap, ◌∙◌, false, none, some, List, [], ◌∷◌, ◌++◌, ◌==◌,
  arith, leb, ltb, length, length-append, bytes_eq, bytes_beq_iff, Bool-cases, Option-cases, inl,
  inr, subst, All,
}
use pikopod.Base.Map.{Map, lookup, delete, lookup-insert, lookup-delete}
use pikopod.Base.Bytes.{Bytes}
use pikopod.Base.Time.{elapsed}
use pikopod.Webhooks.{
  WebhookState, Delivery, webhook_max_tracked, webhook_dedupe_window, admit, observe_id,
  observe_resource, observe,
}
use pikopod.Webhooks.Order.{listed, IsValid, observe_all, not_listed}

-- `id` came at the time `at`, and at most `k` ids that are still remembered came after it.
pub record Holds (id : Bytes) (at k : ℕ) (order : List Bytes) (m : Map Bytes ℕ) : Type 0 where
  pub found : lookup id m ≡ some at
  pub before : List Bytes
  pub after : List Bytes
  pub place : order ≡ before ++ id ∷ after
  pub first : listed id before ≡ false
  pub few : length after ≤ k

append_assoc_one :
    (before after : List Bytes) (id x : Bytes)
    → (before ++ id ∷ after) ++ x ∷ [] ≡ before ++ id ∷ (after ++ x ∷ [])
append_assoc_one [] after id x = refl
append_assoc_one (b ∷ before) after id x = ap (λ r. b ∷ r) (append_assoc_one before after id x)

admit-Holds :
    (id other : Bytes) (at now k : ℕ) (before after : List Bytes) (m : Map Bytes ℕ)
    → suc k < webhook_max_tracked
    → other ≢ id
    → lookup id m ≡ some at
    → listed id before ≡ false
    → length after ≤ k
    → Holds id at
        (suc k)
        (admit other now (before ++ id ∷ after) m).0
        (admit other now (before ++ id ∷ after) m).1
unfolding admit
admit-Holds id other at now k [] after m small ne found first few =
    let room : ltb webhook_max_tracked (length (id ∷ after ++ other ∷ [])) ≡ false =
      ground (arith, length-append after (other ∷ [])) in
    rw room (record {
      found = ground (arith, lookup-insert other id now m, bytes_beq_iff other id);
      before = [];
      after = after ++ other ∷ [];
      place = refl;
      first = refl;
      few = ground (arith, length-append after (other ∷ []));
    })
admit-Holds id other at now k (b ∷ before) after m small ne found first few =
    elim (Bool-cases
      (ltb webhook_max_tracked (length (b ∷ (before ++ id ∷ after) ++ other ∷ [])))) [
        | inl full ↦ rw full (record {
          found = ground (
            arith,
            lookup-insert other id now (delete b m),
            lookup-delete b id m,
            bytes_beq_iff other id,
            bytes_beq_iff b id,
          );
          before = before;
          after = after ++ other ∷ [];
          place = append_assoc_one before after id other;
          first = ground arith;
          few = ground (arith, length-append after (other ∷ []));
        })
        | inr room ↦ rw room (record {
          found = ground (arith, lookup-insert other id now m, bytes_beq_iff other id);
          before = b ∷ before;
          after = after ++ other ∷ [];
          place = append_assoc_one (b ∷ before) after id other;
          first = first;
          few = ground (arith, length-append after (other ∷ []));
        })
      ]

abbrev pub Remembers : Bytes → ℕ → ℕ → WebhookState → Type 0
Remembers id at k st = Holds id at k st.order st.seen

observe_resource-ids :
    (resource : Bytes) (ts : ℕ) (st : WebhookState)
    → ((observe_resource resource ts st).0.order ≡ st.order)
      × ((observe_resource resource ts st).0.seen ≡ st.seen)
unfolding observe_resource
observe_resource-ids resource ts st = elim (Option-cases (lookup resource st.last_ts)) [
  | inl e ↦ rw e (ground arith, ground arith)
  | inr (last, e) ↦ rw e (ground arith, ground arith)
]

later :
    (id : Bytes) (at k : ℕ) (st : WebhookState) → Remembers id at k st → Remembers id at (suc k) st
later id at k st h = record {
  found = h.found;
  before = h.before;
  after = h.after;
  place = h.place;
  first = h.first;
  few = omega (arith, h.few);
}

observe_id-Remembers :
    (id other : Bytes) (at now k : ℕ) (st : WebhookState)
    → suc k < webhook_max_tracked
    → other ≢ id
    → Remembers id at k st
    → Remembers id at (suc k) (observe_id other now st).0
unfolding observe_id
observe_id-Remembers id other at now k st small ne h = elim (Bool-cases (other == [])) [
  | inl e ↦ rw e (later id at k st h)
  | inr e ↦ rw e (elim (Option-cases (lookup other st.seen)) [
    | inl new ↦ rw new (
        subst (λ o. Holds id at (suc k) (admit other now o st.seen).0 (admit other now o st.seen).1)
          (sym h.place)
          (admit-Holds id other at now k h.before h.after st.seen small ne h.found h.first h.few))
    | inr (first, old) ↦ rw old (elim (Bool-cases (leb (elapsed now first) webhook_dedupe_window)) [
      | inl d ↦ rw d (later id at k st h)
      | inr d ↦ rw d (record {
        found = ground (arith, lookup-insert other id now st.seen, h.found, bytes_beq_iff other id);
        before = h.before;
        after = h.after;
        place = h.place;
        first = h.first;
        few = omega (arith, h.few);
      })
    ])
  ])
]

observe-Remembers :
    (id : Bytes) (at k : ℕ) (d : Delivery) (now : ℕ) (st : WebhookState)
    → suc k < webhook_max_tracked
    → d.id ≢ id
    → Remembers id at k st
    → Remembers id at (suc k) (observe d now st).0
unfolding observe
observe-Remembers id at k d now st small ne h =
    let (o, s) = observe_resource-ids d.resource d.event_ts (observe_id d.id now st).0 in
    rw (o, s) (observe_id-Remembers id d.id at now k st small ne h)

abbrev pub NoneNamed : Bytes → List (Delivery × ℕ) → Type 0
NoneNamed id ds = All (λ (p : Delivery × ℕ). p.0.id ≢ id) ds

observe_all-Remembers :
    (id : Bytes) (at k : ℕ) (ds : List (Delivery × ℕ)) (st : WebhookState)
    → k + length ds < webhook_max_tracked
    → NoneNamed id ds
    → Remembers id at k st
    → lookup id (observe_all st ds).seen ≡ some at
observe_all-Remembers id at k [] st small ne h = h.found
observe_all-Remembers id at k ((d, now) ∷ ds) st small ne h =
    observe_all-Remembers id at (suc k) ds (observe d now st).0 (omega (arith, small)) ne.1
      (observe-Remembers id at k d now st (omega (arith, small)) ne.0 h)

admit-Remembers :
    (id : Bytes) (now : ℕ) (order : List Bytes) (m : Map Bytes ℕ)
    → listed id order ≡ false
    → Holds id now 0 (admit id now order m).0 (admit id now order m).1
unfolding admit
admit-Remembers id now [] m n = record {
  found = ground (arith, lookup-insert id id now m, bytes_beq_iff id id);
  before = [];
  after = [];
  place = refl;
  first = refl;
  few = omega arith;
}
admit-Remembers id now (b ∷ order) m n =
    elim (Bool-cases (ltb webhook_max_tracked (length (b ∷ order ++ id ∷ [])))) [
      | inl full ↦ rw full (record {
        found = ground (arith, lookup-insert id id now (delete b m), bytes_beq_iff id id);
        before = order;
        after = [];
        place = refl;
        first = ground arith;
        few = omega arith;
      })
      | inr room ↦ rw room (record {
        found = ground (arith, lookup-insert id id now m, bytes_beq_iff id id);
        before = b ∷ order;
        after = [];
        place = refl;
        first = n;
        few = omega arith;
      })
    ]

observe_id_seen :
    (id : Bytes) (now at : ℕ) (st : WebhookState)
    → id ≢ []
    → lookup id st.seen ≡ some at
    → (observe_id id now st).1 ≡ leb (elapsed now at) webhook_dedupe_window
unfolding observe_id
observe_id_seen id now at st ne e = rw e (ground (arith, bytes_beq_iff id []))

observe_id_unseen :
    (id : Bytes) (now : ℕ) (st : WebhookState)
    → lookup id st.seen ≡ none
    → (observe_id id now st).1 ≡ false
unfolding observe_id
observe_id_unseen id now st e = rw e (ground arith)

observe_id_new :
    (id : Bytes) (now : ℕ) (st : WebhookState)
    → id ≢ []
    → lookup id st.seen ≡ none
    → IsValid st
    → Remembers id now 0 (observe_id id now st).0
unfolding observe_id
observe_id_new id now st ne e h = elim (Bool-cases (id == [])) [
  | inl n ↦ absurd (ground (arith, bytes_beq_iff id []))
  | inr n ↦
      rw (n, e) (admit-Remembers id now st.order st.seen (not_listed id st.order st.seen e h.ids))
]

-- A delivery with an id that is not remembered is no duplicate; and when its id comes again, after
-- fewer than 4096 deliveries with other ids, that delivery is a duplicate exactly if it comes no
-- more than 24 hours after the first.
pub redelivery_detected :
    (st : WebhookState) (d d' : Delivery) (t t' : ℕ) (ds : List (Delivery × ℕ))
    → IsValid st
    → d.id ≢ []
    → d'.id ≡ d.id
    → lookup d.id st.seen ≡ none
    → length ds < webhook_max_tracked
    → NoneNamed d.id ds
    → ((observe d t st).1.0 ≡ false)
      × ((observe d' t' (observe_all (observe d t st).0 ds)).1.0
          ≡ leb (elapsed t' t) webhook_dedupe_window)
unfolding observe
redelivery_detected st d d' t t' ds h named same new few others =
    let s = (observe_id d.id t st).0 in
    let (o, e) = observe_resource-ids d.resource d.event_ts s in
    let held : Remembers d.id t 0 (observe d t st).0 =
      rw (o, e) (observe_id_new d.id t st named new h) in
    let seen =
      observe_all-Remembers d.id t 0 ds (observe d t st).0 (omega (arith, few)) others held in
    (
      observe_id_unseen d.id t st new,
      ap (λ i. (observe_id i t' (observe_all (observe d t st).0 ds)).1) same
          ∙ observe_id_seen d.id t' t (observe_all (observe d t st).0 ds) named seen,
    )
