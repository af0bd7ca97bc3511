-- ===== src/Webhooks/Watermark.antt =====
-- Which deliveries are reported as out of order (internal/agent/webhooks.go, `observeDelivery`).
use pikopod.Base.{
  ℕ, suc, ◌+◌, ◌≤◌, ◌<◌, ◌≡◌, ◌≢◌, refl, ap, ◌∙◌, Bool, false, not, ◌&&◌, Option, none, some, List,
  [], ◌∷◌, ◌++◌, ◌==◌, arith, nat_beq, ltb, if◌then◌else◌, length, length-append, bytes_eq,
  bytes_beq_iff, Option-cases, inl, inr,
}
use pikopod.Base.Map.{Map, lookup, insert, lookup-insert}
use pikopod.Base.Bytes.{Bytes}
use pikopod.Webhooks.{
  WebhookState, Delivery, webhook_max_tracked, admit, observe_id, observe_resource, observe,
}
use pikopod.Webhooks.Order.{observe_all}

abbrev pub newer : ℕ → Option ℕ → ℕ
newer ts none = ts
newer ts (some last) = if ltb last ts then ts else last

-- The newest time of an event of the resource, of those that have a time: `known` and then `ds`.
abbrev pub newest : Bytes → Option ℕ → List (Delivery × ℕ) → Option ℕ
newest r known [] = known
newest r known ((d, now) ∷ ds) =
    newest r
      (if (d.resource == r) && not (nat_beq d.event_ts 0)
        then some (newer d.event_ts known)
        else known)
      ds

abbrev pub is_before : ℕ → Option ℕ → Bool
is_before ts none = false
is_before ts (some last) = ltb ts last

observe_id-resources :
    (id : Bytes) (now : ℕ) (st : WebhookState)
    → ((observe_id id now st).0.by_res ≡ st.by_res)
      × ((observe_id id now st).0.last_ts ≡ st.last_ts)
unfolding observe_id
observe_id-resources id now st = elim (Option-cases (lookup id st.seen)) [
  | inl e ↦ rw e (ground arith, ground arith)
  | inr (last, e) ↦ rw e (ground arith, ground arith)
]

admit_room :
    (k : Bytes) (v : ℕ) (order : List Bytes) (m : Map Bytes ℕ)
    → length order < webhook_max_tracked
    → ((admit k v order m).1 ≡ insert k v m) × (length (admit k v order m).0 ≡ suc (length order))
unfolding admit
admit_room k v [] m h = (refl, refl)
admit_room k v (first ∷ order) m h =
    let room : ltb webhook_max_tracked (length (first ∷ order ++ k ∷ [])) ≡ false =
      ground (arith, length-append order (k ∷ [])) in
    rw room (refl, ground (arith, length-append order (k ∷ [])))

observe_resource_lem :
    (r other : Bytes) (ts : ℕ) (st : WebhookState)
    → other ≢ []
    → length st.by_res < webhook_max_tracked
    → (lookup other (observe_resource r ts st).0.last_ts ≡ (
        if (r == other) && not (nat_beq ts 0)
        then some (newer ts (lookup other st.last_ts))
        else lookup other st.last_ts))
      × (length (observe_resource r ts st).0.by_res ≤ suc (length st.by_res))
unfolding observe_resource
observe_resource_lem r other ts st ne room = elim (Option-cases (lookup r st.last_ts)) [
  | inl e ↦
      let (m, l) = admit_room r ts st.by_res st.last_ts room in
      rw e (
        ground (
          arith,
          e,
          m,
          lookup-insert r other ts st.last_ts,
          bytes_beq_iff r other,
          bytes_beq_iff r [],
          ap (λ x. lookup x st.last_ts),
        ),
        ground (arith, l),
      )
  | inr (last, e) ↦ rw e (
    ground (
      arith,
      e,
      lookup-insert r other ts st.last_ts,
      bytes_beq_iff r other,
      bytes_beq_iff r [],
      ap (λ x. lookup x st.last_ts),
    ),
    ground arith,
  )
]

observe_lem :
    (r : Bytes) (d : Delivery) (now : ℕ) (st : WebhookState)
    → r ≢ []
    → length st.by_res < webhook_max_tracked
    → (lookup r (observe d now st).0.last_ts ≡ (
        if (d.resource == r) && not (nat_beq d.event_ts 0)
        then some (newer d.event_ts (lookup r st.last_ts))
        else lookup r st.last_ts))
      × (length (observe d now st).0.by_res ≤ suc (length st.by_res))
unfolding observe
observe_lem r d now st ne room =
    let (o, m) = observe_id-resources d.id now st in
    let h =
      observe_resource_lem d.resource r d.event_ts (observe_id d.id now st).0 ne
        (ground (arith, o, room)) in
    (ground (arith, h, m), ground (arith, h, o))

observe_all-newest :
    (r : Bytes) (ds : List (Delivery × ℕ)) (st : WebhookState)
    → r ≢ []
    → length st.by_res + length ds ≤ webhook_max_tracked
    → lookup r (observe_all st ds).last_ts ≡ newest r (lookup r st.last_ts) ds
observe_all-newest r [] st ne room = refl
observe_all-newest r ((d, now) ∷ ds) st ne room =
    let h = observe_lem r d now st ne (omega (arith, room)) in
    observe_all-newest r ds (observe d now st).0 ne (omega (arith, room, h.1))
    ∙ ap (λ k. newest r k ds) h.0

late_lem :
    (r : Bytes) (ts : ℕ) (st : WebhookState)
    → r ≢ []
    → (observe_resource r ts st).1 ≡ not (nat_beq ts 0) && is_before ts (lookup r st.last_ts)
unfolding observe_resource
late_lem r ts st ne = elim (Option-cases (lookup r st.last_ts)) [
  | inl e ↦ rw e (ground (arith, bytes_beq_iff r []))
  | inr (last, e) ↦ rw e (ground (arith, bytes_beq_iff r []))
]

-- A delivery for a resource is out of order exactly if its event has a time, and that is before the
-- newest time among the deliveries for the resource that came before; as long as not so many came
-- that the memory of resources was full.
pub late_detected :
    (ds : List (Delivery × ℕ)) (d : Delivery) (now : ℕ) (st : WebhookState)
    → d.resource ≢ []
    → length st.by_res + length ds ≤ webhook_max_tracked
    → (observe d now (observe_all st ds)).1.1
      ≡ not (nat_beq d.event_ts 0)
        && is_before d.event_ts (newest d.resource (lookup d.resource st.last_ts) ds)
unfolding observe
late_detected ds d now st ne room =
    let s = observe_all st ds in
    late_lem d.resource d.event_ts (observe_id d.id now s).0 ne
    ∙ ap (λ m. not (nat_beq d.event_ts 0) && is_before d.event_ts (lookup d.resource m))
        (observe_id-resources d.id now s).1
    ∙ ap (λ k. not (nat_beq d.event_ts 0) && is_before d.event_ts k)
        (observe_all-newest d.resource ds st ne room)
