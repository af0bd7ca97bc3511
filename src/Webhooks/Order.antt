-- ===== src/Webhooks/Order.antt =====
-- The bounded memory of a webhook's state: a map and the order in which its keys came
-- (internal/agent/webhooks.go).
use pikopod.Base.{
  ℕ, ◌≤◌, ◌≡◌, refl, sym, ap, ◌∙◌, Bool, true, false, not, ◌&&◌, ◌||◌, none, List, [], ◌∷◌, ◌++◌,
  ◌==◌, arith, nat_beq, leb, ltb, length, length-append, bytes_eq, bytes_beq_iff, Bool-cases,
  Option-cases, inl, inr,
}
use pikopod.Base.Map.{
  Map, lookup, has, insert, delete, has-insert, has-delete, has-lookup, has-lookup-some,
}
use pikopod.Base.Bytes.{Bytes}
use pikopod.Base.Time.{elapsed}
use pikopod.Webhooks.{
  webhook_dedupe_window, WebhookState, Delivery, webhook_max_tracked, admit, observe_id,
  observe_resource, observe,
}

abbrev pub listed : Bytes → List Bytes → Bool
listed k [] = false
listed k (x ∷ xs) = (x == k) || listed k xs

abbrev pub IsDistinct : List Bytes → Type 0
IsDistinct [] = Unit
IsDistinct (x ∷ xs) = (listed x xs ≡ false) × IsDistinct xs

-- The order names each key of the map, once, and there are not too many.
pub record IsOrderOf (order : List Bytes) (m : Map Bytes ℕ) : Type 0 where
  pub bounded : length order ≤ webhook_max_tracked
  pub distinct : IsDistinct order
  pub same : (k : Bytes) → has k m ≡ listed k order

listed-append : (k j : Bytes) (xs : List Bytes) → listed j (xs ++ k ∷ []) ≡ listed j xs || (k == j)
listed-append k j [] = ground arith
listed-append k j (x ∷ xs) = ground (arith, listed-append k j xs)

append-IsDistinct :
    (k : Bytes) (xs : List Bytes) → listed k xs ≡ false → IsDistinct xs → IsDistinct (xs ++ k ∷ [])
append-IsDistinct k [] n h = (refl, tt)
append-IsDistinct k (x ∷ xs) n h = (
  ground (arith, listed-append k x xs, h.0, bytes_beq_iff x k, bytes_beq_iff k x),
  append-IsDistinct k xs (ground arith) h.1,
)

listed_out :
    (first j : Bytes) (order : List Bytes)
    → listed first order ≡ false
    → listed j order ≡ not (first == j) && listed j (first ∷ order)
listed_out first j order n = ground (arith, bytes_beq_iff first j, ap (λ x. listed x order))

pub admit-IsOrderOf :
    (k : Bytes) (v : ℕ) (order : List Bytes) (m : Map Bytes ℕ)
    → listed k order ≡ false
    → IsOrderOf order m
    → IsOrderOf (admit k v order m).0 (admit k v order m).1
unfolding admit
admit-IsOrderOf k v [] m n h = record {
  bounded = omega arith;
  distinct = (refl, tt);
  same = λ j. ground (arith, has-insert k j v m, h.same j);
}
admit-IsOrderOf k v (first ∷ order) m n h =
    elim (Bool-cases (ltb webhook_max_tracked (length (first ∷ order ++ k ∷ [])))) [
      | inl full ↦ rw full (record {
        bounded = ground (arith, length-append order (k ∷ []), h.bounded);
        distinct = append-IsDistinct k order (ground arith) h.distinct.1;
        same = λ j. ground (
          arith,
          has-insert k j v (delete first m),
          has-delete first j m,
          h.same j,
          listed-append k j order,
          listed_out first j order h.distinct.0,
        );
      })
      | inr room ↦ rw room (record {
        bounded = ground (arith, length-append order (k ∷ []), h.bounded);
        distinct = append-IsDistinct k (first ∷ order) n h.distinct;
        same = λ j. ground (arith, has-insert k j v m, h.same j, listed-append k j (first ∷ order));
      })
    ]

insert-IsOrderOf :
    (k : Bytes) (v : ℕ) (order : List Bytes) (m : Map Bytes ℕ)
    → has k m ≡ true
    → IsOrderOf order m
    → IsOrderOf order (insert k v m)
insert-IsOrderOf k v order m e h = record {
  bounded = h.bounded;
  distinct = h.distinct;
  same = λ j.
      ground (arith, has-insert k j v m, h.same j, h.same k, bytes_beq_iff k j, ap (λ x. has x m));
}

pub record IsValid (st : WebhookState) : Type 0 where
  pub ids : IsOrderOf st.order st.seen
  pub resources : IsOrderOf st.by_res st.last_ts

pub not_listed :
    (k : Bytes) (order : List Bytes) (m : Map Bytes ℕ)
    → lookup k m ≡ none
    → IsOrderOf order m
    → listed k order ≡ false
not_listed k order m e h = sym (h.same k) ∙ has-lookup k m e

observe_id-IsValid :
    (id : Bytes) (now : ℕ) (st : WebhookState) → IsValid st → IsValid (observe_id id now st).0
unfolding observe_id
observe_id-IsValid id now st h = elim (Bool-cases (id == [])) [
  | inl e ↦ rw e h
  | inr e ↦ rw e (elim (Option-cases (lookup id st.seen)) [
    | inl new ↦ rw new (record {
      ids =
          admit-IsOrderOf id now st.order st.seen (not_listed id st.order st.seen new h.ids) h.ids;
      resources = h.resources;
    })
    | inr (first, old) ↦ rw old (elim (Bool-cases (leb (elapsed now first) webhook_dedupe_window)) [
      | inl d ↦ rw d h
      | inr d ↦ rw d (record {
        ids = insert-IsOrderOf id now st.order st.seen (has-lookup-some id first st.seen old) h.ids;
        resources = h.resources;
      })
    ])
  ])
]

observe_resource-IsValid :
    (resource : Bytes) (ts : ℕ) (st : WebhookState)
    → IsValid st
    → IsValid (observe_resource resource ts st).0
unfolding observe_resource
observe_resource-IsValid resource ts st h = elim (Bool-cases ((resource == []) || nat_beq ts 0)) [
  | inl e ↦ rw e h
  | inr e ↦ rw e (elim (Option-cases (lookup resource st.last_ts)) [
    | inl new ↦ rw new (record {
      ids = h.ids;
      resources =
          admit-IsOrderOf resource ts st.by_res st.last_ts
            (not_listed resource st.by_res st.last_ts new h.resources) h.resources;
    })
    | inr (last, old) ↦ rw old (elim (Bool-cases (ltb ts last)) [
      | inl d ↦ rw d h
      | inr d ↦ rw d (elim (Bool-cases (ltb last ts)) [
        | inl d ↦ rw d (record {
          ids = h.ids;
          resources =
              insert-IsOrderOf resource ts st.by_res st.last_ts
                (has-lookup-some resource last st.last_ts old) h.resources;
        })
        | inr d ↦ rw d h
      ])
    ])
  ])
]

-- Deliveries one after the other, each with the time at which it came.
abbrev pub observe_all : WebhookState → List (Delivery × ℕ) → WebhookState
observe_all st [] = st
observe_all st ((d, now) ∷ ds) = observe_all (observe d now st).0 ds

-- Whatever deliveries come, the memory of ids and that of resources stay in order: each key of the
-- map stands in the order once, nothing else does, and there are at most 4096 of each.
pub observe_all-IsValid :
    (ds : List (Delivery × ℕ)) (st : WebhookState) → IsValid st → IsValid (observe_all st ds)
unfolding observe
observe_all-IsValid [] st h = h
observe_all-IsValid ((d, now) ∷ ds) st h = observe_all-IsValid ds (observe d now st).0 (
    observe_resource-IsValid d.resource d.event_ts (observe_id d.id now st).0
      (observe_id-IsValid d.id now st h))
