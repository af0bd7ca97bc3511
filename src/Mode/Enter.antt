-- ===== src/Mode/Enter.antt =====
-- internal/mode/mode.go, `Apply`: a sandbox is put into a mode.
use pikopod.Base.{
  ℕ, ◌≡◌, refl, sym, ap, ◌∙◌, Bool, true, false, ◌||◌, Option, none, some, List, [], ◌∷◌, ◌++◌,
  ◌==◌, arith, if◌then◌else◌, bytes_eq, Bool-cases, Option-cases, inl, inr, append_assoc,
  append-nil, filter_by,
}
use pikopod.Base.Bytes.{Bytes}
use pikopod.Base.Json.{Json}
use pikopod.Sandbox.Faults.{FaultRule, clear_faults, arm_fault, clears}
use pikopod.Sandbox.Faults.Clear.{keeps, held_all, clear_faults_lem}
use pikopod.Sandbox.Deliveries.{Outbox, append_all}
use pikopod.Sandbox.Seeding.{
  ResourceTable, CountsRows, QuotaLimits, SeedError, empty_key, Seeded, refused, seeded,
  seed_resource, WithinQuota, seed_resource_lem,
}
use pikopod.Scenario.{SeedResource, or_empty}
use pikopod.Mode.{Spec}

-- What a mode changes of the engine.
pub record Engine (D : Type 0) : Type 0 where
  pub faults : List FaultRule
  pub outbox : Outbox
  pub store : D

pub data ApplyError : Type 0 where
  not_serializable : ApplyError
  cannot_seed : SeedError → ApplyError

unfoldable pub arm_all : List FaultRule → List FaultRule → List FaultRule
unfolding arm_fault
arm_all faults [] = faults
arm_all faults (f ∷ fs) = arm_all (arm_fault faults f) fs

module _ {D : Type 0} (marshal : Json → Option Bytes) (t : ResourceTable D) (q : QuotaLimits)
    (now : ℕ) where
  abbrev after_seed : D → (D → D × Option ApplyError) → Seeded D → D × Option ApplyError
  after_seed d rest (refused e) = (d, some (cannot_seed e))
  after_seed d rest (seeded d') = rest d'

  -- The loop over the seeds, with its error.
  unfoldable pub seed_all : D → List SeedResource → D × Option ApplyError
  unfolding seed_resource
  seed_all d [] = (d, none)
  seed_all d (r ∷ rs) = elim (marshal r.attributes) [
    | none ↦ (d, some not_serializable)
    | some raw ↦
        after_seed d (λ d'. seed_all d' rs)
          (seed_resource t q now d r.type (or_empty r.resource_key) raw)
  ]

  -- `Apply`
  unfoldable pub apply : Engine D → Spec → Engine D × Option ApplyError
  unfolding clear_faults seed_all arm_all
  apply eng spec =
      let (faults, outbox, removed) = clear_faults eng.faults eng.outbox [] [] in
      let (store, error) = seed_all eng.store spec.seeds in
      (
        record {
          faults = elim error [ none ↦ arm_all faults spec.faults | some e ↦ faults ];
          outbox = outbox;
          store = store;
        },
        error,
      )

  -- Some resource of the list comes without a key, or with an empty one.
  abbrev pub lacks_key : List SeedResource → Bool
  lacks_key [] = false
  lacks_key (r ∷ rs) = (or_empty r.resource_key == []) || lacks_key rs

  abbrev pub is_error : Option ApplyError → Bool
  is_error none = false
  is_error (some e) = true

  seed_resource-empty :
      (d : D) (typ key attributes : Bytes)
      → (key == []) ≡ true
      → seed_resource t q now d typ key attributes ≡ refused empty_key
  unfolding seed_resource
  seed_resource-empty d typ key attributes e = rw e refl

  still_fails :
      (d : D) (rs : List SeedResource) (out : Seeded D)
      → ((d' : D) → is_error (seed_all d' rs).1 ≡ true)
      → is_error (after_seed d (λ d'. seed_all d' rs) out).1 ≡ true
  still_fails d rs (refused e) rest = refl
  still_fails d rs (seeded d') rest = rest d'

  seed_all-keys :
      (d : D) (rs : List SeedResource) → lacks_key rs ≡ true → is_error (seed_all d rs).1 ≡ true
  unfolding seed_all
  seed_all-keys d [] h = absurd (ground (arith, h))
  seed_all-keys d (r ∷ rs) h = elim (Option-cases (marshal r.attributes)) [
    | inl e ↦ rw (e, seed_all) refl
    | inr (raw, e) ↦ elim (Bool-cases (or_empty r.resource_key == [])) [
      | inl k ↦ rw (e, seed_resource-empty d r.type (or_empty r.resource_key) raw k, seed_all) refl
      | inr k ↦
          rw (e, seed_all)
            (still_fails d rs (seed_resource t q now d r.type (or_empty r.resource_key) raw)
              (λ d'. seed_all-keys d' rs (ground (arith, h, k))))
    ]
  ]

  seeded_or_not :
      (h : CountsRows D t) (d : D) (rs : List SeedResource)
      → WithinQuota t q now d
      → (typ key raw : Bytes)
      → ((d' : D) → WithinQuota t q now d' → WithinQuota t q now (seed_all d' rs).0)
      → (out : Seeded D) → seed_resource t q now d typ key raw ≡ out
      → WithinQuota t q now (after_seed d (λ d'. seed_all d' rs) out).0
  seeded_or_not h d rs w typ key raw rest (refused e) f = w
  seeded_or_not h d rs w typ key raw rest (seeded d') f =
      rest d' (seed_resource_lem t q now h d d' typ key raw f).1

  seed_all-WithinQuota :
      (h : CountsRows D t) (d : D) (rs : List SeedResource)
      → WithinQuota t q now d
      → WithinQuota t q now (seed_all d rs).0
  unfolding seed_all
  seed_all-WithinQuota h d [] w = w
  seed_all-WithinQuota h d (r ∷ rs) w = elim (Option-cases (marshal r.attributes)) [
    | inl e ↦ rw (e, seed_all) w
    | inr (raw, e) ↦
        rw (e, seed_all)
          (seeded_or_not h d rs w r.type (or_empty r.resource_key) raw
            (λ d' v. seed_all-WithinQuota h d' rs v)
            (seed_resource t q now d r.type (or_empty r.resource_key) raw) refl)
  ]

  clear_all :
      (fs : List FaultRule) → (filter_by (keeps [] []) fs ≡ []) × (filter_by (clears [] []) fs ≡ fs)
  clear_all [] = (refl, refl)
  clear_all (f ∷ fs) = let (a, b) = clear_all fs in (a, ap (λ l. f ∷ l) b)

  arm_all-append : (faults fs : List FaultRule) → arm_all faults fs ≡ faults ++ fs
  unfolding arm_all arm_fault
  arm_all-append faults [] = sym (append-nil faults)
  arm_all-append faults (f ∷ fs) =
      arm_all-append (faults ++ f ∷ []) fs ∙ append_assoc faults (f ∷ []) fs

  -- Entering a mode gives the sandbox exactly the faults of the mode, whatever was armed before, or none
  -- where it fails; the webhooks that the faults before held back are delivered in order.
  pub apply-faults :
      (eng : Engine D) (spec : Spec)
      → ((apply eng spec).0.faults ≡ (if is_error (apply eng spec).1 then [] else spec.faults))
        × ((apply eng spec).0.outbox ≡ append_all eng.outbox (held_all eng.faults))
  unfolding apply
  apply-faults eng spec =
      let (kept, out, removed, tallies) = clear_faults_lem eng.faults eng.outbox [] [] in
      let (none_kept, all_cleared) = clear_all eng.faults in
      (
        elim (Option-cases (seed_all eng.store spec.seeds).1) [
          | inl e ↦ rw (e, kept ∙ none_kept, apply) (arm_all-append [] spec.faults)
          | inr (x, e) ↦ rw (e, kept ∙ none_kept, apply) refl
        ],
        out ∙ ap (λ l. append_all eng.outbox (held_all l)) all_cleared,
      )

  -- A mode with a resource that has no key cannot be entered: the sandbox is left without faults and
  -- with an error.
  pub apply-lacks_key :
      (eng : Engine D) (spec : Spec)
      → lacks_key spec.seeds ≡ true
      → (is_error (apply eng spec).1 ≡ true) × ((apply eng spec).0.faults ≡ [])
  unfolding apply
  apply-lacks_key eng spec h =
      let e = seed_all-keys eng.store spec.seeds h in
      (e, (apply-faults eng spec).0 ∙ ap (λ b. if b then [] else spec.faults) e)

  -- Entering a mode, with an error or not, leaves the resources of the sandbox within its quota.
  pub apply-WithinQuota :
      (h : CountsRows D t) (eng : Engine D) (spec : Spec)
      → WithinQuota t q now eng.store
      → WithinQuota t q now (apply eng spec).0.store
  unfolding apply
  apply-WithinQuota h eng spec w = seed_all-WithinQuota h eng.store spec.seeds w
