-- ===== src/Sandbox/Seeding.antt =====
-- internal/sandbox/scenario_surface.go, `SeedResource`, with `quotaGuard` of handler.go. The tables of
-- the store are SQL statements of a database: `ResourceTable` names those that are used, with what
-- they promise.
use pikopod.Base.{
  ℕ, ◌+◌, ◌≤◌, ◌≡◌, ap, false, ◌||◌, Option, none, some, [], ◌==◌, arith, ltb, if◌then◌else◌,
  length, bytes_eq, Option-cases, inl, inr,
}
use pikopod.Base.Bytes.{Bytes}

-- `Totals` and `Insert`; `none` is an error of the database.
pub record ResourceTable (D : Type 0) : Type 0 where
  pub totals : D → Option (ℕ × ℕ)
  pub insert_row : D → Bytes → Bytes → Bytes → ℕ → Option D

-- A row that was inserted counts, with the size of its attributes.
pub record CountsRows (D : Type 0) (t : ResourceTable D) : Type 0 where
  pub counts :
      (d after : D) (typ key attributes : Bytes) (now n size : ℕ)
      → t.insert_row d typ key attributes now ≡ some after
      → t.totals d ≡ some (n, size)
      → t.totals after ≡ some (n + 1, size + length attributes)

pub record QuotaLimits : Type 0 where
  pub max_resources : ℕ
  pub max_storage_bytes : ℕ
  pub max_resource_bytes : ℕ

pub data SeedError : Type 0 where
  empty_key database quota_exceeded : SeedError

pub data Seeded (D : Type 0) : Type 0 where
  refused : SeedError → Seeded D
  seeded : D → Seeded D

-- `quotaGuard`: the status of the refusal
unfoldable pub quota_guard : QuotaLimits → ℕ → ℕ → ℕ → Option ℕ
quota_guard q resource_bytes count bytes =
    if ltb q.max_resource_bytes resource_bytes
    then some 413
    else if ltb q.max_resources count || ltb q.max_storage_bytes bytes
    then some 507
    else none

module _ {D : Type 0} (t : ResourceTable D) (q : QuotaLimits) (now : ℕ) where
  abbrev or_database : Option D → Seeded D
  or_database none = refused database
  or_database (some d) = seeded d

  abbrev within_quota : D → Bytes → Bytes → Bytes → Option (ℕ × ℕ) → Seeded D
  within_quota d typ key attributes none = refused database
  within_quota d typ key attributes (some (n, size)) =
      elim (quota_guard q (length attributes) (n + 1) (size + length attributes)) [
        | some status ↦ refused quota_exceeded
        | none ↦ or_database (t.insert_row d typ key attributes now)
      ]

  -- `SeedResource`
  unfoldable pub seed_resource : D → Bytes → Bytes → Bytes → Seeded D
  unfolding quota_guard
  seed_resource d typ key attributes =
      if key == [] then refused empty_key else within_quota d typ key attributes (t.totals d)

  -- The table is within the quota.
  abbrev pub WithinQuota : D → Type 0
  WithinQuota d =
      (n : ℕ) × (size : ℕ) × (t.totals d ≡ some (n, size))
      × (n ≤ q.max_resources)
      × (size ≤ q.max_storage_bytes)

  within_quota-WithinQuota :
      (h : CountsRows D t) (d after : D) (typ key attributes : Bytes)
      → within_quota d typ key attributes (t.totals d) ≡ seeded after
      → WithinQuota after
  unfolding quota_guard
  within_quota-WithinQuota h d after typ key attributes e = elim (Option-cases (t.totals d)) [
    | inl f ↦ absurd (ground (arith, e, ap (within_quota d typ key attributes) f))
    | inr ((n, size), f) ↦ elim (Option-cases (t.insert_row d typ key attributes now)) [
      | inl g ↦
          absurd (ground (arith, e, ap (within_quota d typ key attributes) f, ap or_database g))
      | inr (d', g) ↦
          let e' = ap (within_quota d typ key attributes) f in
          (
            n + 1,
            size + length attributes,
            ground (
              arith,
              e,
              e',
              ap or_database g,
              h.counts d d' typ key attributes now n size g f,
              ap t.totals,
            ),
            ground (arith, e, e'),
            ground (arith, e, e'),
          )
    ]
  ]

  -- A resource is seeded only under a key that is not empty, and then the table is within the quota.
  pub seed_resource_lem :
      (h : CountsRows D t) (d after : D) (typ key attributes : Bytes)
      → seed_resource d typ key attributes ≡ seeded after
      → ((key == []) ≡ false) × WithinQuota after
  unfolding seed_resource
  seed_resource_lem h d after typ key attributes e =
      (ground (arith, e), within_quota-WithinQuota h d after typ key attributes (ground (arith, e)))
