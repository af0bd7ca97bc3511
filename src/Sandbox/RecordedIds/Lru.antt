-- ===== src/Sandbox/RecordedIds/Lru.antt =====
-- The map of recorded identifiers is bounded, and the store's table mirrors it
-- (internal/sandbox/recorded_ids.go, `rememberRecordedID`, `loadRecordedIDs`).
use pikopod.Base.{
  Option, some, List, Bool, not, ◌&&◌, ap, ◌∙◌, Option-cases, ◌+◌, ◌≤◌, ◌≡◌, ◌≢◌, refl, sym, true,
  false, ◌||◌, none, [], ◌∷◌, ◌==◌, arith, leb, leb→le, if◌then◌else◌, length, bytes_eq,
  bytes_beq_iff, Bool-cases, inl, inr, All, subst, or_else,
}
use pikopod.Base.Map.{
  Map, IsMap, lookup, insert, delete, has, lookup-insert, lookup-delete, length-insert,
  length-delete-has, lookup-has, has-lookup-some, insert-IsMap, delete-IsMap, All-insert,
  All-delete,
}
use pikopod.Base.Map.Oldest.{oldest, oldest_lem, KeysNonempty}
use pikopod.Base.Bytes.{Bytes}
use pikopod.Sandbox.RecordedIds.{
  RecordedId, IdTable, RecordedIds, max_recorded_ids, insert_rows, load_recorded_ids, is_full,
  id_victim, evicted_table, remember_recorded_id,
}

lookup-insert_rows :
    (j : Bytes) (m rows : Map Bytes RecordedId)
    → IsMap rows
    → lookup j (insert_rows m rows) ≡ or_else (lookup j rows) (lookup j m)
unfolding insert_rows lookup
lookup-insert_rows j m [] h = ground arith
lookup-insert_rows j m ((t, r) ∷ rest) h = ground (
  arith,
  lookup-insert_rows j (insert t r m) rest h.1,
  lookup-insert t j r m,
  bytes_beq_iff t j,
  lookup-has j rest,
)

module _ (store : IdTable) where
  -- The table of the store has the rows that the map has.
  abbrev pub Mirrors : RecordedIds store → Type 0
  Mirrors s = (j : Bytes) → lookup j s.by_token ≡ lookup j (store.rows s.table)

  pub record IsValid (s : RecordedIds store) : Type 0 where
    pub bounded : length s.by_token ≤ max_recorded_ids
    pub keyed : IsMap s.by_token
    pub named : KeysNonempty (λ (r : RecordedId). r.seq) s.by_token

  abbrev is_written : Option store.Table → Bool
  is_written none = false
  is_written (some t) = true

  -- No write of the call fails: that of the new row, and that which removes the victim's.
  abbrev pub writes_succeed : RecordedIds store → Bytes → Bytes → Bytes → Bool
  writes_succeed s token typ key =
      (not (is_full store s token) || is_written (store.remove s.table (id_victim store s)))
      && is_written (
          store.put (evicted_table store s token) token
            (record { typ = typ; key = key; seq = s.seq + 1 }))

  evicted_table_lem :
      (s : RecordedIds store) (token j : Bytes)
      → not (is_full store s token) || is_written (store.remove s.table (id_victim store s)) ≡ true
      → lookup j (store.rows (evicted_table store s token)) ≡ (
          if is_full store s token && (id_victim store s == j)
          then none
          else lookup j (store.rows s.table))
  evicted_table_lem s token j ok =
      let v = id_victim store s in
      elim (Bool-cases (is_full store s token)) [
        | inr room ↦ rw room refl
        | inl full ↦ elim (Option-cases (store.remove s.table v)) [
          | inl e ↦ absurd (ground (arith, ok, full, e))
          | inr (t, e) ↦ rw (full, e) (store.lookup-remove s.table t v j e)
        ]
      ]

  remember-mirrored :
      (s : RecordedIds store) (token typ key : Bytes)
      → Mirrors s
      → writes_succeed s token typ key ≡ true
      → Mirrors (remember_recorded_id store s token typ key)
  unfolding remember_recorded_id
  remember-mirrored s token typ key h ok j =
      let r : RecordedId = record { typ = typ; key = key; seq = s.seq + 1 } in
      let v = id_victim store s in
      let t = evicted_table store s token in
      elim (Option-cases (store.put t token r)) [
        | inl e ↦ absurd (ground (arith, ok, e))
        | inr (t', e) ↦ rw e (
            ground (
              arith,
              h j,
              lookup-insert token j r s.by_token,
              lookup-insert token j r (delete v s.by_token),
              lookup-delete v j s.by_token,
              store.lookup-put t t' token j r e,
              evicted_table_lem s token j (ground (arith, ok)),
            ))
      ]

  remember-bounded :
      (s : RecordedIds store) (token typ key : Bytes)
      → IsValid s
      → length (remember_recorded_id store s token typ key).by_token ≤ max_recorded_ids
  unfolding remember_recorded_id
  remember-bounded s token typ key h =
      let r : RecordedId = record { typ = typ; key = key; seq = s.seq + 1 } in
      let v = oldest (λ (x : RecordedId). x.seq) [] 0 s.by_token in
      elim (Bool-cases (leb max_recorded_ids (length s.by_token))) [
        | inl full ↦
            let (w, e, least) =
              oldest_lem (λ (x : RecordedId). x.seq) s.by_token (omega (arith, leb→le _ _ full))
                h.named h.keyed in
            ground (
              arith,
              length-insert token r s.by_token,
              length-insert token r (delete v s.by_token),
              length-delete-has v s.by_token (has-lookup-some v w s.by_token e),
              h.bounded,
            )
        | inr room ↦ ground (arith, length-insert token r s.by_token, h.bounded)
      ]

  remember-All :
      (P : Bytes × RecordedId → Type 0) (s : RecordedIds store) (token typ key : Bytes)
      → (token ≢ [] → P (token, record { typ = typ; key = key; seq = s.seq + 1 }))
      → All P s.by_token
      → All P (remember_recorded_id store s token typ key).by_token
  unfolding remember_recorded_id
  remember-All P s token typ key p h =
      let r : RecordedId = record { typ = typ; key = key; seq = s.seq + 1 } in
      elim (Bool-cases ((token == []) || ((key == []) || (token == key)))) [
        | inl skip ↦ rw skip h
        | inr take ↦
            let q = p (λ e. cc (take, e, subst (λ (t : Bytes). (t == []) ≡ true) (sym e) refl)) in
            rw take
              (elim (is_full store s token)
                as (λ b. All P (
                  insert token r
                    (if b then delete (id_victim store s) s.by_token else s.by_token))) [
                      | true ↦
                          All-insert P token r (delete (id_victim store s) s.by_token) q
                            (All-delete P (id_victim store s) s.by_token h)
                      | false ↦ All-insert P token r s.by_token q h
                    ])
      ]

  remember-keyed :
      (s : RecordedIds store) (token typ key : Bytes)
      → IsValid s
      → IsMap (remember_recorded_id store s token typ key).by_token
  unfolding remember_recorded_id
  remember-keyed s token typ key h =
      let r : RecordedId = record { typ = typ; key = key; seq = s.seq + 1 } in
      let v = id_victim store s in
      ground (
        arith,
        h.keyed,
        insert-IsMap token r s.by_token h.keyed,
        insert-IsMap token r (delete v s.by_token) (delete-IsMap v s.by_token h.keyed),
      )

  -- Remembering an identifier, whatever the arguments and whether or not the store takes the writes,
  -- keeps the map within 4096 tokens, each once and none empty.
  pub remember-IsValid :
      (s : RecordedIds store) (token typ key : Bytes)
      → IsValid s
      → IsValid (remember_recorded_id store s token typ key)
  remember-IsValid s token typ key h = record {
    bounded = remember-bounded s token typ key h;
    keyed = remember-keyed s token typ key h;
    named = remember-All (λ (p : Bytes × RecordedId). p.0 ≢ []) s token typ key (λ ne. ne) h.named;
  }

  -- Remembering each of a list of identifiers, and whether every write succeeded.
  unfoldable pub remember_all :
      RecordedIds store → List (Bytes × Bytes × Bytes) → RecordedIds store × Bool
  remember_all s [] = (s, true)
  remember_all s ((token, typ, key) ∷ ids) =
      let (end, ok) = remember_all (remember_recorded_id store s token typ key) ids in
      (end, writes_succeed s token typ key && ok)

  remember_all-Mirrors :
      (s : RecordedIds store) (ids : List (Bytes × Bytes × Bytes))
      → Mirrors s
      → (remember_all s ids).1 ≡ true
      → Mirrors (remember_all s ids).0
  unfolding remember_all
  remember_all-Mirrors s [] h ok = h
  remember_all-Mirrors s ((token, typ, key) ∷ ids) h ok =
      remember_all-Mirrors (remember_recorded_id store s token typ key) ids
        (remember-mirrored s token typ key h (ground (arith, ok))) (ground (arith, ok))

  has-empty : (j : Bytes) → has {V = RecordedId} j [] ≡ false
  unfolding has
  has-empty j = refl

  -- A table that can be read is loaded as it stands.
  load-Mirrors :
      (t : store.Table) (m : Map Bytes RecordedId)
      → store.list_rows t ≡ some m
      → Mirrors (load_recorded_ids store t)
  unfolding load_recorded_ids
  load-Mirrors t m e j =
      let same = store.list-rows t m e in
      rw (e, load_recorded_ids)
        (lookup-insert_rows j [] m (subst IsMap (sym same) (store.rows-IsMap t))
          ∙ ground (arith, lookup-has {V = RecordedId} j [], ap (lookup j) same, has-empty j))

  load-table : (t : store.Table) → (load_recorded_ids store t).table ≡ t
  unfolding load_recorded_ids
  load-table t = ground arith

  -- Identifiers remembered after a start, evictions included, survive a restart: where the table can be
  -- read at both starts and no write between them fails, the map loaded at the second start answers
  -- every token as the map before it did.
  pub load-remembered :
      (t : store.Table) (m m' : Map Bytes RecordedId) (ids : List (Bytes × Bytes × Bytes))
      (j : Bytes)
      → store.list_rows t ≡ some m
      → (remember_all (load_recorded_ids store t) ids).1 ≡ true
      → store.list_rows (remember_all (load_recorded_ids store t) ids).0.table ≡ some m'
      → lookup j
          (load_recorded_ids store (remember_all (load_recorded_ids store t) ids).0.table).by_token
        ≡ lookup j (remember_all (load_recorded_ids store t) ids).0.by_token
  load-remembered t m m' ids j first ok again =
      let s = (remember_all (load_recorded_ids store t) ids).0 in
      load-Mirrors s.table m' again j
      ∙ ap (λ x. lookup j (store.rows x)) (load-table s.table)
      ∙ sym (remember_all-Mirrors (load_recorded_ids store t) ids (load-Mirrors t m first) ok j)
