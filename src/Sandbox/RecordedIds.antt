-- ===== src/Sandbox/RecordedIds.antt =====
-- internal/sandbox/recorded_ids.go: identifiers seen in recordings, resolved to stored resources.
-- The table of the SQL store is an interface: what its three statements do to the rows.
pub mod Lru
pub mod Rewrite
use pikopod.Base.{
  ℕ, ◌+◌, ◌≡◌, Bool, true, false, not, ◌&&◌, ◌||◌, Option, none, some, List, [], ◌∷◌, ◌==◌, leb,
  ltb, nat_beq, if◌then◌else◌, length, bytes_eq,
}
use pikopod.Base.Map.{Map, IsMap, lookup, insert, delete, has}
use pikopod.Base.Map.Oldest.{oldest}
use pikopod.Base.Bytes.{Bytes, slash, split, join}
use pikopod.Base.Json.{Json, Items, Members, null, bool, num, str, arr, obj, nil, cons, end, member}

pub record RecordedId : Type 0 where
  pub typ : Bytes
  pub key : Bytes
  pub seq : ℕ

-- `PutRecordedID`, `RemoveRecordedID` and `ListRecordedIDs` of the store for one sandbox, each of which
-- may fail; a statement that fails changes nothing. `rows` is what the table holds.
pub record IdTable : Type 1 where
  pub Table : Type 0
  pub put : Table → Bytes → RecordedId → Option Table
  pub remove : Table → Bytes → Option Table
  pub list_rows : Table → Option (Map Bytes RecordedId)
  pub rows : Table → Map Bytes RecordedId
  pub rows-IsMap : (t : Table) → IsMap (rows t)
  pub list-rows : (t : Table) (m : Map Bytes RecordedId) → list_rows t ≡ some m → m ≡ rows t
  pub lookup-put :
      (t t' : Table) (k j : Bytes) (v : RecordedId)
      → put t k v ≡ some t'
      → lookup j (rows t') ≡ (if k == j then some v else lookup j (rows t))
  pub lookup-remove :
      (t t' : Table) (k j : Bytes)
      → remove t k ≡ some t'
      → lookup j (rows t') ≡ (if k == j then none else lookup j (rows t))

abbrev pub max_recorded_ids : ℕ
max_recorded_ids = 4096

module _ (store : IdTable) where
  open store use {Table}

  pub record RecordedIds : Type 0 where
    pub by_token : Map Bytes RecordedId
    pub seq : ℕ
    pub table : Table

abbrev pub max_seq : ℕ → Map Bytes RecordedId → ℕ
max_seq n [] = n
max_seq n ((t, r) ∷ m) = max_seq (if ltb n r.seq then r.seq else n) m

unfoldable pub insert_rows : Map Bytes RecordedId → Map Bytes RecordedId → Map Bytes RecordedId
unfolding insert
insert_rows m [] = m
insert_rows m ((t, r) ∷ rest) = insert_rows (insert t r m) rest

module _ (store : IdTable) where
  open store use {Table, put, remove, list_rows}

  -- `loadRecordedIDs`; a table that cannot be read leaves the map empty.
  unfoldable pub load_recorded_ids : Table → RecordedIds store
  unfolding insert_rows
  load_recorded_ids t = elim (list_rows t) [
    | none ↦ record { by_token = []; seq = 0; table = t }
    | some m ↦ record { by_token = insert_rows [] m; seq = max_seq 0 m; table = t }
  ]

  -- `forgetRecordedIDs`
  unfoldable pub forget_recorded_ids : RecordedIds store → RecordedIds store
  forget_recorded_ids s = record s { by_token = []; seq = 0 }

  -- The token that has to make room for a new one, where the map is full.
  abbrev pub is_full : RecordedIds store → Bytes → Bool
  is_full s token = not (has token s.by_token) && leb max_recorded_ids (length s.by_token)

  unfoldable pub id_victim : RecordedIds store → Bytes
  unfolding oldest
  id_victim s = oldest (λ (r : RecordedId). r.seq) [] 0 s.by_token

  -- The table after a write, whose error is not looked at.
  abbrev pub or_kept : Table → Option Table → Table
  or_kept t none = t
  or_kept t (some t') = t'

  abbrev pub evicted_table : RecordedIds store → Bytes → Table
  evicted_table s token =
      if is_full s token then or_kept s.table (remove s.table (id_victim s)) else s.table

  -- `rememberRecordedID`
  unfoldable pub remember_recorded_id :
      RecordedIds store → Bytes → Bytes → Bytes → RecordedIds store
  unfolding id_victim insert delete has
  remember_recorded_id s token typ key =
      let full = is_full s token in
      let kept = if full then delete (id_victim s) s.by_token else s.by_token in
      let table = evicted_table s token in
      let r : RecordedId = record { typ = typ; key = key; seq = s.seq + 1 } in
      if (token == []) || ((key == []) || (token == key)) then s else record {
        by_token = insert token r kept;
        seq = s.seq + 1;
        table = or_kept table (put table token r);
      }

-- The loop over the segments of a path: the new segments, and how many were resolved.
unfoldable pub rewrite_segments : Map Bytes RecordedId → List Bytes → List Bytes × ℕ
unfolding lookup
rewrite_segments m [] = ([], 0)
rewrite_segments m (s ∷ ss) =
    let (rest, n) = rewrite_segments m ss in
    elim (lookup s m) [ none ↦ (s ∷ rest, n) | some r ↦ (r.key ∷ rest, n + 1) ]

-- The path's part of `rewriteRecordedIDs`.
unfoldable pub rewrite_path : Map Bytes RecordedId → Bytes → Bytes × ℕ
unfolding rewrite_segments split join
rewrite_path m inner_path =
    let (segments, n) = rewrite_segments m (split slash inner_path) in
    if nat_beq (length m) 0
    then (inner_path, 0)
    else (if ltb 0 n then join slash segments else inner_path, n)

-- `rewriteRecordedIDsIn`: the new value, and how many strings in it were resolved.
unfoldable mutual
  pub rewrite_value : Map Bytes RecordedId → Json → Json × ℕ
  rewrite_value m null = (null, 0)
  rewrite_value m (bool b) = (bool b, 0)
  rewrite_value m (num n) = (num n, 0)
  rewrite_value m (str s) = elim (lookup s m) [ none ↦ (str s, 0) | some r ↦ (str r.key, 1) ]
  rewrite_value m (arr xs) = let (ys, n) = rewrite_items m xs in (arr ys, n)
  rewrite_value m (obj fs) = let (gs, n) = rewrite_members m fs in (obj gs, n)

  pub rewrite_items : Map Bytes RecordedId → Items → Items × ℕ
  rewrite_items m nil = (nil, 0)
  rewrite_items m (cons x xs) =
      let (y, n) = rewrite_value m x in let (ys, k) = rewrite_items m xs in (cons y ys, n + k)

  pub rewrite_members : Map Bytes RecordedId → Members → Members × ℕ
  rewrite_members m end = (end, 0)
  rewrite_members m (member k x fs) =
      let (y, n) = rewrite_value m x in let (gs, l) = rewrite_members m fs in (member k y gs, n + l)

-- `rewriteRecordedIDs`: the path, the body and how many identifiers were rewritten.
unfoldable pub rewrite_recorded_ids :
    Map Bytes RecordedId → Bytes → Option Json → Bytes × Option Json × ℕ
unfolding rewrite_path rewrite_value
rewrite_recorded_ids m inner_path body =
    let (path, n) = rewrite_path m inner_path in
    if nat_beq (length m) 0 then (inner_path, body, 0) else elim body [
      | none ↦ (path, none, n)
      | some v ↦ let (w, k) = rewrite_value m v in (path, some w, n + k)
    ]
