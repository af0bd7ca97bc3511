-- ===== src/Sandbox/RecordedIds/Rewrite.antt =====
-- What rewriting recorded identifiers does (internal/sandbox/recorded_ids.go).
use pikopod.Base.{◌≡◌, refl, sym, ap, ◌∙◌, Option, none, some, List, [], ◌∷◌, arith, map, bytes_eq}
use pikopod.Base.Map.{Map, lookup}
use pikopod.Base.Bytes.{Bytes, slash, split, join, join-split}
use pikopod.Base.Json.{Json, Items, Members, null, bool, num, str, arr, obj, nil, cons, end, member}
use pikopod.Sandbox.RecordedIds.{
  RecordedId, rewrite_segments, rewrite_path, rewrite_value, rewrite_items, rewrite_members,
}

abbrev pub key_or : Bytes → Option RecordedId → Bytes
key_or s none = s
key_or s (some r) = r.key

-- What a segment stands for.
abbrev pub resolved : Map Bytes RecordedId → Bytes → Bytes
resolved m s = key_or s (lookup s m)

rewrite_segments-map :
    (m : Map Bytes RecordedId) (ss : List Bytes) → (rewrite_segments m ss).0 ≡ map (resolved m) ss
unfolding rewrite_segments
rewrite_segments-map m [] = refl
rewrite_segments-map m (s ∷ ss) = ground (arith, rewrite_segments-map m ss)

rewrite_segments_none :
    (m : Map Bytes RecordedId) (ss : List Bytes)
    → (rewrite_segments m ss).1 ≡ 0
    → map (resolved m) ss ≡ ss
unfolding rewrite_segments
rewrite_segments_none m [] h = refl
rewrite_segments_none m (s ∷ ss) h = ground (arith, rewrite_segments_none m ss)

resolved_empty : (ss : List Bytes) → map (resolved []) ss ≡ ss
unfolding lookup
resolved_empty [] = refl
resolved_empty (s ∷ ss) = ap (λ r. s ∷ r) (resolved_empty ss)

-- The path of a request is rewritten segment by segment: every segment that is a recorded identifier
-- becomes the key it resolves to, every other stays, whether or not the code takes its short cuts
-- for an empty map or a path with nothing to rewrite.
pub rewrite_path_lem :
    (m : Map Bytes RecordedId) (inner_path : Bytes)
    → (rewrite_path m inner_path).0 ≡ join slash (map (resolved m) (split slash inner_path))
unfolding rewrite_path
rewrite_path_lem [] inner_path =
    sym (ap (join slash) (resolved_empty (split slash inner_path)) ∙ join-split slash inner_path)
rewrite_path_lem (x ∷ m) inner_path = ground (
  arith,
  rewrite_segments-map (x ∷ m) (split slash inner_path),
  rewrite_segments_none (x ∷ m) (split slash inner_path),
  join-split slash inner_path,
)

mutual
  unfolding rewrite_value

  rewrite_value_none :
      (m : Map Bytes RecordedId) (v : Json) → (rewrite_value m v).1 ≡ 0 → (rewrite_value m v).0 ≡ v
  rewrite_value_none m null h = refl
  rewrite_value_none m (bool b) h = refl
  rewrite_value_none m (num n) h = refl
  rewrite_value_none m (str s) h = ground arith
  rewrite_value_none m (arr xs) h = ap arr (rewrite_items_none m xs h)
  rewrite_value_none m (obj fs) h = ap obj (rewrite_members_none m fs h)

  rewrite_items_none :
      (m : Map Bytes RecordedId) (xs : Items)
      → (rewrite_items m xs).1 ≡ 0
      → (rewrite_items m xs).0 ≡ xs
  rewrite_items_none m nil h = refl
  rewrite_items_none m (cons x xs) h =
      cc (rewrite_value_none m x (omega arith), rewrite_items_none m xs (omega arith))

  rewrite_members_none :
      (m : Map Bytes RecordedId) (fs : Members)
      → (rewrite_members m fs).1 ≡ 0
      → (rewrite_members m fs).0 ≡ fs
  rewrite_members_none m end h = refl
  rewrite_members_none m (member k x fs) h =
      cc (rewrite_value_none m x (omega arith), rewrite_members_none m fs (omega arith))

-- A body in which no string was resolved is passed on as it came.
pub rewrite_value_unchanged :
    (m : Map Bytes RecordedId) (v : Json) → (rewrite_value m v).1 ≡ 0 → (rewrite_value m v).0 ≡ v
rewrite_value_unchanged m v h = rewrite_value_none m v h
