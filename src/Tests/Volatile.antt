-- ===== src/Tests/Volatile.antt =====
-- Volatile fields on concrete inputs.
use pikopod.Base.{◌≡◌, true, ◌&&◌, ◌||◌, some, List, [], ◌∷◌, bytes_eq}
use pikopod.Base.Bytes.{Bytes, codes}
use pikopod.Volatile.{is_seen, Matcher, compile_sets}
use pikopod.Volatile.Compile.{
  is_there, all_fine, times, suffixes, one_if, normalized, compile_sets_lem,
}

abbrev user : List Bytes
user = codes "Meta/ID" ∷ codes "trace" ∷ codes "meta/id" ∷ []

abbrev curated : List Bytes
curated = codes "trace" ∷ codes "etag" ∷ []

compile_sets_lem_example :
    (is_there (compile_sets user curated).0 ≡ all_fine user && all_fine curated)
    × ((m : Matcher) (k : Bytes)
        → (compile_sets user curated).0 ≡ some m
        → times k (suffixes m.entries)
          ≡ one_if (is_seen k (normalized user) || is_seen k (normalized curated)))
compile_sets_lem_example = compile_sets_lem user curated

abbrev matcher : Matcher
matcher = record {
  entries = record { raw = codes "trace"; suffix = codes "trace"; bare = true } ∷ [];
  drops = (codes "trace", (codes "data/trace", 4) ∷ []) ∷ [];
}

abbrev dropped : List Bytes
dropped = codes "data/trace" ∷ codes "trace" ∷ []
