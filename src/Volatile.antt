-- ===== src/Volatile.antt =====
-- internal/volatile/match.go: which fields count as volatile. The texts are in ASCII; the reason of a
-- refusal stands for its sentence. `none` for a matcher in `CompileSets` is its error.
pub mod Compile
pub mod Drops
use pikopod.Base.{
  ℕ, ◌+◌, ◌-◌, Bool, true, false, not, ◌&&◌, ◌||◌, Option, none, some, List, [], ◌∷◌, ◌++◌, ◌==◌,
  nat_beq, leb, ltb, if◌then◌else◌, length, take, drop, bytes_eq,
}
use pikopod.Base.Map.{Map, lookup, insert, has}
use pikopod.Base.Bytes.{
  Bytes, codes, slash, split, contains, has_prefix, has_suffix, to_lower, equal_fold, after_last,
}

pub record Entry : Type 0 where
  pub raw : Bytes
  pub suffix : Bytes
  pub bare : Bool

pub record Matcher : Type 0 where
  pub entries : List Entry
  pub drops : Map Bytes (Map Bytes ℕ)

pub data Fault : Type 0 where
  empty outer_slash empty_segment bad_character : Fault

pub data RefusalReason : Type 0 where
  malformed_entry : Fault → RefusalReason
  already_configured : RefusalReason

pub record Refusal : Type 0 where
  pub name : Bytes
  pub reason : RefusalReason

abbrev pub max_drop_paths : ℕ
max_drop_paths = 2000

abbrev pub is_space : ℕ → Bool
is_space c = nat_beq c 32 || leb 9 c && leb c 13

unfoldable pub trim_space_left : Bytes → Bytes
trim_space_left [] = []
trim_space_left (c ∷ s) = let rest = trim_space_left s in if is_space c then rest else c ∷ s

unfoldable pub trim_space_right : Bytes → Bytes
trim_space_right [] = []
trim_space_right (c ∷ s) =
    let rest = trim_space_right s in if (rest == []) && is_space c then [] else c ∷ rest

-- `strings.ToLower(strings.TrimSpace(raw))`
unfoldable pub normalize : Bytes → Bytes
unfolding trim_space_left trim_space_right
normalize raw = to_lower (trim_space_right (trim_space_left raw))

-- `strings.TrimSuffix(s, "[]")`
unfoldable pub trim_brackets : Bytes → Bytes
unfolding has_suffix
trim_brackets s = if has_suffix s (codes "[]") then take (length s - 2) s else s

abbrev pub is_name_byte : ℕ → Bool
is_name_byte c =
    (leb b'a' c && leb c b'z')
    || ((leb b'0' c && leb c b'9')
        || (nat_beq c b'_'
            || (nat_beq c b'-' || (nat_beq c b'.' || (nat_beq c b'$' || nat_beq c b'@')))))

unfoldable pub all_name_bytes : Bytes → Bool
all_name_bytes [] = true
all_name_bytes (c ∷ s) = is_name_byte c && all_name_bytes s

-- The loop of `malformed` over the segments.
unfoldable pub segments_fault : List Bytes → Option Fault
unfolding trim_brackets all_name_bytes
segments_fault [] = none
segments_fault (seg ∷ segs) =
    let rest = segments_fault segs in
    if trim_brackets seg == []
    then some empty_segment
    else if all_name_bytes (trim_brackets seg)
    then rest
    else some bad_character

-- `malformed`
unfoldable pub malformed : Bytes → Option Fault
unfolding segments_fault split has_prefix has_suffix
malformed norm =
    if norm == []
    then some empty
    else if has_prefix norm (slash ∷ []) || has_suffix norm (slash ∷ [])
    then some outer_slash
    else segments_fault (split slash norm)

-- What `add` reads and changes: the entries so far, the refusals, and the set `seen`.
pub record Building : Type 0 where
  pub entries : List Entry
  pub refusals : List Refusal
  pub seen : List Bytes

abbrev pub is_seen : Bytes → List Bytes → Bool
is_seen k [] = false
is_seen k (x ∷ xs) = (x == k) || is_seen k xs

-- `add`: what was built, and whether it went well. The label is the entry itself where there is none.
unfoldable pub add_entry : Building → Bytes → Bytes → Building × Bool
unfolding normalize malformed contains
add_entry b raw label =
    let norm = normalize raw in
    elim (malformed norm) [
      | some why ↦ (
        record b {
          refusals = b.refusals ++ record { name = raw; reason = malformed_entry why } ∷ [];
        },
        false,
      )
      | none ↦
          if is_seen norm b.seen
          then (
            record b {
              refusals = b.refusals ++ record { name = raw; reason = already_configured } ∷ [];
            },
            true,
          )
          else (
            record {
              entries =
                  b.entries
                  ++ record {
                    raw = if label == [] then raw else label;
                    suffix = norm;
                    bare = not (contains slash norm);
                  }
                    ∷ [];
              refusals = b.refusals;
              seen = norm ∷ b.seen;
            },
            true,
          )
    ]

-- A loop of `CompileSets`; it stops at the first error.
unfoldable pub add_entries : (Bytes → Bytes) → Building → List Bytes → Building × Bool
unfolding add_entry
add_entries label b [] = (b, true)
add_entries label b (e ∷ es) =
    let (b', ok) = add_entry b e (label e) in
    let rest = add_entries label b' es in if ok then rest else (b', false)

abbrev pub no_label : Bytes → Bytes
no_label e = []

abbrev pub curated_label : Bytes → Bytes
curated_label e = codes "curated:" ++ to_lower e

abbrev pub new_building : Building
new_building = record { entries = []; refusals = []; seen = [] }

-- `CompileSets`
unfoldable pub compile_sets : List Bytes → List Bytes → Option Matcher × List Refusal
unfolding add_entries
compile_sets user curated =
    let (b, ok) = add_entries no_label new_building user in
    let (c, fine) = add_entries curated_label b curated in
    if not ok
    then (none, b.refusals)
    else if not fine
    then (none, c.refusals)
    else (some (record { entries = c.entries; drops = [] }), c.refusals)

abbrev pub after_slash : Bytes → Option Bytes → Bytes
after_slash path none = path
after_slash path (some s) = s

-- `Leaf`
unfoldable pub leaf : Bytes → Bytes
unfolding after_last trim_brackets
leaf path = trim_brackets (after_slash path (after_last slash path))

abbrev pub bytes_slash : Bytes → Bool
bytes_slash [] = false
bytes_slash (c ∷ s) = nat_beq c slash

-- `path[start-1] == '/'`, or the start of the path.
unfoldable pub at_boundary : Bytes → ℕ → Bool
at_boundary path start = nat_beq start 0 || bytes_slash (drop (start - 1) path)

-- `suffixMatches`
unfoldable pub suffix_matches : Bytes → Bytes → Bool
unfolding trim_brackets equal_fold at_boundary
suffix_matches path suffix =
    let p = trim_brackets path in
    let start = length p - length suffix in
    if ltb (length p) (length suffix)
    then false
    else if not (equal_fold (drop start p) suffix)
    then false
    else at_boundary p start

unfoldable pub covers : Bytes → Entry → Bool
unfolding leaf equal_fold suffix_matches
covers path e = if e.bare then equal_fold (leaf path) e.suffix else suffix_matches path e.suffix

unfoldable pub first_match : Bytes → List Entry → Option Bytes
unfolding covers
first_match path [] = none
first_match path (e ∷ es) =
    let rest = first_match path es in if covers path e then some e.raw else rest

-- `Match`, on a matcher that is there.
unfoldable pub match_path : Matcher → Bytes → Option Bytes
unfolding first_match
match_path m path = first_match path m.entries

abbrev pub or_no_paths : Option (Map Bytes ℕ) → Map Bytes ℕ
or_no_paths none = []
or_no_paths (some m) = m

abbrev pub or_no_count : Option ℕ → ℕ
or_no_count none = 0
or_no_count (some n) = n

-- The paths of an entry after one more; a path that is new may find no room.
unfoldable pub add_drop : Map Bytes ℕ → Bytes → Map Bytes ℕ
unfolding lookup insert has
add_drop paths path =
    if not (has path paths) && leb max_drop_paths (length paths)
    then paths
    else insert path (or_no_count (lookup path paths) + 1) paths

-- `RecordDrop`
unfoldable pub record_drop : Matcher → Bytes → Matcher
unfolding match_path lookup insert add_drop
record_drop m path = elim (match_path m path) [
  | none ↦ m
  | some entry ↦ record m {
    drops = insert entry (add_drop (or_no_paths (lookup entry m.drops)) path) m.drops;
  }
]
