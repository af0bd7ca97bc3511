-- ===== src/Sandbox/Journal.antt =====
-- internal/sandbox/journal.go: the bounded journal of the requests that the sandbox served. The
-- mutex makes each method one step; `int64` counters stand as plain numbers, since a journal that
-- takes a request each nanosecond needs centuries to pass 2^63.
pub mod Window
pub mod Invariant
pub mod Queries
use mathlib.Core.List.{reverse}
use pikopod.Base.{
  ℕ, ◌+◌, ◌-◌, Bool, true, false, not, ◌&&◌, ◌||◌, Option, none, some, List, [], ◌∷◌, ◌++◌, ◌==◌,
  ltb, nat_beq, if◌then◌else◌, length, drop, keep_last, filter_by, count_from, find_by, bytes_eq,
}
use pikopod.Base.Map.{Map, lookup}
use pikopod.Base.Bytes.{Bytes, slash, split, trim, contains, equal_fold, to_lower}
use pikopod.Base.Json.{Json}

abbrev pub max_journal_entries : ℕ
max_journal_entries = 1024

pub record JournalEntry : Type 0 where
  pub seq : ℕ
  pub method : Bytes
  pub path : Bytes
  pub template : Bytes
  pub status : ℕ
  pub body : Option Json
  pub body_truncated : Bool
  pub headers : Map Bytes Bytes
  pub headers_truncated : Bool
  pub query : Map Bytes (List Bytes)
  pub query_truncated : Bool
  pub at_ms : ℕ
  pub wall_ms : ℕ
  pub scope : Bytes

pub record Journal : Type 0 where
  pub entries : List JournalEntry
  pub seq : ℕ
  pub evicted : ℕ

abbrev pub empty : Journal
empty = record { entries = []; seq = 0; evicted = 0 }

-- `record`: the entry takes the next number; past the cap the oldest entries go.
unfoldable pub record_entry : Journal → JournalEntry → Journal
record_entry j entry =
    let seq = j.seq + 1 in
    let entries = j.entries ++ record entry { seq = seq } ∷ [] in
    let over = length entries - max_journal_entries in
    if ltb max_journal_entries (length entries)
    then record { entries = drop over entries; seq = seq; evicted = j.evicted + over }
    else record { entries = entries; seq = seq; evicted = j.evicted }

-- The loop of `templateSegmentsMatch` over segments of the same number.
unfoldable pub segments_agree : List Bytes → List Bytes → Bool
segments_agree (q ∷ qs) (t ∷ ts) =
    let rest = segments_agree qs ts in
    if contains b'{' q || contains b'{' t then rest else if q == t then rest else false
segments_agree _ _ = true

unfoldable pub template_segments_match : Bytes → Bytes → Bool
unfolding segments_agree split trim contains
template_segments_match query target =
    let q = split slash (trim slash query) in
    let tg = split slash (trim slash target) in
    if target == []
    then false
    else if not (nat_beq (length q) (length tg))
    then false
    else segments_agree q tg

-- `(*JournalEntry).matches`
unfoldable pub entry_matches : JournalEntry → Bytes → Bytes → Bool
unfolding template_segments_match equal_fold
entry_matches entry method template =
    if not (method == []) && not (equal_fold entry.method method)
    then false
    else if template == []
    then true
    else template_segments_match template entry.template
      || template_segments_match template entry.path

unfoldable pub in_scope : JournalEntry → Bytes → Bool → Bool
in_scope entry scope only = not only || (entry.scope == scope)

-- The test that `count` and `last` make on each entry.
abbrev pub selected : Bytes → Bool → Bytes → Bytes → JournalEntry → Bool
selected scope only method template entry =
    in_scope entry scope only && entry_matches entry method template

unfoldable pub count : Journal → Bytes → Bool → Bytes → Bytes → ℕ × Bool
unfolding in_scope entry_matches
count j scope only method template =
    (count_from (selected scope only method template) 0 j.entries, ltb 0 j.evicted)

-- The loop of `last` runs from the newest entry back.
unfoldable pub last : Journal → Bytes → Bool → Bytes → Bytes → Option JournalEntry × Bool
unfolding in_scope entry_matches
last j scope only method template =
    (find_by (selected scope only method template) (reverse j.entries), ltb 0 j.evicted)

-- `list`; a `limit` that is not positive is no limit.
unfoldable pub list_entries : Journal → Bytes → Bool → ℕ → List JournalEntry × ℕ
unfolding in_scope
list_entries j scope only limit =
    let out = filter_by (λ entry. in_scope entry scope only) j.entries in
    (if ltb 0 limit && ltb limit (length out) then keep_last limit out else out, j.evicted)

unfoldable pub drop_scope : Journal → Bytes → Journal
drop_scope j scope = record j {
  entries = filter_by (λ entry. not (entry.scope == scope)) j.entries;
}

-- The journal's part of `ResetJournal`: the numbering goes on.
unfoldable pub reset : Journal → Journal
reset j = record j { entries = []; evicted = 0 }

pub record SequenceFields : Type 0 where
  pub method : Bytes
  pub headers : Map Bytes Bytes
  pub query : Map Bytes Bytes

-- An absent header reads as the empty string.
abbrev or_empty : Option Bytes → Bytes
or_empty none = []
or_empty (some v) = v

unfoldable pub headers_hold : Map Bytes Bytes → Map Bytes Bytes → Bool
unfolding lookup
headers_hold have [] = true
headers_hold have ((k, want) ∷ rest) =
    let tail = headers_hold have rest in
    if or_empty (lookup (to_lower k) have) == want then tail else false

unfoldable pub any_equal : Bytes → List Bytes → Bool
any_equal want [] = false
any_equal want (v ∷ vals) = let tail = any_equal want vals in if v == want then true else tail

abbrev or_nil : Option (List Bytes) → List Bytes
or_nil none = []
or_nil (some v) = v

unfoldable pub query_holds : Map Bytes (List Bytes) → Map Bytes Bytes → Bool
unfolding lookup any_equal
query_holds have [] = true
query_holds have ((k, want) ∷ rest) =
    let tail = query_holds have rest in
    if any_equal want (or_nil (lookup k have)) then tail else false

-- `MatchesSequence`
unfoldable pub matches_sequence : JournalEntry → SequenceFields → Bytes → Bool
unfolding entry_matches headers_hold query_holds
matches_sequence entry f path =
    if not (entry_matches entry f.method path)
    then false
    else if not (headers_hold entry.headers f.headers)
    then false
    else query_holds entry.query f.query
