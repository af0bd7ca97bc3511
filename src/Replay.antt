-- ===== src/Replay.antt =====
-- internal/replay/replay.go: a set of recorded exchanges answers requests by three tiers. One
-- recording stands in three indexes at once: the indexes hold its place in `recordings`, and what a
-- scope has been served is kept there. The keys are texts made by hashing and templating
-- (`exactKey`, `shapeKey`, `seqKey`); a request shows the three it has.
pub mod Served
pub mod Sequence
pub mod Tiers
pub mod Forget
use pikopod.Base.{
  ℕ, suc, ◌+◌, ◌-◌, Bool, true, false, not, ◌&&◌, Option, none, some, List, [], ◌∷◌, ◌++◌, nat_beq,
  ltb, leb, if◌then◌else◌, length, filter_by, find_by, last?, get_elem?, modify, bytes_eq,
}
use pikopod.Base.Map.{Map, lookup, insert, delete}
use pikopod.Base.Bytes.{Bytes}
use pikopod.Base.Json.{Json}

pub record Record : Type 0 where
  pub method : Bytes
  pub path : Bytes
  pub status : ℕ
  pub req_body : Option Json
  pub resp_body : Option Json

pub record Recording : Type 0 where
  pub recorded : Record
  pub served : Map Bytes Bool

pub data MatchTier : Type 0 where
  exact shape sequence miss : MatchTier

pub record ReportLine : Type 0 where
  pub method : Bytes
  pub path : Bytes
  pub tier : MatchTier

pub record ReplaySet : Type 0 where
  pub recordings : List Recording
  pub exact_index : Map Bytes (List ℕ)
  pub shape_index : Map Bytes (List ℕ)
  pub sequence_index : Map Bytes (List ℕ)
  pub report : List ReportLine
  pub unmatched : ℕ

-- A record or a request, by its method, path and three keys.
pub record Keys : Type 0 where
  pub exact_key : Bytes
  pub shape_key : Bytes
  pub seq_key : Bytes

abbrev pub max_report_lines : ℕ
max_report_lines = 10000

abbrev pub or_empty_list : Option (List ℕ) → List ℕ
or_empty_list none = []
or_empty_list (some l) = l

abbrev pub index_of : Map Bytes (List ℕ) → Bytes → List ℕ
index_of m k = or_empty_list (lookup k m)

-- One line of the file that `LoadFile` reads: the recording goes to the end of its three lists.
unfoldable pub add_recording : ReplaySet → Record → Keys → ReplaySet
unfolding insert
add_recording s rec k =
    let r = length s.recordings in
    record s {
      recordings = s.recordings ++ record { recorded = rec; served = [] } ∷ [];
      exact_index = insert k.exact_key (index_of s.exact_index k.exact_key ++ r ∷ []) s.exact_index;
      shape_index = insert k.shape_key (index_of s.shape_index k.shape_key ++ r ∷ []) s.shape_index;
      sequence_index =
          insert k.seq_key (index_of s.sequence_index k.seq_key ++ r ∷ []) s.sequence_index;
    }

abbrev or_false : Option Bool → Bool
or_false none = false
or_false (some b) = b

abbrev served_by : Bytes → Option Recording → Bool
served_by scope none = false
served_by scope (some r) = or_false (lookup scope r.served)

-- `r.served[scope]`
unfoldable pub is_served : List Recording → Bytes → ℕ → Bool
unfolding lookup
is_served heap scope i = served_by scope (get_elem? heap i)

-- `r.served[scope] = true`
unfoldable pub mark_served : List Recording → Bytes → ℕ → List Recording
unfolding insert
mark_served heap scope i = modify (λ r. record r { served = insert scope true r.served }) i heap

-- `delete(r.served, scope)`
unfoldable pub unmark_served : List Recording → Bytes → ℕ → List Recording
unfolding delete
unmark_served heap scope i = modify (λ r. record r { served = delete scope r.served }) i heap

-- `takeUnserved`
unfoldable pub take_unserved : List Recording → List ℕ → Bytes → List Recording × Option ℕ
unfolding is_served mark_served
take_unserved heap recs scope = elim (find_by (λ i. not (is_served heap scope i)) recs) [
  | none ↦ (heap, none)
  | some i ↦ (mark_served heap scope i, some i)
]

abbrev allows : (Record → MatchTier → Bool) → MatchTier → Option Recording → Bool
allows allow tier none = false
allows allow tier (some r) = allow r.recorded tier

-- `allowed`
unfoldable pub allowed :
    List Recording → List ℕ → MatchTier → Option (Record → MatchTier → Bool) → List ℕ
allowed heap recs tier none = recs
allowed heap recs tier (some allow) = filter_by (λ i. allows allow tier (get_elem? heap i)) recs

-- The fields of `MatchDiag` that steer the answer; the gaps and the closest endpoint are texts for
-- the trace.
pub record MatchDiag : Type 0 where
  pub tier : MatchTier
  pub seq_pos : ℕ
  pub seq_len : ℕ
  pub held : Bool

-- `i + 1` for the first place `i` of `r` in the list.
unfoldable pub position : ℕ → List ℕ → ℕ → ℕ
position r [] i = 0
position r (x ∷ xs) i = let rest = position r xs (i + 1) in if nat_beq x r then i + 1 else rest

-- `reportLocked`
unfoldable pub report_line : ReplaySet → ReportLine → ReplaySet
report_line s line =
    if leb max_report_lines (length s.report)
    then s
    else record s { report = s.report ++ line ∷ [] }

abbrev plain_diag : MatchTier → MatchDiag
plain_diag tier = record { tier = tier; seq_pos = 0; seq_len = 0; held = false }

-- The exact tier, for a list that is not empty.
unfoldable pub answer_exact :
    List Recording → List ℕ → Bytes → List Recording × Option ℕ × MatchDiag
unfolding take_unserved position
answer_exact heap recs scope =
    let (heap', r) = take_unserved heap recs scope in
    elim r [
      | none ↦ (
        heap,
        last? recs,
        record { tier = exact; seq_pos = length recs; seq_len = length recs; held = true },
      )
      | some i ↦ (
        heap',
        some i,
        record { tier = exact; seq_pos = position i recs 0; seq_len = length recs; held = false },
      )
    ]

-- The sequence tier, for a list with the first recording `first`.
unfoldable pub answer_sequence : List Recording → ℕ → List ℕ → Bytes → List Recording × Option ℕ
unfolding take_unserved unmark_served
answer_sequence heap first recs scope =
    let (heap', r) = take_unserved heap recs scope in
    elim r [ none ↦ (unmark_served heap scope first, some first) | some i ↦ (heap', some i) ]

-- What `MatchValueScoped` does when the first two tiers gave no answer.
unfoldable pub match_sequence :
    ReplaySet → Bytes → Bytes → Bytes → List ℕ → ReplaySet × Option ℕ × MatchDiag
unfolding answer_sequence report_line
match_sequence s scope method path [] = (
  report_line (record s { unmatched = s.unmatched + 1 })
      (record { method = method; path = path; tier = miss }),
  none,
  plain_diag miss,
)
match_sequence s scope method path (first ∷ recs) =
    let (heap, r) = answer_sequence s.recordings first (first ∷ recs) scope in
    (
      report_line (record s { recordings = heap })
          (record { method = method; path = path; tier = sequence }),
      r,
      plain_diag sequence,
    )

unfoldable pub match_shape :
    ReplaySet → Bytes → Bytes → Bytes → List ℕ → List ℕ → ReplaySet × Option ℕ × MatchDiag
unfolding match_sequence take_unserved report_line
match_shape s scope method path shaped sequenced =
    let (heap, r) = take_unserved s.recordings shaped scope in
    elim r [
      | some i ↦ (
        report_line (record s { recordings = heap })
            (record { method = method; path = path; tier = shape }),
        some i,
        plain_diag shape,
      )
      | none ↦ match_sequence s scope method path sequenced
    ]

unfoldable pub match_exact :
    ReplaySet → Bytes → Bytes → Bytes → List ℕ → List ℕ → List ℕ → ReplaySet × Option ℕ × MatchDiag
unfolding answer_exact match_shape report_line
match_exact s scope method path [] shaped sequenced =
    match_shape s scope method path shaped sequenced
match_exact s scope method path (x ∷ xs) shaped sequenced =
    let (heap, r, diag) = answer_exact s.recordings (x ∷ xs) scope in
    (
      report_line (record s { recordings = heap })
          (record { method = method; path = path; tier = exact }),
      r,
      diag,
    )

-- `MatchValueScoped`: the answer is the place of a recording.
unfoldable pub match_value_scoped :
    ReplaySet
    → Bytes
    → Bytes
    → Bytes
    → Keys
    → Option (Record → MatchTier → Bool)
    → ReplaySet × Option ℕ × MatchDiag
unfolding match_exact allowed lookup
match_value_scoped s scope method path k allow =
    match_exact s scope method path
      (allowed s.recordings (index_of s.exact_index k.exact_key) exact allow)
      (allowed s.recordings (index_of s.shape_index k.shape_key) shape allow)
      (allowed s.recordings (index_of s.sequence_index k.seq_key) sequence allow)

unfoldable pub forget_list : List Recording → Bytes → List ℕ → List Recording
unfolding unmark_served
forget_list heap scope [] = heap
forget_list heap scope (i ∷ recs) = forget_list (unmark_served heap scope i) scope recs

-- The loops of `ForgetScope`.
unfoldable pub forget_index : List Recording → Bytes → Map Bytes (List ℕ) → List Recording
unfolding forget_list
forget_index heap scope [] = heap
forget_index heap scope ((k, recs) ∷ m) = forget_index (forget_list heap scope recs) scope m

unfoldable pub forget_scope : ReplaySet → Bytes → ReplaySet
unfolding forget_index
forget_scope s scope = record s { recordings = forget_index s.recordings scope s.sequence_index }
