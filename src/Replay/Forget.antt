-- ===== src/Replay/Forget.antt =====
-- Forgetting a scope (internal/replay/replay.go, `ForgetScope`).
use pikopod.Base.{
  ℕ, ◌<◌, ◌≡◌, Bool, true, false, not, ◌&&◌, ◌||◌, List, [], ◌∷◌, ◌++◌, ◌==◌, arith, nat_beq,
  nat_beq_iff, bytes_eq, bytes_beq_iff, if◌then◌else◌, length, length-append,
}
use pikopod.Base.Map.{Map, lookup, insert}
use pikopod.Base.Bytes.{Bytes}
use pikopod.Replay.{
  Recording, Record, Keys, ReplaySet, is_served, unmark_served, forget_list, forget_index,
  forget_scope, add_recording, index_of,
}
use pikopod.Replay.Served.{is_served-unmark}

abbrev pub listed : ℕ → List ℕ → Bool
listed j [] = false
listed j (i ∷ recs) = nat_beq i j || listed j recs

-- Whether some list of the index holds the place.
abbrev pub indexed : ℕ → Map Bytes (List ℕ) → Bool
indexed j [] = false
indexed j ((k, recs) ∷ m) = listed j recs || indexed j m

forget_list-served :
    (heap : List Recording) (scope other : Bytes) (j : ℕ) (recs : List ℕ)
    → is_served (forget_list heap scope recs) other j
      ≡ not (listed j recs && (scope == other)) && is_served heap other j
unfolding forget_list
forget_list-served heap scope other j [] = ground arith
forget_list-served heap scope other j (i ∷ recs) = ground (
  arith,
  forget_list-served (unmark_served heap scope i) scope other j recs,
  is_served-unmark heap scope other i j,
)

forget_index-served :
    (heap : List Recording) (scope other : Bytes) (j : ℕ) (m : Map Bytes (List ℕ))
    → is_served (forget_index heap scope m) other j
      ≡ not (indexed j m && (scope == other)) && is_served heap other j
unfolding forget_index
forget_index-served heap scope other j [] = ground arith
forget_index-served heap scope other j ((k, recs) ∷ m) = ground (
  arith,
  forget_index-served (forget_list heap scope recs) scope other j m,
  forget_list-served heap scope other j recs,
)

listed-snoc : (j r : ℕ) (l : List ℕ) → listed j (l ++ r ∷ []) ≡ listed j l || nat_beq r j
listed-snoc j r [] = ground arith
listed-snoc j r (x ∷ l) = ground (arith, listed-snoc j r l)

indexed-insert :
    (j r : ℕ) (k : Bytes) (m : Map Bytes (List ℕ))
    → indexed j (insert k (index_of m k ++ r ∷ []) m) ≡ indexed j m || nat_beq r j
unfolding insert lookup
indexed-insert j r k [] = ground arith
indexed-insert j r k ((i, recs) ∷ m) =
    ground (arith, indexed-insert j r k m, listed-snoc j r recs, bytes_beq_iff i k)

-- The set after the lines of a file.
unfoldable pub load_all : ReplaySet → List (Record × Keys) → ReplaySet
load_all s [] = s
load_all s ((rec, k) ∷ rest) = load_all (add_recording s rec k) rest

abbrev pub empty_set : ReplaySet
empty_set = record {
  recordings = [];
  exact_index = [];
  shape_index = [];
  sequence_index = [];
  report = [];
  unmatched = 0;
}

load_all-indexed :
    (s : ReplaySet) (lines : List (Record × Keys))
    → ((j : ℕ) → j < length s.recordings → indexed j s.sequence_index ≡ true)
    → (j : ℕ) → j < length (load_all s lines).recordings
    → indexed j (load_all s lines).sequence_index ≡ true
unfolding load_all
load_all-indexed s [] h j b = h j b
load_all-indexed s ((rec, k) ∷ rest) h j b = load_all-indexed (add_recording s rec k) rest one j b
  where
    one :
        (i : ℕ)
        → i < length (add_recording s rec k).recordings
        → indexed i (add_recording s rec k).sequence_index ≡ true
    one i c =
        unfold add_recording in
        ground (
          arith,
          indexed-insert i (length s.recordings) k.seq_key s.sequence_index,
          h i,
          length-append s.recordings (record { recorded = rec; served = [] } ∷ []),
          nat_beq_iff (length s.recordings) i,
        )

-- In a set that was loaded from a file, forgetting a scope makes every recording fresh for it again,
-- and leaves what every other scope was served as it was.
pub forget_scope_fresh :
    (lines : List (Record × Keys)) (heap : List Recording) (scope other : Bytes) (j : ℕ)
    → length heap ≡ length (load_all empty_set lines).recordings
    → j < length heap
    → is_served
        (forget_scope (record (load_all empty_set lines) { recordings = heap }) scope).recordings
        other
        j
      ≡ (if scope == other then false else is_served heap other j)
unfolding forget_scope
forget_scope_fresh lines heap scope other j e b = ground (
  arith,
  forget_index-served heap scope other j (load_all empty_set lines).sequence_index,
  load_all-indexed empty_set lines (λ i c. absurd (omega arith)) j (omega arith),
)
