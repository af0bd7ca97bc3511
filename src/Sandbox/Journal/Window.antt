-- ===== src/Sandbox/Journal/Window.antt =====
-- The journal is a window on the whole history of requests (internal/sandbox/journal.go, `record`).
use pikopod.Base.{
  ℕ, ◌+◌, ◌-◌, ◌≡◌, refl, sym, ap, subst, ◌∙◌, List, [], ◌∷◌, ◌++◌, arith, length, drop, keep_last,
  length-append, length-drop, drop-append_le, drop_eq, drop-drop,
}
use mathlib.Core.List.{append_assoc, append-nil}
use pikopod.Sandbox.Journal.{Journal, JournalEntry, empty, max_journal_entries, record_entry}

-- Numbers the entries from `n` on.
abbrev pub number_from : ℕ → List JournalEntry → List JournalEntry
number_from n [] = []
number_from n (e ∷ es) = record e { seq = n } ∷ number_from (n + 1) es

pub record_all : Journal → List JournalEntry → Journal
record_all j [] = j
record_all j (e ∷ es) = record_all (record_entry j e) es

-- One more element at the end of a list moves its window on.
keep_last_snoc :
    {A : Type 0} (n : ℕ) (xs : List A) (x : A)
    → keep_last n (xs ++ x ∷ [])
      ≡ drop (length (keep_last n xs ++ x ∷ []) - n) (keep_last n xs ++ x ∷ [])
keep_last_snoc n xs x =
    let k = length xs - n in
    let m = length (keep_last n xs ++ x ∷ []) - n in
    drop_eq (length (xs ++ x ∷ []) - n) (k + m) (xs ++ x ∷ []) (
      omega (
        arith,
        length-append xs (x ∷ []),
        length-append (keep_last n xs) (x ∷ []),
        length-drop k xs,
      ))
    ∙ sym (drop-drop m k (xs ++ x ∷ []))
    ∙ ap (drop m) (drop-append_le k xs (x ∷ []) (omega arith))

-- `j` is what a journal holds after the history `full`.
abbrev IsWindow : List JournalEntry → Journal → Type 0
IsWindow full j =
    (j.entries ≡ keep_last max_journal_entries full)
    × (j.evicted ≡ length full - max_journal_entries)
    × (j.seq ≡ length full)

record_entry-IsWindow :
    (full : List JournalEntry) (j : Journal) (e : JournalEntry)
    → IsWindow full j
    → IsWindow (full ++ record e { seq = length full + 1 } ∷ []) (record_entry j e)
unfolding record_entry
record_entry-IsWindow full j e h = ground (
  arith,
  keep_last_snoc max_journal_entries full (record e { seq = length full + 1 }),
  length-append full (record e { seq = length full + 1 } ∷ []),
  length-append (keep_last max_journal_entries full) (record e { seq = length full + 1 } ∷ []),
  length-drop (length full - max_journal_entries) full,
)

record_all-IsWindow :
    (full es : List JournalEntry) (j : Journal)
    → IsWindow full j
    → IsWindow (full ++ number_from (length full + 1) es) (record_all j es)
unfolding record_all
record_all-IsWindow full [] j h = subst (λ l. IsWindow l j) (sym (append-nil full)) h
record_all-IsWindow full (e ∷ es) j h =
    let x = record e { seq = length full + 1 } in
    let n : ℕ = length full + 1 in
    let same : length (full ++ x ∷ []) ≡ n = omega (arith, length-append full (x ∷ [])) in
    let step =
      record_all-IsWindow (full ++ x ∷ []) es (record_entry j e)
        (record_entry-IsWindow full j e h) in
    subst (λ l. IsWindow l (record_all (record_entry j e) es))
      (append_assoc full (x ∷ []) (number_from (length (full ++ x ∷ []) + 1) es)
        ∙ ap (λ k. full ++ x ∷ number_from (k + 1) es) same)
      step

-- After any requests, recorded from an empty journal, the journal holds exactly the last 1024 of
-- them (all of them, if there were fewer), each with its number counted from 1; the number of
-- evicted entries and the next number are what that leaves.
pub record_all_window :
    (es : List JournalEntry)
    → ((record_all empty es).entries ≡ keep_last max_journal_entries (number_from 1 es))
      × ((record_all empty es).evicted ≡ length (number_from 1 es) - max_journal_entries)
      × ((record_all empty es).seq ≡ length (number_from 1 es))
record_all_window es = record_all-IsWindow [] es empty (refl, omega arith, omega arith)
