-- ===== src/Sandbox/Journal/Invariant.antt =====
-- What holds of a journal between two calls (internal/sandbox/journal.go).
use pikopod.Base.{
  ℕ, ◌+◌, ◌-◌, ◌≤◌, ◌<◌, List, [], ◌∷◌, ◌++◌, arith, Bool, not, ◌==◌, bytes_eq, length, drop,
  filter_by, All, length-append, length-drop, length-filter_by-le, All-append, All-drop,
  All-filter_by, All-mono, true, false, if◌then◌else◌, ltb, ltb→lt, ltb→le, Bool-cases, inl, inr,
}
use pikopod.Base.Bytes.{Bytes}
use pikopod.Sandbox.Journal.{
  Journal, JournalEntry, max_journal_entries, empty, record_entry, drop_scope, reset,
}

-- The numbers of the entries rise.
abbrev pub Ascending : List JournalEntry → Type 0
Ascending [] = Unit
Ascending (x ∷ xs) = All (λ y. x.seq < y.seq) xs × Ascending xs

Ascending-snoc :
    (xs : List JournalEntry) (z : JournalEntry)
    → Ascending xs
    → All (λ y. y.seq < z.seq) xs
    → Ascending (xs ++ z ∷ [])
Ascending-snoc [] z h b = (tt, tt)
Ascending-snoc (x ∷ xs) z h b =
    (All-append (λ y. x.seq < y.seq) xs (z ∷ []) h.0 (b.0, tt), Ascending-snoc xs z h.1 b.1)

Ascending-drop : (n : ℕ) (xs : List JournalEntry) → Ascending xs → Ascending (drop n xs)
Ascending-drop ℕ.zero xs h = h
Ascending-drop (ℕ.suc n) [] h = h
Ascending-drop (ℕ.suc n) (x ∷ xs) h = Ascending-drop n xs h.1

Ascending-filter_by :
    (p : JournalEntry → Bool) (xs : List JournalEntry) → Ascending xs → Ascending (filter_by p xs)
Ascending-filter_by p [] h = h
Ascending-filter_by p (x ∷ xs) h =
    elim (p x) as (λ b. Ascending (if b then x ∷ filter_by p xs else filter_by p xs)) [
      | true ↦ (All-filter_by (λ y. x.seq < y.seq) p xs h.0, Ascending-filter_by p xs h.1)
      | false ↦ Ascending-filter_by p xs h.1
    ]

pub record IsValid (j : Journal) : Type 0 where
  pub bounded : length j.entries ≤ max_journal_entries
  pub numbered : All (λ entry. entry.seq ≤ j.seq) j.entries
  pub ascending : Ascending j.entries
  pub accounted : length j.entries + j.evicted ≤ j.seq

record_entry-numbered :
    (j : Journal) (e : JournalEntry)
    → All (λ entry. entry.seq ≤ j.seq) j.entries
    → All (λ entry. entry.seq ≤ j.seq + 1) (j.entries ++ record e { seq = j.seq + 1 } ∷ [])
record_entry-numbered j e h =
    All-append (λ entry. entry.seq ≤ j.seq + 1) j.entries (record e { seq = j.seq + 1 } ∷ [])
      (All-mono (λ entry. entry.seq ≤ j.seq) (λ entry. entry.seq ≤ j.seq + 1) (λ x p. omega arith)
        j.entries h)
      (omega arith)

record_entry-Ascending :
    (j : Journal) (e : JournalEntry)
    → IsValid j
    → Ascending (j.entries ++ record e { seq = j.seq + 1 } ∷ [])
record_entry-Ascending j e h =
    Ascending-snoc j.entries (record e { seq = j.seq + 1 }) h.ascending
      (All-mono (λ entry. entry.seq ≤ j.seq) (λ entry. entry.seq < j.seq + 1) (λ x p. omega arith)
        j.entries h.numbered)

record_entry-IsValid : (j : Journal) (e : JournalEntry) → IsValid j → IsValid (record_entry j e)
unfolding record_entry
record_entry-IsValid j e h =
    let xs = j.entries ++ record e { seq = j.seq + 1 } ∷ [] in
    let over = length xs - max_journal_entries in
    elim (Bool-cases (ltb max_journal_entries (length xs))) [
      | inl more ↦ rw more record {
        bounded = omega (arith, length-drop over xs, ltb→lt _ _ more);
        numbered =
            All-drop (λ entry. entry.seq ≤ j.seq + 1) over xs
              (record_entry-numbered j e h.numbered);
        ascending = Ascending-drop over xs (record_entry-Ascending j e h);
        accounted = omega (
          arith,
          h.accounted,
          length-append j.entries (record e { seq = j.seq + 1 } ∷ []),
          length-drop over xs,
        );
      }
      | inr fits ↦ rw fits record {
        bounded = ltb→le _ _ fits;
        numbered = record_entry-numbered j e h.numbered;
        ascending = record_entry-Ascending j e h;
        accounted =
            omega (arith, h.accounted, length-append j.entries (record e { seq = j.seq + 1 } ∷ []));
      }
    ]

drop_scope-IsValid : (j : Journal) (scope : Bytes) → IsValid j → IsValid (drop_scope j scope)
unfolding drop_scope
drop_scope-IsValid j scope h =
    let p = λ (entry : JournalEntry). not (entry.scope == scope) in
    record {
      bounded = omega (arith, length-filter_by-le p j.entries, h.bounded);
      numbered = All-filter_by (λ entry. entry.seq ≤ j.seq) p j.entries h.numbered;
      ascending = Ascending-filter_by p j.entries h.ascending;
      accounted = omega (arith, length-filter_by-le p j.entries, h.accounted);
    }

-- The calls that change a journal.
pub data Call : Type 0 where
  recording : JournalEntry → Call
  dropping : Bytes → Call
  resetting : Call

unfoldable pub run : Journal → List Call → Journal
unfolding record_entry drop_scope reset
run j [] = j
run j (recording e ∷ cs) = run (record_entry j e) cs
run j (dropping s ∷ cs) = run (drop_scope j s) cs
run j (resetting ∷ cs) = run (reset j) cs

run-IsValid : (j : Journal) (cs : List Call) → IsValid j → IsValid (run j cs)
unfolding run
run-IsValid j [] h = h
run-IsValid j (recording e ∷ cs) h = run-IsValid (record_entry j e) cs (record_entry-IsValid j e h)
run-IsValid j (dropping s ∷ cs) h = run-IsValid (drop_scope j s) cs (drop_scope-IsValid j s h)
run-IsValid j (resetting ∷ cs) h =
    run-IsValid (reset j) cs (unfold reset in omega (arith, h.accounted))

-- Whatever calls are made from an empty journal on, it holds at most 1024 entries, their numbers
-- rise and none is above the counter, and the counter is at least the entries held and evicted.
pub run_empty-IsValid : (cs : List Call) → IsValid (run empty cs)
run_empty-IsValid cs = run-IsValid empty cs (omega arith)
