-- ===== src/Sandbox/Journal/Queries.antt =====
-- What the queries of the journal answer, and that scopes are kept apart
-- (internal/sandbox/journal.go: `count`, `last`, `list`, `dropScope`, `templateSegmentsMatch`).
use pikopod.Base.{
  ℕ, ◌-◌, ◌≤◌, ◌<◌, ◌≡◌, ◌≢◌, refl, ap, sym, ◌∙◌, List, [], ◌∷◌, arith, Bool, not, ◌==◌, bytes_eq,
  length, filter_by, bytes_beq_iff, ◌↔◌, length-drop, true, if◌then◌else◌, find_by-reverse, last?,
  last?-none, count_from-eq, none,
}
use pikopod.Base.Bytes.{Bytes, slash, split, trim}
use pikopod.Sandbox.Journal.{
  Journal, JournalEntry, count, last, list_entries, drop_scope, selected, in_scope, segments_agree,
  template_segments_match,
}

-- `last` answers with the newest of the entries that `count` counts, and finds one exactly when
-- the count is not zero; both report the same eviction flag.
pub last-count :
    (j : Journal) (scope : Bytes) (only : Bool) (method template : Bytes)
    → ((last j scope only method template).0
        ≡ last? (filter_by (selected scope only method template) j.entries))
      × ((count j scope only method template).0
          ≡ length (filter_by (selected scope only method template) j.entries))
      × (((last j scope only method template).0 ≡ none)
          ↔ ((count j scope only method template).0 ≡ 0))
      × ((last j scope only method template).1 ≡ (count j scope only method template).1)
unfolding last count
last-count j scope only method template =
    let p = selected scope only method template in
    (
      find_by-reverse p j.entries,
      count_from-eq p 0 j.entries ∙ omega arith,
      (
        (λ h. omega (
          arith,
          count_from-eq p 0 j.entries,
          ap length (last?-none (filter_by p j.entries) (sym (find_by-reverse p j.entries) ∙ h)),
        )),
        (λ h.
            find_by-reverse p j.entries
            ∙ last?_empty (filter_by p j.entries) (omega (arith, count_from-eq p 0 j.entries))),
      ),
      refl,
    )
  where
    last?_empty : (xs : List JournalEntry) → length xs ≡ 0 → last? xs ≡ none
    last?_empty [] h = refl
    last?_empty (x ∷ xs) h = absurd (omega arith)

filter_scope :
    (other scope : Bytes) (xs : List JournalEntry)
    → filter_by
        (λ entry. in_scope entry other true)
        (filter_by (λ entry. not (entry.scope == scope)) xs)
      ≡ (if other == scope then [] else filter_by (λ entry. in_scope entry other true) xs)
unfolding in_scope
filter_scope other scope [] = ground arith
filter_scope other scope (x ∷ xs) = ground (
  arith,
  filter_scope other scope xs,
  bytes_beq_iff x.scope scope,
  bytes_beq_iff x.scope other,
  bytes_beq_iff other scope,
)

-- Dropping a scope leaves nothing of that scope in the journal, and every other scope's list,
-- under any limit, as it was.
pub list-drop_scope :
    (j : Journal) (scope other : Bytes) (limit : ℕ)
    → (list_entries (drop_scope j scope) other true limit).0
      ≡ (if other == scope then [] else (list_entries j other true limit).0)
unfolding list_entries drop_scope
list-drop_scope j scope other limit = ground (arith, filter_scope other scope j.entries)

-- A list has at most the entries asked for, and none are left out when there is no limit.
pub list_limit :
    (j : Journal) (scope : Bytes) (only : Bool) (limit : ℕ)
    → (0 < limit → length (list_entries j scope only limit).0 ≤ limit)
      × ((list_entries j scope only 0).0 ≡ filter_by (λ entry. in_scope entry scope only) j.entries)
unfolding list_entries
list_limit j scope only limit =
    let out = filter_by (λ (entry : JournalEntry). in_scope entry scope only) j.entries in
    ((λ h. ground (arith, length-drop (length out - limit) out)), refl)

segments_agree_sym : (a b : List Bytes) → segments_agree a b ≡ segments_agree b a
unfolding segments_agree
segments_agree_sym [] [] = refl
segments_agree_sym [] (y ∷ b) = refl
segments_agree_sym (x ∷ a) [] = refl
segments_agree_sym (x ∷ a) (y ∷ b) =
    ground (arith, segments_agree_sym a b, bytes_beq_iff x y, bytes_beq_iff y x)

-- Between two paths that are not empty, matching does not depend on which is the query.
pub template_segments_match_sym :
    (a b : Bytes) → a ≢ [] → b ≢ [] → template_segments_match a b ≡ template_segments_match b a
unfolding template_segments_match
template_segments_match_sym a b ha hb =
    let q = split slash (trim slash a) in
    let t = split slash (trim slash b) in
    ground (arith, segments_agree_sym q t, bytes_beq_iff a [], bytes_beq_iff b [])
