-- ===== src/Replay/Tiers.antt =====
-- Which tier answers, and what is counted (internal/replay/replay.go, `MatchValueScoped`).
use pikopod.Base.{
  ℕ, ◌+◌, ◌≤◌, ◌≡◌, ◌↔◌, refl, Bool, true, false, not, Option, none, some, List, [], ◌∷◌, arith,
  find_by, last?, if◌then◌else◌, length, length-append, Option-cases, inl, inr,
}
use pikopod.Base.Bytes.{Bytes}
use pikopod.Replay.{
  Record, Recording, Keys, ReplaySet, MatchTier, MatchDiag, exact, shape, sequence, miss,
  ReportLine, max_report_lines, report_line, take_unserved, is_served, answer_exact,
  answer_sequence, match_sequence, match_shape, match_exact, match_value_scoped, allowed, index_of,
}

abbrev pub is_miss : MatchTier → Bool
is_miss miss = true
is_miss _ = false

-- What a match leaves behind: the answer, the counter and the report.
pub record Accounted (s : ReplaySet) (r : ReplaySet × Option ℕ × MatchDiag) : Type 0 where
  pub answered : (r.1 ≡ none) ↔ (r.2.tier ≡ miss)
  pub counted : r.0.unmatched ≡ (if is_miss r.2.tier then s.unmatched + 1 else s.unmatched)
  pub reported : length s.report ≤ max_report_lines → length r.0.report ≤ max_report_lines

report_line-bounded :
    (s : ReplaySet) (line : ReportLine)
    → length s.report ≤ max_report_lines
    → length (report_line s line).report ≤ max_report_lines
unfolding report_line
report_line-bounded s line h = ground (arith, length-append s.report (line ∷ []))

report_line-unmatched :
    (s : ReplaySet) (line : ReportLine) → (report_line s line).unmatched ≡ s.unmatched
unfolding report_line
report_line-unmatched s line = ground arith

last_some : (x : ℕ) (xs : List ℕ) → (i : ℕ) × (last? (x ∷ xs) ≡ some i)
last_some x [] = (x, refl)
last_some x (y ∷ xs) = let (i, e) = last_some y xs in (i, ground (arith, e))

answer_exact-some :
    (heap : List Recording) (x : ℕ) (xs : List ℕ) (scope : Bytes)
    → ((i : ℕ) × ((answer_exact heap (x ∷ xs) scope).1 ≡ some i))
      × ((answer_exact heap (x ∷ xs) scope).2.tier ≡ exact)
unfolding answer_exact
answer_exact-some heap x xs scope =
    elim (Option-cases (find_by (λ i. not (is_served heap scope i)) (x ∷ xs))) [
      | inl e ↦ let (i, l) = last_some x xs in ((i, ground (arith, e, l)), ground (arith, e))
      | inr (i, e) ↦ ((i, ground (arith, e)), ground (arith, e))
    ]

answer_sequence-some :
    (heap : List Recording) (x : ℕ) (xs : List ℕ) (scope : Bytes)
    → (i : ℕ) × ((answer_sequence heap x (x ∷ xs) scope).1 ≡ some i)
unfolding answer_sequence
answer_sequence-some heap x xs scope =
    elim (Option-cases (find_by (λ i. not (is_served heap scope i)) (x ∷ xs))) [
      | inl e ↦ (x, ground (arith, e))
      | inr (i, e) ↦ (i, ground (arith, e))
    ]

match_sequence-Accounted :
    (s : ReplaySet) (scope method path : Bytes) (recs : List ℕ)
    → Accounted s (match_sequence s scope method path recs)
unfolding match_sequence
match_sequence-Accounted s scope method path [] =
    let s' = record s { unmatched = s.unmatched + 1 } in
    let line : ReportLine = record { method = method; path = path; tier = miss } in
    record {
      answered = ground arith;
      counted = report_line-unmatched s' line;
      reported = report_line-bounded s' line;
    }
match_sequence-Accounted s scope method path (x ∷ xs) =
    let (heap, r) = answer_sequence s.recordings x (x ∷ xs) scope in
    let (i, e) = answer_sequence-some s.recordings x xs scope in
    let s' = record s { recordings = heap } in
    let line : ReportLine = record { method = method; path = path; tier = sequence } in
    record {
      answered = ground (arith, e);
      counted = report_line-unmatched s' line;
      reported = report_line-bounded s' line;
    }

match_shape-Accounted :
    (s : ReplaySet) (scope method path : Bytes) (shaped sequenced : List ℕ)
    → Accounted s (match_shape s scope method path shaped sequenced)
unfolding match_shape
match_shape-Accounted s scope method path shaped sequenced =
    by_answer (take_unserved s.recordings shaped scope)
  where
    by_answer :
        (t : List Recording × Option ℕ)
        → Accounted s (elim t.1 [
          | some i ↦ (
            report_line
                (record s { recordings = t.0 })
                (record { method = method; path = path; tier = shape }),
            some i,
            record { tier = shape; seq_pos = 0; seq_len = 0; held = false },
          )
          | none ↦ match_sequence s scope method path sequenced
        ])
    by_answer (heap, none) = match_sequence-Accounted s scope method path sequenced
    by_answer (heap, some i) =
        let s' = record s { recordings = heap } in
        let line : ReportLine = record { method = method; path = path; tier = shape } in
        record {
          answered = ground arith;
          counted = report_line-unmatched s' line;
          reported = report_line-bounded s' line;
        }

match_exact-Accounted :
    (s : ReplaySet) (scope method path : Bytes) (exacts shaped sequenced : List ℕ)
    → Accounted s (match_exact s scope method path exacts shaped sequenced)
unfolding match_exact
match_exact-Accounted s scope method path [] shaped sequenced =
    match_shape-Accounted s scope method path shaped sequenced
match_exact-Accounted s scope method path (x ∷ xs) shaped sequenced =
    let ((i, e), t) = answer_exact-some s.recordings x xs scope in
    let s' = record s { recordings = (answer_exact s.recordings (x ∷ xs) scope).0 } in
    let line : ReportLine = record { method = method; path = path; tier = exact } in
    record {
      answered = ground (arith, e, t);
      counted = ground (arith, report_line-unmatched s' line, t);
      reported = report_line-bounded s' line;
    }

-- Every request is accounted for: it gets no recording exactly when its tier is a miss, the counter
-- of unmatched requests goes up by one then and only then, and the report never grows past 10000
-- lines.
pub match_value_scoped_accounts :
    (s : ReplaySet) (scope method path : Bytes) (k : Keys)
    (allow : Option (Record → MatchTier → Bool))
    → Accounted s (match_value_scoped s scope method path k allow)
unfolding match_value_scoped
match_value_scoped_accounts s scope method path k allow =
    match_exact-Accounted s scope method path
      (allowed s.recordings (index_of s.exact_index k.exact_key) exact allow)
      (allowed s.recordings (index_of s.shape_index k.shape_key) shape allow)
      (allowed s.recordings (index_of s.sequence_index k.seq_key) sequence allow)
