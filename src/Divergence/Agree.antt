-- ===== src/Divergence/Agree.antt =====
-- A sandbox that answers as the provider did (internal/divergence/divergence.go, `Compare`).
use pikopod.Base.{
  ℕ, ◌≡◌, refl, Bool, true, false, not, ◌&&◌, none, some, List, [], ◌∷◌, ◌==◌, arith, nat_beq_iff,
  if◌then◌else◌, bytes_eq, bytes_beq_iff, Bool-cases, Option-cases, inl, inr,
}
use pikopod.Base.Bytes.{Bytes}
use pikopod.Base.Json.{Json}
use pikopod.Divergence.{
  SectionRedaction, Record, Verdict, redacted_at, lookup_pointer, field, code_pointers,
  reason_pointers, both_given, compare_reasons, compare_error_fields, features_of, blank_verdict,
  compare_sides,
}

-- Where nothing that is read was redacted, redactions change nothing.
field_shown :
    (body : Json) (ps : List Bytes) (rs : List SectionRedaction)
    → (field body ps (some rs)).1 ≡ false
    → (field body ps (some rs)).0 ≡ (field body ps none).0
unfolding field
field_shown body [] rs h = refl
field_shown body (p ∷ ps) rs h = elim (Bool-cases (redacted_at rs p)) [
  | inl r ↦ absurd (ground (arith, h, r))
  | inr r ↦ elim (Option-cases (lookup_pointer body p)) [
    | inl n ↦ rw (r, n, field) (field_shown body ps rs (ground (arith, h, r, n)))
    | inr (v, n) ↦ rw (r, n, field) refl
  ]
]

same_texts : (a : Bytes) → (a == a) ≡ true
same_texts a = (bytes_beq_iff a a).1 refl

never :
    (b : Bool) (w v : Verdict)
    → v.diverged ≡ false
    → (if b && not true then w else v).diverged ≡ false
never true w v h = h
never false w v h = h

either_way :
    (b : Bool) (w v x : Verdict)
    → v.diverged ≡ false
    → x.diverged ≡ false
    → (if b then (if not true then w else v) else x).diverged ≡ false
either_way true w v x h k = h
either_way false w v x h k = k

reasons_agree :
    (v : Verdict) (rec : Record)
    → v.diverged ≡ false
    → (compare_reasons v rec (record { status = rec.status; body = rec.resp_body })).diverged
      ≡ false
unfolding compare_reasons
reasons_agree v rec h =
    elim (Bool-cases (field rec.resp_body reason_pointers (some rec.redacted)).1) [
      | inl r ↦ rw (r, compare_reasons) h
      | inr r ↦
          rw
            (
              r,
              field_shown rec.resp_body reason_pointers rec.redacted r,
              same_texts (field rec.resp_body reason_pointers none).0,
              compare_reasons,
            )
            (never
              (both_given (field rec.resp_body reason_pointers none).0
                (field rec.resp_body reason_pointers none).0)
              _ v h)
    ]

fields_agree :
    (v : Verdict) (rec : Record)
    → v.diverged ≡ false
    → (compare_error_fields v rec (record { status = rec.status; body = rec.resp_body })).diverged
      ≡ false
unfolding compare_error_fields
fields_agree v rec h = elim (Bool-cases (field rec.resp_body code_pointers (some rec.redacted)).1) [
  | inl r ↦ rw (r, compare_error_fields) h
  | inr r ↦
      rw
        (
          r,
          field_shown rec.resp_body code_pointers rec.redacted r,
          same_texts (field rec.resp_body code_pointers none).0,
          compare_error_fields,
        )
        (either_way
          (both_given (field rec.resp_body code_pointers none).0
            (field rec.resp_body code_pointers none).0)
          v v _ h (reasons_agree v rec h))
]

-- A sandbox that answers with the provider's status and body never diverges, whatever was redacted of
-- the body, and whichever statuses are declared.
pub compare_sides_agree :
    (rec : Record) (declared : ℕ → Bool)
    → (compare_sides rec (record { status = rec.status; body = rec.resp_body }) declared).diverged
      ≡ false
unfolding compare_sides
compare_sides_agree rec declared = ground (
  arith,
  nat_beq_iff rec.status rec.status,
  fields_agree (blank_verdict (features_of rec)) rec refl,
)
