-- ===== src/Divergence/Evidence.antt =====
-- What a verdict can rest on (internal/divergence/divergence.go, `Compare` and `field`).
use pikopod.Base.{
  All, ℕ, ◌≡◌, refl, Bool, false, some, List, [], ◌∷◌, bytes_eq, All, Bool-cases, Option-cases, inl,
  inr,
}
use pikopod.Base.Bytes.{Bytes}
use pikopod.Base.Json.{Json}
use pikopod.Divergence.{
  Side, SectionRedaction, Record, redacted_at, lookup_pointer, field, code_pointers,
  reason_pointers, compare_reasons, compare_error_fields, features_of, compare_sides,
}

-- The bodies agree at each of the pointers that was not redacted.
abbrev pub AgreeWhereShown : List SectionRedaction → Json → Json → List Bytes → Type 0
AgreeWhereShown rs a b ps =
    All (λ p. redacted_at rs p ≡ false → lookup_pointer a p ≡ lookup_pointer b p) ps

field_blind :
    (a b : Json) (ps : List Bytes) (rs : List SectionRedaction)
    → AgreeWhereShown rs a b ps
    → field a ps (some rs) ≡ field b ps (some rs)
unfolding field
field_blind a b [] rs h = refl
field_blind a b (p ∷ ps) rs h = elim (Bool-cases (redacted_at rs p)) [
  | inl r ↦ rw (r, field) refl
  | inr r ↦ elim (Option-cases (lookup_pointer b p)) [
    | inl n ↦ rw (r, h.0 r, n, field) (field_blind a b ps rs h.1)
    | inr (v, n) ↦ rw (r, h.0 r, n, field) refl
  ]
]

-- What was redacted of the provider's answer has no part in the verdict: records that agree in all else
-- and whose bodies agree at the pointers that were not redacted get the same verdict.
pub compare_sides_blind :
    (rec : Record) (other : Json) (fork : Side) (declared : ℕ → Bool)
    → AgreeWhereShown rec.redacted rec.resp_body other code_pointers
    → AgreeWhereShown rec.redacted rec.resp_body other reason_pointers
    → compare_sides rec fork declared
      ≡ compare_sides (record rec { resp_body = other }) fork declared
unfolding compare_sides compare_error_fields compare_reasons features_of
compare_sides_blind rec other fork declared c r =
    let codes_same = field_blind rec.resp_body other code_pointers rec.redacted c in
    let reasons_same = field_blind rec.resp_body other reason_pointers rec.redacted r in
    rw (codes_same, reasons_same) refl
