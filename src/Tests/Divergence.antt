-- ===== src/Tests/Divergence.antt =====
-- Comparisons of the sandbox with the provider on concrete inputs.
use pikopod.Base.{◌≡◌, refl, false, [], ◌∷◌, arith, bytes_eq}
use pikopod.Base.Bytes.{Bytes, codes, split}
use pikopod.Base.Json.{Json, obj, str, member, end, null}
use pikopod.Divergence.{
  Record, Side, compare_sides, redacted_at, lookup_pointer, step_into, child_of, code_pointers,
  reason_pointers,
}
use pikopod.Divergence.Agree.{compare_sides_agree}
use pikopod.Divergence.Evidence.{AgreeWhereShown, compare_sides_blind}

abbrev body : Bytes → Json
body code = obj (member (codes "code") (str code) end)

abbrev rec : Record
rec = record {
  path = codes "/pets?limit=2";
  status = 422;
  req_body = null;
  resp_body = body (codes "bad_limit");
  redacted = record { section = codes "resp_body"; pointer = codes "/code" } ∷ [];
}

compare_sides_agree_example :
    (compare_sides rec
      (record { status = 422; body = body (codes "bad_limit") })
      (λ s. false)).diverged
    ≡ false
compare_sides_agree_example = compare_sides_agree rec (λ s. false)

abbrev fork : Side
fork = record { status = 422; body = body (codes "bad_page") }

abbrev hidden_code : Json
hidden_code = body (codes "bad_cursor")

codes-AgreeWhereShown : AgreeWhereShown rec.redacted rec.resp_body hidden_code code_pointers
unfolding redacted_at lookup_pointer split step_into child_of
codes-AgreeWhereShown = (
  (λ h. absurd (ground (arith, h))),
  ((λ h. refl), ((λ h. refl), ((λ h. refl), ((λ h. refl), tt)))),
)

reasons-AgreeWhereShown : AgreeWhereShown rec.redacted rec.resp_body hidden_code reason_pointers
unfolding lookup_pointer split step_into child_of
reasons-AgreeWhereShown = (
  (λ h. refl),
  (
    (λ h. refl),
    ((λ h. refl), ((λ h. refl), ((λ h. refl), ((λ h. refl), ((λ h. refl), ((λ h. refl), tt)))))),
  ),
)

compare_sides_blind_example :
    compare_sides rec fork (λ s. false)
    ≡ compare_sides (record rec { resp_body = hidden_code }) fork (λ s. false)
compare_sides_blind_example =
    compare_sides_blind rec hidden_code fork (λ s. false) codes-AgreeWhereShown
      reasons-AgreeWhereShown
