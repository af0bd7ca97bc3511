-- ===== src/Drift/Preimage.antt =====
-- The text behind a fingerprint tells findings apart (internal/drift/drift.go, `fpEscape`,
-- `Fingerprint`).
use pikopod.Base.{
  ◌≡◌, refl, sym, ap, ◌∙◌, false, ◌||◌, [], ◌∷◌, ◌++◌, arith, nat_beq, if◌then◌else◌,
}
use pikopod.Base.Bytes.{Bytes, contains}
use pikopod.Drift.{Kind, Finding, backslash, bar, escape_byte, fp_escape, kind_text, preimage}

-- The escaping written as one pass.
abbrev escaped : Bytes → Bytes
escaped [] = []
escaped (x ∷ s) =
    let rest = escaped s in
    if nat_beq x backslash || nat_beq x bar then backslash ∷ x ∷ rest else x ∷ rest

escape_twice : (s : Bytes) → escape_byte bar (escape_byte backslash s) ≡ escaped s
unfolding escape_byte
escape_twice [] = refl
escape_twice (x ∷ s) = ground (arith, escape_twice s)

escaped_plain : (s : Bytes) → contains backslash s ≡ false → contains bar s ≡ false → escaped s ≡ s
unfolding contains
escaped_plain [] h k = refl
escaped_plain (x ∷ s) h k = ground (arith, escaped_plain s)

fp_escape-eq : (s : Bytes) → fp_escape s ≡ escaped s
unfolding fp_escape
fp_escape-eq s = ground (arith, escape_twice s, escaped_plain s)

-- Two escaped texts, each before a separator or the end, are equal only if the texts and what follows
-- are.
escaped_cancel : (s t r q : Bytes) → escaped s ++ bar ∷ r ≡ escaped t ++ bar ∷ q → (s ≡ t) × (r ≡ q)
escaped_cancel [] [] r q e = (refl, ground arith)
escaped_cancel [] (y ∷ t) r q e = absurd (ground arith)
escaped_cancel (x ∷ s) [] r q e = absurd (ground arith)
escaped_cancel (x ∷ s) (y ∷ t) r q e =
    let (same, rest) = escaped_cancel s t r q (ground arith) in (ground (arith, same), rest)

escaped_injective : (s t : Bytes) → escaped s ≡ escaped t → s ≡ t
escaped_injective s t e = (escaped_cancel s t [] [] (ap (λ l. l ++ bar ∷ []) e)).0

kind_text_injective : (k l : Kind) → kind_text k ≡ kind_text l → k ≡ l
unfolding kind_text
kind_text_injective k l e = ground arith

abbrev parts : Finding → Bytes
parts f =
    escaped f.upstream
    ++ bar
      ∷ (escaped f.method
          ++ bar
            ∷ (escaped f.template
                ++ bar
                  ∷ (escaped f.status_class
                      ++ bar
                        ∷ (escaped (kind_text f.kind)
                            ++ bar
                              ∷ (escaped f.field
                                  ++ bar ∷ (escaped f.before ++ bar ∷ escaped f.after))))))

preimage-parts : (f : Finding) → preimage f ≡ parts f
unfolding preimage
preimage-parts f = simp (
  fp_escape-eq f.upstream,
  fp_escape-eq f.method,
  fp_escape-eq f.template,
  fp_escape-eq f.status_class,
  fp_escape-eq (kind_text f.kind),
  fp_escape-eq f.field,
  fp_escape-eq f.before,
  fp_escape-eq f.after,
)

-- Two findings have the same text behind their fingerprints only if they agree in upstream, method,
-- template, status class, kind, field and both values, whatever separators and backslashes those
-- texts hold: findings that differ there collide only if SHA-256 does on 48 bits.
pub preimage_injective :
    (f g : Finding)
    → preimage f ≡ preimage g
    → ((f.upstream ≡ g.upstream)
        × (f.method ≡ g.method)
        × (f.template ≡ g.template)
        × (f.status_class ≡ g.status_class))
      × ((f.kind ≡ g.kind) × (f.field ≡ g.field) × (f.before ≡ g.before) × (f.after ≡ g.after))
preimage_injective f g e =
    let e0 : parts f ≡ parts g = sym (preimage-parts f) ∙ e ∙ preimage-parts g in
    let (upstream, e1) = escaped_cancel f.upstream g.upstream _ _ e0 in
    let (method, e2) = escaped_cancel f.method g.method _ _ e1 in
    let (template, e3) = escaped_cancel f.template g.template _ _ e2 in
    let (status, e4) = escaped_cancel f.status_class g.status_class _ _ e3 in
    let (kind, e5) = escaped_cancel (kind_text f.kind) (kind_text g.kind) _ _ e4 in
    let (field, e6) = escaped_cancel f.field g.field _ _ e5 in
    let (before, e7) = escaped_cancel f.before g.before _ _ e6 in
    (
      (upstream, method, template, status),
      (kind_text_injective f.kind g.kind kind, field, before, escaped_injective f.after g.after e7),
    )
