-- ===== src/PathTemplates/Idempotent.antt =====
-- Templates are templates of themselves (internal/pathtmpl/pathtmpl.go, `Templatize`).
use pikopod.Base.{
  ℕ, zero, suc, ◌≡◌, ◌≢◌, ◌⊎◌, refl, ap, ◌∙◌, Bool, true, false, ◌&&◌, ◌||◌, Option, none, some,
  List, [], ◌∷◌, ◌++◌, ◌==◌, arith, nat_beq, nat_beq_iff, leb, if◌then◌else◌, length, bytes_eq,
  Bool-cases, Option-cases, inl, inr, All, subst,
}
use pikopod.Base.Bytes.{Bytes, slash, split, join, cut, contains, join-split}
use pikopod.Base.Splits.{contains-append, join-contains, split_plain, split-ne-nil, split-join_cons}
use pikopod.PathTemplates.{
  all_bytes, is_alnum, is_digit, is_hex, is_opaque, is_time, uuid_groups, is_uuid, eat_digits, eat,
  and_digits, time_part, is_date, id_prefix, idish, id_placeholder, classify_segment,
  template_segment, template_segments, templatize,
}

-- A byte that no identifier has.
abbrev pub brace : ℕ
brace = b'}'

all_bytes-contains :
    (f : ℕ → Bool) (c : ℕ) (s : Bytes) → f c ≡ false → all_bytes f s ≡ true → contains c s ≡ false
unfolding all_bytes contains
all_bytes-contains f c [] h k = refl
all_bytes-contains f c (x ∷ s) h k = ground (arith, all_bytes-contains f c s h, ap f)

cut-contains :
    (c d : ℕ) (s p r : Bytes)
    → nat_beq c d ≡ false
    → cut c s ≡ some (p, r)
    → contains d p ≡ false
    → contains d r ≡ false
    → contains d s ≡ false
unfolding cut contains
cut-contains c d [] p r ne e hp hr = ground arith
cut-contains c d (x ∷ s) p r ne e hp hr = elim (Option-cases (cut c s)) [
  | inl n ↦ ground (arith, nat_beq_iff x c, nat_beq_iff x d, nat_beq_iff c d)
  | inr ((a, b), m) ↦
      ground (arith, cut-contains c d s a b ne m, nat_beq_iff x c, nat_beq_iff x d, nat_beq_iff c d)
]

groups_plain : (l : List Bytes) → uuid_groups l ≡ true → All (λ s. contains brace s ≡ false) l
unfolding uuid_groups
groups_plain [] h = tt
groups_plain (a ∷ []) h = absurd (ground (arith, h))
groups_plain (a ∷ b ∷ []) h = absurd (ground (arith, h))
groups_plain (a ∷ b ∷ c ∷ []) h = absurd (ground (arith, h))
groups_plain (a ∷ b ∷ c ∷ d ∷ []) h = absurd (ground (arith, h))
groups_plain (a ∷ b ∷ c ∷ d ∷ e ∷ []) h = (
  all_bytes-contains is_hex brace a refl (ground (arith, h)),
  (
    all_bytes-contains is_hex brace b refl (ground (arith, h)),
    (
      all_bytes-contains is_hex brace c refl (ground (arith, h)),
      (
        all_bytes-contains is_hex brace d refl (ground (arith, h)),
        (all_bytes-contains is_hex brace e refl (ground (arith, h)), tt),
      ),
    ),
  ),
)
groups_plain (a ∷ b ∷ c ∷ d ∷ e ∷ f ∷ l) h = absurd (ground (arith, h))

is_uuid_plain : (s : Bytes) → is_uuid s ≡ true → contains brace s ≡ false
unfolding is_uuid
is_uuid_plain s h =
    subst (λ t. contains brace t ≡ false) (join-split b'-' s)
      (join-contains b'-' brace (split b'-' s) refl (groups_plain (split b'-' s) h))

eat_digits-contains :
    (n : ℕ) (s r : Bytes) → eat_digits n s ≡ some r → contains brace s ≡ contains brace r
unfolding eat_digits contains
eat_digits-contains zero s r e = ground (arith, e)
eat_digits-contains (suc n) [] r e = absurd (ground (arith, e))
eat_digits-contains (suc n) (x ∷ s) r e =
    ground (arith, eat_digits-contains n s r, nat_beq_iff x brace)

-- What is left of a text that may have been eaten holds a brace if the text did.
abbrev Keeps : Bytes → Option Bytes → Type 0
Keeps s none = Unit
Keeps s (some r) = contains brace s ≡ contains brace r

and_digits-Keeps : (n : ℕ) (s : Bytes) (o : Option Bytes) → Keeps s o → Keeps s (and_digits n o)
and_digits-Keeps n s none h = tt
and_digits-Keeps n s (some t) h = elim (Option-cases (eat_digits n t)) [
  | inl e ↦ rw e tt
  | inr (r, e) ↦ rw e (h ∙ eat_digits-contains n t r e)
]

eat_dash-Keeps : (s : Bytes) (o : Option Bytes) → Keeps s o → Keeps s (eat b'-' o)
unfolding eat contains
eat_dash-Keeps s none h = tt
eat_dash-Keeps s (some []) h = tt
eat_dash-Keeps s (some (x ∷ t)) h = elim (Bool-cases (nat_beq x b'-')) [
  | inl e ↦ rw e (ground (arith, h, nat_beq_iff x brace, nat_beq_iff x b'-'))
  | inr e ↦ rw e tt
]

time_part-Keeps :
    (s : Bytes) (o : Option Bytes) → Keeps s o → time_part o ≡ true → contains brace s ≡ false
unfolding time_part contains
time_part-Keeps s none h e = absurd (ground (arith, e))
time_part-Keeps s (some []) h e = h
time_part-Keeps s (some (x ∷ [])) h e = absurd (ground (arith, e))
time_part-Keeps s (some (x ∷ c ∷ t)) h e = ground (
  arith,
  h,
  e,
  all_bytes-contains is_time brace (c ∷ t) refl,
  nat_beq_iff x b'T',
  nat_beq_iff x brace,
)

is_date_plain : (s : Bytes) → is_date s ≡ true → contains brace s ≡ false
unfolding is_date
is_date_plain s h =
    time_part-Keeps s _
      (and_digits-Keeps 2 s _ (
        eat_dash-Keeps s _
          (and_digits-Keeps 2 s _ (eat_dash-Keeps s _ (and_digits-Keeps 4 s (some s) refl)))))
      h

id_prefix_plain : (s p : Bytes) → id_prefix s ≡ some p → contains brace s ≡ false
unfolding id_prefix
id_prefix_plain s p e = elim (Option-cases (cut b'_' s)) [
  | inl n ↦ absurd (ground (arith, e, n))
  | inr ((a, b), m) ↦ ground (
    arith,
    e,
    m,
    cut-contains b'_' brace s a b refl m,
    all_bytes-contains is_alnum brace a refl,
    all_bytes-contains is_alnum brace b refl,
  )
]

idish_plain : (s : Bytes) → idish s ≡ true → contains brace s ≡ false
unfolding idish
idish_plain s h =
    ground (
      arith,
      h,
      all_bytes-contains is_opaque brace s refl,
      all_bytes-contains is_alnum brace s refl,
    )

braced_unclassified : (s : Bytes) → contains brace s ≡ true → classify_segment s ≡ none
unfolding classify_segment
braced_unclassified s h =
    let uuid : is_uuid s ≡ false = ground (arith, h, is_uuid_plain s) in
    let date : is_date s ≡ false = ground (arith, h, is_date_plain s) in
    let rest : (all_bytes is_digit s ≡ false) × (idish s ≡ false) =
      ground (arith, h, all_bytes-contains is_digit brace s refl, idish_plain s) in
    elim (Option-cases (id_prefix s)) [
      | inl e ↦ ground (arith, uuid, date, e, rest)
      | inr (p, e) ↦ absurd (ground (arith, h, id_prefix_plain s p e))
    ]

id_prefix-contains : (s p : Bytes) → id_prefix s ≡ some p → contains slash p ≡ false
unfolding id_prefix
id_prefix-contains s p e = elim (Option-cases (cut b'_' s)) [
  | inl n ↦ absurd (ground (arith, e, n))
  | inr ((a, b), m) ↦ ground (arith, e, m, all_bytes-contains is_alnum slash a refl)
]

-- A placeholder holds a brace and no slash.
abbrev IsPlaceholder : Option Bytes → Type 0
IsPlaceholder none = Unit
IsPlaceholder (some ph) = (contains brace ph ≡ true) × (contains slash ph ≡ false)

prefixed-IsPlaceholder :
    (s p : Bytes) → id_prefix s ≡ some p → IsPlaceholder (some (p ++ b'_' ∷ id_placeholder))
unfolding contains
prefixed-IsPlaceholder s p e = (
  ground (arith, contains-append brace p (b'_' ∷ id_placeholder)),
  ground (arith, contains-append slash p (b'_' ∷ id_placeholder), id_prefix-contains s p e),
)

classify_segment-IsPlaceholder : (s : Bytes) → IsPlaceholder (classify_segment s)
unfolding classify_segment contains
classify_segment-IsPlaceholder s = elim (Bool-cases (is_uuid s)) [
  | inl e ↦ rw e (refl, refl)
  | inr e ↦ rw e (elim (Bool-cases (is_date s)) [
    | inl e ↦ rw e (refl, refl)
    | inr e ↦ rw e (elim (Option-cases (id_prefix s)) [
      | inr (p, n) ↦ rw n (prefixed-IsPlaceholder s p n)
      | inl n ↦
          rw n
            (elim ((leb 4 (length s) && all_bytes is_digit s) || idish s)
              as (λ b. IsPlaceholder (if b then some id_placeholder else none)) [
                | true ↦ (refl, refl)
                | false ↦ tt
              ])
    ])
  ])
]

placeholder_lem :
    (s ph : Bytes)
    → classify_segment s ≡ some ph
    → (contains brace ph ≡ true) × (contains slash ph ≡ false)
placeholder_lem s ph e = subst IsPlaceholder e (classify_segment-IsPlaceholder s)

template_segment_kept : (s : Bytes) → classify_segment s ≡ none → template_segment s ≡ s
unfolding template_segment
template_segment_kept s e =
    rw e (elim (s == []) as (λ b. (if b then s else s) ≡ s) [ true ↦ refl | false ↦ refl ])

-- A segment stays, or becomes a placeholder.
template_segment-cases :
    (s : Bytes)
    → (template_segment s ≡ s)
      ⊎ ((contains brace (template_segment s) ≡ true)
          × (contains slash (template_segment s) ≡ false))
unfolding template_segment
template_segment-cases s = elim (Bool-cases (s == [])) [
  | inl e ↦ inl (rw e refl)
  | inr e ↦ elim (Option-cases (classify_segment s)) [
    | inl n ↦ inl (template_segment_kept s n)
    | inr (ph, n) ↦ rw (e, n) (inr (placeholder_lem s ph n))
  ]
]

template_segment_twice : (s : Bytes) → template_segment (template_segment s) ≡ template_segment s
template_segment_twice s = elim (template_segment-cases s) [
  | inl e ↦ ap template_segment e
  | inr h ↦
      template_segment_kept (template_segment s) (braced_unclassified (template_segment s) h.0)
]

template_segment-contains :
    (s : Bytes) → contains slash s ≡ false → contains slash (template_segment s) ≡ false
template_segment-contains s h = elim (template_segment-cases s) [ inl e ↦ rw e h | inr k ↦ k.1 ]

template_segments_plain :
    (l : List Bytes)
    → All (λ s. contains slash s ≡ false) l
    → All (λ s. contains slash s ≡ false) (template_segments l)
unfolding template_segments
template_segments_plain [] h = tt
template_segments_plain (s ∷ l) h = (template_segment-contains s h.0, template_segments_plain l h.1)

template_segments_twice :
    (l : List Bytes) → template_segments (template_segments l) ≡ template_segments l
unfolding template_segments
template_segments_twice [] = refl
template_segments_twice (s ∷ l) =
    ground (arith, template_segment_twice s, template_segments_twice l)

template_segments_cons : (l : List Bytes) → l ≢ [] → template_segments l ≢ []
unfolding template_segments
template_segments_cons [] ne e = ne refl
template_segments_cons (s ∷ l) ne e = ground (arith, e)

-- The template of a path is its own template: what a placeholder stands for is no identifier, and no
-- placeholder splits a segment.
pub templatize_idempotent : (path : Bytes) → templatize (templatize path) ≡ templatize path
unfolding templatize
templatize_idempotent path =
    let l = split slash path in
    ap (λ t. join slash (template_segments t))
      (split-join_cons slash (template_segments l)
        (template_segments_cons l (split-ne-nil slash path))
        (template_segments_plain l (split_plain slash path)))
    ∙ ap (join slash) (template_segments_twice l)
