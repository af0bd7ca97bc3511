-- ===== src/Sanitize/FastPath.antt =====
-- The short cut of `Classify` for plain keys and short values, against `classifySlow`
-- (internal/sanitize/sanitizer.go).
use pikopod.Base.{
  ◌≤◌, ◌≡◌, refl, sym, ap, ◌∙◌, Bool, true, false, not, ◌&&◌, List, [], ◌∷◌, ◌++◌, arith,
  if◌then◌else◌, length, length-append, Bool-cases, inl, inr,
}
use pikopod.Base.Bytes.{Bytes, split, join, contains, cut-none, has_prefix, join-split}
use pikopod.Base.Chars.{all_bytes, uuid_groups, is_uuid}
use pikopod.Sanitize.{
  tokenize, allow, is_enum_byte, is_jwt, is_email, is_prefixed_id, is_high_entropy, is_long_alnum,
  is_http_method, is_secret_key, is_secret_number_key, is_id_key, is_name_key, is_phone_key,
  is_card_key, is_expiry_key, is_enumish, is_short_enumish, plain_safe_key, classify_slow,
  classify_string,
}

length-uuid : (gs : List Bytes) → uuid_groups gs ≡ true → 20 ≤ length (join b'-' gs)
unfolding uuid_groups join
length-uuid (a ∷ b ∷ c ∷ d ∷ e ∷ []) h = ground (
  arith,
  h,
  length-append a (b'-' ∷ (b ++ b'-' ∷ (c ++ b'-' ∷ (d ++ b'-' ∷ e)))),
  length-append b (b'-' ∷ (c ++ b'-' ∷ (d ++ b'-' ∷ e))),
  length-append c (b'-' ∷ (d ++ b'-' ∷ e)),
  length-append d (b'-' ∷ e),
)
length-uuid [] h = absurd (ground (arith, h))
length-uuid (a ∷ []) h = absurd (ground (arith, h))
length-uuid (a ∷ b ∷ []) h = absurd (ground (arith, h))
length-uuid (a ∷ b ∷ c ∷ []) h = absurd (ground (arith, h))
length-uuid (a ∷ b ∷ c ∷ d ∷ []) h = absurd (ground (arith, h))
length-uuid (a ∷ b ∷ c ∷ d ∷ e ∷ f ∷ gs) h = absurd (ground (arith, h))

short_no_uuid : (v : Bytes) → length v ≤ 15 → is_uuid v ≡ false
unfolding is_uuid
short_no_uuid v h = elim (Bool-cases (is_uuid v)) [
  | inl e ↦ absurd (ground (arith, h, length-uuid (split b'-' v) e, ap length (join-split b'-' v)))
  | inr e ↦ e
]

no_at : (v : Bytes) → all_bytes is_enum_byte v ≡ true → contains b'@' v ≡ false
unfolding all_bytes contains
no_at [] h = refl
no_at (c ∷ v) h = ground (arith, h, no_at v)

enum_no_email : (v : Bytes) → all_bytes is_enum_byte v ≡ true → is_email v ≡ false
unfolding is_email
enum_no_email v h = rw (cut-none b'@' v (no_at v h), is_email) refl

enum_no_jwt : (v : Bytes) → all_bytes is_enum_byte v ≡ true → is_jwt v ≡ false
unfolding is_jwt all_bytes has_prefix
enum_no_jwt [] h = refl
enum_no_jwt (a ∷ []) h = ground (arith, h)
enum_no_jwt (a ∷ b ∷ []) h = ground (arith, h)
enum_no_jwt (a ∷ b ∷ c ∷ v) h = ground (arith, h)

-- What a short value in lower case is to the tests on values.
record Plain (v : Bytes) : Type 0 where
  no_jwt : is_jwt v ≡ false
  no_email : is_email v ≡ false
  no_uuid : is_uuid v ≡ false
  no_entropy : is_high_entropy v ≡ false
  no_long : is_long_alnum v ≡ false
  enumish : is_enumish v ≡ true

short-Plain : (v : Bytes) → is_short_enumish v ≡ true → Plain v
unfolding is_short_enumish is_high_entropy is_long_alnum is_enumish
short-Plain v h =
    let bytes : all_bytes is_enum_byte v ≡ true = ground (arith, h) in
    let short : length v ≤ 15 = ground (arith, h) in
    record {
      no_jwt = enum_no_jwt v bytes;
      no_email = enum_no_email v bytes;
      no_uuid = short_no_uuid v short;
      no_entropy = ground (arith, short);
      no_long = ground (arith, short);
      enumish = ground (arith, h);
    }

and_not : (a b : Bool) → not a && b ≡ true → (a ≡ false) × (b ≡ true)
and_not a b h = (ground (arith, h), ground (arith, h))

not-true : (b : Bool) → not b ≡ true → b ≡ false
not-true b h = ground (arith, h)

and_both : (a b : Bool) → a && b ≡ true → (a ≡ true) × (b ≡ true)
and_both a b h = (ground (arith, h), ground (arith, h))

record Harmless (k : Bytes) : Type 0 where
  no_secret : is_secret_key k ≡ false
  no_number : is_secret_number_key k ≡ false
  no_id : is_id_key k ≡ false
  no_name : is_name_key k ≡ false
  no_phone : is_phone_key k ≡ false
  no_expiry : is_expiry_key k ≡ false

plain-Harmless : (k : Bytes) → plain_safe_key k ≡ true → Harmless k
unfolding plain_safe_key
plain-Harmless [] p = absurd (ground (arith, p))
plain-Harmless (c ∷ k) p =
    let (secret, a) = and_not _ _ (and_both _ _ p).1 in
    let (number, b) = and_not _ _ a in
    let (id, d) = and_not _ _ b in
    let (name, e) = and_not _ _ d in
    let (phone, f) = and_not _ _ e in
    let (card, g) = and_not (is_card_key (c ∷ k)) (not (is_expiry_key (c ∷ k))) f in
    record {
      no_secret = secret;
      no_number = number;
      no_id = id;
      no_name = name;
      no_phone = phone;
      no_expiry = not-true (is_expiry_key (c ∷ k)) g;
    }

choose :
    (prefixed method : Bool)
    → (if prefixed then tokenize else if method then allow else allow)
      ≡ (if prefixed then tokenize else allow)
choose true method = refl
choose false true = refl
choose false false = refl

-- The slow classifier on what the short cut takes.
slow_on_short :
    (k v : Bytes)
    → is_short_enumish v ≡ true
    → plain_safe_key k ≡ true
    → classify_slow k v ≡ (if is_prefixed_id v then tokenize else allow)
unfolding classify_slow
slow_on_short k v h p =
    let q = short-Plain v h in
    let s = plain-Harmless k p in
    rw
      (
        s.no_secret, s.no_number, q.no_jwt, s.no_expiry, s.no_phone, s.no_name, s.no_id, q.no_email,
        q.no_uuid, q.no_entropy, q.no_long, q.enumish, classify_slow,
      )
      (choose (is_prefixed_id v) (is_http_method v))

contra : false ≡ true → ⊥
contra e = ground (arith, e)

abbrev pub takes_short_cut : Bytes → Bytes → Bool
takes_short_cut k v = is_short_enumish v && plain_safe_key k

-- The short cut changes the answer of the slow classifier only on a value that has the form of a
-- prefixed identifier, as `a_pending` has: there the slow one tokenizes, and the short cut allows.
pub fast_path_lem :
    (k v : Bytes)
    → ((takes_short_cut k v && is_prefixed_id v ≡ false) → classify_string k v ≡ classify_slow k v)
      × ((takes_short_cut k v && is_prefixed_id v ≡ true)
          → (classify_string k v ≡ allow) × (classify_slow k v ≡ tokenize))
unfolding classify_string
fast_path_lem k v = elim (Bool-cases (takes_short_cut k v)) [
  | inr e ↦ (λ h. rw e refl, λ h. absurd (ground (arith, e, h)))
  | inl e ↦
      let (short, plain) = and_both _ _ e in
      let slow = slow_on_short k v short plain in
      elim (Bool-cases (is_prefixed_id v)) [
        | inl p ↦
            (λ h. absurd (contra (sym h ∙ rw (e, p) refl)), λ h. (rw e refl, slow ∙ rw p refl))
        | inr p ↦
            (λ h. rw e (sym (slow ∙ rw p refl)), λ h. absurd (contra (sym (rw (e, p) refl) ∙ h)))
      ]
]
