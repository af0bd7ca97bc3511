-- ===== src/Sanitize/Patterns.antt =====
-- The header names and the regular expressions of internal/sanitize/sanitizer.go (and `emailRE` of
-- tokenizer.go) as tests on bytes: those on keys look for a word of a list, those on values are
-- anchored at both ends. The texts are in ASCII.
use pikopod.Base.{
  ℕ, ◌-◌, Bool, true, false, not, ◌&&◌, ◌||◌, none, some, List, [], ◌∷◌, ◌++◌, ◌==◌, nat_beq, leb,
  length, take, drop, bytes_eq,
}
use pikopod.Base.Bytes.{Bytes, codes, split, contains, cut, has_prefix}
use pikopod.Base.Chars.{between, is_digit, is_alnum, is_opaque, all_bytes, starts_alpha}

abbrev is_mark : ℕ → Bool
is_mark c = nat_beq c b'_' || nat_beq c b'-'

-- `($|_|-)` after a word
abbrev ends_here : Bytes → Bool
ends_here [] = true
ends_here (c ∷ s) = is_mark c

-- Some word of the list stands at the head of the text, and ends there.
unfoldable pub word_here : List Bytes → Bytes → Bool
unfolding has_prefix
word_here [] s = false
word_here (w ∷ ws) s = (has_prefix s w && ends_here (drop (length w) s)) || word_here ws s

-- `(^|_|-)(w|…)($|_|-)`; the first argument says that a word may begin here.
unfoldable pub has_word_from : Bool → List Bytes → Bytes → Bool
unfolding word_here
has_word_from start ws [] = false
has_word_from start ws (c ∷ s) = (start && word_here ws (c ∷ s)) || has_word_from (is_mark c) ws s

abbrev pub has_word : List Bytes → Bytes → Bool
has_word ws s = has_word_from true ws s

unfoldable pub any_prefix : List Bytes → Bytes → Bool
unfolding has_prefix
any_prefix [] s = false
any_prefix (w ∷ ws) s = has_prefix s w || any_prefix ws s

-- `(w|…)` anywhere in the text
unfoldable pub has_part : List Bytes → Bytes → Bool
unfolding any_prefix
has_part ws [] = false
has_part ws (c ∷ s) = any_prefix ws (c ∷ s) || has_part ws s

abbrev pub one_of : List Bytes → Bytes → Bool
one_of [] s = false
one_of (w ∷ ws) s = (w == s) || one_of ws s

abbrev pub words : Bytes → List Bytes
words s = split b' ' s

-- `authHeaders`, `dropHeaders`, `safeHeaders`
abbrev pub auth_headers : List Bytes
unfolding split
auth_headers = words (
    codes
      "authorization proxy-authorization x-api-key x-auth-token x-hub-signature x-hub-signature-256 x-signature")

abbrev pub drop_headers : List Bytes
unfolding split
drop_headers = words (codes "cookie set-cookie")

abbrev pub safe_headers : List Bytes
unfolding split
safe_headers = words (
    codes
      "content-type accept content-length user-agent accept-encoding retry-after x-ratelimit-remaining x-request-id traceparent")

-- `idKeyRE` to `expiryKeyRE`
unfoldable pub is_id_key : Bytes → Bool
unfolding split has_word_from
is_id_key k = has_word (words (codes "id ids uuid guid email account customer user order ref")) k

unfoldable pub is_secret_key : Bytes → Bool
unfolding split has_part
is_secret_key k =
    has_part
      (words (
        codes
          "apikey api_key api-key secret password passwd token credential auth signature privatekey private_key private-key accesskey access_key access-key bearer"))
      k

unfoldable pub is_name_key : Bytes → Bool
unfolding split has_word_from
is_name_key k =
    has_word
      (words (
        codes
          "name surname username nickname city street address dob birthdate birthday birth gender beneficiary sender recipient payee payer holder"))
      k

unfoldable pub is_phone_key : Bytes → Bool
unfolding split has_word_from
is_phone_key k = has_word (words (codes "phone mobile msisdn")) k

unfoldable pub is_card_key : Bytes → Bool
unfolding split has_word_from
is_card_key k = has_word (words (codes "card pan iban bvn nin ssn")) k

-- The words that `one[_-]?time[_-]?(code|password|pin)` stands for.
abbrev one_time_words : List Bytes
unfolding split
one_time_words =
    words (
      codes
        "onetimecode one_timecode one-timecode onetime_code one_time_code one-time_code onetime-code one_time-code one-time-code")
    ++ (words (
          codes
            "onetimepassword one_timepassword one-timepassword onetime_password one_time_password one-time_password onetime-password one_time-password one-time-password")
        ++ words (
            codes
              "onetimepin one_timepin one-timepin onetime_pin one_time_pin one-time_pin onetime-pin one_time-pin one-time-pin"))

unfoldable pub is_secret_number_key : Bytes → Bool
unfolding split has_word_from
is_secret_number_key k =
    has_word
      (words (
          codes
            "cvv cvv2 cvc cvc2 cid csc pin otp passcode securitycode security_code security-code")
        ++ one_time_words)
      k

unfoldable pub is_expiry_key : Bytes → Bool
unfolding split has_word_from
is_expiry_key k =
    has_word
      (words (
        codes
          "expiry expiration expmonth exp_month exp-month expyear exp_year exp-year validthru valid_thru valid-thru validuntil valid_until valid-until"))
      k

-- `[A-Za-z0-9_-]`, `[A-Za-z0-9_\-+/=]`, `[a-z._/+-]`
abbrev is_entropy_byte : ℕ → Bool
is_entropy_byte c = is_opaque c || (nat_beq c b'+' || (nat_beq c b'/' || nat_beq c b'='))

abbrev pub is_enum_byte : ℕ → Bool
is_enum_byte c =
    between b'a' b'z' c
    || (nat_beq c b'.'
        || (nat_beq c b'_' || (nat_beq c b'/' || (nat_beq c b'+' || nat_beq c b'-'))))

abbrev is_space_byte : ℕ → Bool
is_space_byte c =
    nat_beq c b' ' || (nat_beq c 9 || (nat_beq c 10 || (nat_beq c 12 || nat_beq c 13)))

abbrev jwt_parts : List Bytes → Bool
unfolding all_bytes
jwt_parts (a ∷ b ∷ c ∷ []) =
    (leb 6 (length a) && all_bytes is_opaque a)
    && ((leb 6 (length b) && all_bytes is_opaque b) && all_bytes is_opaque c)
jwt_parts _ = false

-- `jwtRE`: the classes of its parts have no dot.
unfoldable pub is_jwt : Bytes → Bool
unfolding has_prefix split all_bytes
is_jwt v = has_prefix v (codes "eyJ") && jwt_parts (split b'.' (drop 3 v))

-- `highEntropyRE`, whose class has no white space
unfoldable pub is_high_entropy : Bytes → Bool
unfolding all_bytes
is_high_entropy v = leb 28 (length v) && all_bytes is_entropy_byte v

-- `httpMethodRE`
unfoldable pub is_http_method : Bytes → Bool
unfolding split
is_http_method v = one_of (words (codes "GET POST PUT PATCH DELETE HEAD OPTIONS TRACE CONNECT")) v

-- `longAlnumRE`, `longDigitsRE`, `mediumAlnumRE`
unfoldable pub is_long_alnum : Bytes → Bool
unfolding all_bytes
is_long_alnum v = leb 16 (length v) && all_bytes is_alnum v

unfoldable pub is_long_digits : Bytes → Bool
unfolding all_bytes
is_long_digits v = leb 6 (length v) && all_bytes is_digit v

unfoldable pub is_medium_alnum : Bytes → Bool
unfolding all_bytes
is_medium_alnum v = (leb 6 (length v) && leb (length v) 15) && all_bytes is_alnum v

abbrev starts_lower : Bytes → Bool
starts_lower [] = false
starts_lower (c ∷ s) = between b'a' b'z' c

-- `enumishRE` and `shortEnumishRE`
unfoldable pub is_enumish : Bytes → Bool
unfolding all_bytes
is_enumish v = starts_lower v && (leb (length v) 31 && all_bytes is_enum_byte v)

unfoldable pub is_short_enumish : Bytes → Bool
unfolding all_bytes
is_short_enumish v = starts_lower v && (leb (length v) 15 && all_bytes is_enum_byte v)

-- `prefixedIDRE`
unfoldable pub is_prefixed_id : Bytes → Bool
unfolding cut all_bytes
is_prefixed_id v = elim (cut b'_' v) [
  | none ↦ false
  | some (p, s) ↦
      starts_alpha p && (all_bytes is_alnum p && (leb 6 (length s) && all_bytes is_alnum s))
]

abbrev is_local_byte : ℕ → Bool
is_local_byte c = not (nat_beq c b'@') && not (is_space_byte c)

-- `emailRE`: of the domain some dot is neither the first nor the last byte.
unfoldable pub is_email : Bytes → Bool
unfolding cut all_bytes contains
is_email v = elim (cut b'@' v) [
  | none ↦ false
  | some (l, d) ↦
      (leb 1 (length l) && all_bytes is_local_byte l)
      && (all_bytes is_local_byte d && contains b'.' (drop 1 (take (length d - 1) d)))
]
