-- ===== src/Sanitize.antt =====
-- internal/sanitize/sanitizer.go: which values of a recording are kept, and which are dropped, replaced
-- or tokenized.
pub mod Patterns
pub mod FastPath
pub mod Walk
pub mod Leaves
use pikopod.Base.{
  ℕ, ◌+◌, ◌-◌, Bool, true, false, not, ◌&&◌, ◌||◌, Option, none, some, List, [], ◌∷◌, ◌++◌, ◌==◌,
  nat_beq, leb, ltb, if◌then◌else◌, length, take, drop, bytes_eq,
}
use pikopod.Base.Bytes.{Bytes, codes, split, contains, cut, has_prefix, to_lower}
use pikopod.Base.Json.{Json, null, bool, num, str, arr, obj}
use pikopod.Base.Chars.{
  between, is_digit, is_alpha, is_alnum, is_opaque, all_bytes, is_uuid, starts_alpha,
}
pub use Patterns.{auth_headers, drop_headers, safe_headers}
unfoldable pub use Patterns.{
  one_of, is_id_key, is_secret_key, is_name_key, is_phone_key, is_card_key, is_secret_number_key,
  is_expiry_key, is_enum_byte, is_jwt, is_high_entropy, is_http_method, is_long_alnum,
  is_long_digits, is_medium_alnum, is_enumish, is_short_enumish, is_prefixed_id, is_email,
}

pub data Mode : Type 0 where
  drop_it substitute tokenize allow : Mode

-- `classifySlow`
unfoldable pub classify_slow : Bytes → Bytes → Mode
unfolding is_secret_key is_secret_number_key is_jwt is_expiry_key is_phone_key is_name_key is_id_key
    is_email is_uuid is_prefixed_id is_high_entropy is_long_alnum is_http_method is_enumish
    is_long_digits is_medium_alnum
classify_slow k v =
    if is_secret_key k
    then substitute
    else if is_secret_number_key k
    then substitute
    else if is_jwt v
    then substitute
    else if is_expiry_key k
    then tokenize
    else if is_phone_key k
    then tokenize
    else if is_name_key k
    then drop_it
    else if is_id_key k
    then tokenize
    else if is_email v || (is_uuid v || is_prefixed_id v)
    then tokenize
    else if is_high_entropy v
    then substitute
    else if is_long_alnum v
    then substitute
    else if is_http_method v
    then allow
    else if is_enumish v
    then allow
    else if is_long_digits v
    then tokenize
    else if is_medium_alnum v
    then tokenize
    else drop_it

abbrev is_lower : ℕ → Bool
is_lower c = between b'a' b'z' c

-- `plainSafeKey`
unfoldable pub plain_safe_key : Bytes → Bool
unfolding all_bytes is_secret_key is_secret_number_key is_id_key is_name_key is_phone_key
    is_card_key is_expiry_key
plain_safe_key [] = false
plain_safe_key (c ∷ k) =
    all_bytes is_lower (c ∷ k)
    && (not (is_secret_key (c ∷ k))
        && (not (is_secret_number_key (c ∷ k))
            && (not (is_id_key (c ∷ k))
                && (not (is_name_key (c ∷ k))
                    && (not (is_phone_key (c ∷ k))
                        && (not (is_card_key (c ∷ k)) && not (is_expiry_key (c ∷ k))))))))

-- `Classify` on a string, after the headers
unfoldable pub classify_string : Bytes → Bytes → Mode
unfolding is_short_enumish plain_safe_key classify_slow
classify_string k v = if is_short_enumish v && plain_safe_key k then allow else classify_slow k v

-- `Classify` on anything else
unfoldable pub classify_other : Bytes → Mode
unfolding is_secret_key is_secret_number_key is_id_key is_name_key is_phone_key is_card_key
    is_expiry_key
classify_other k =
    if is_secret_key k || is_secret_number_key k
    then substitute
    else if is_id_key k || (is_name_key k || (is_phone_key k || (is_card_key k || is_expiry_key k)))
    then tokenize
    else allow

abbrev classify_value : Bytes → Json → Mode
classify_value k (str v) = classify_string k v
classify_value k _ = classify_other k

-- `Classify`
unfoldable pub classify : Bytes → Json → Bool → Mode
unfolding classify_string classify_other
classify key value is_header =
    let k = to_lower key in
    if is_header && one_of auth_headers k
    then substitute
    else if is_header && one_of drop_headers k
    then drop_it
    else if is_header && one_of safe_headers k
    then allow
    else classify_value k value
