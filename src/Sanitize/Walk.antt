-- ===== src/Sanitize/Walk.antt =====
-- internal/sanitize/sanitizer.go, `Sanitize`. The tokenizer is a parameter, and so is the text that
-- `FormatFloat` gives a number; an object of the result keeps the order in which its keys were set.
use pikopod.Base.{
  ℕ, ◌+◌, Bool, true, false, not, ◌&&◌, ◌||◌, Option, none, some, List, [], ◌∷◌, ◌++◌, ◌==◌,
  nat_beq, leb, if◌then◌else◌, length, bytes_eq,
}
use pikopod.Base.Bytes.{Bytes, codes, split, has_prefix, equal_fold}
use pikopod.Base.Json.{Json, Items, Members, null, bool, num, str, arr, obj, nil, cons, end, member}
use pikopod.Base.Decimal.{itoa}
use pikopod.Base.Chars.{is_digit, is_alpha, is_alnum, all_bytes, is_uuid}
use pikopod.Sanitize.{
  Mode, drop_it, substitute, tokenize, allow, one_of, is_email, is_jwt, is_long_digits,
  is_prefixed_id, is_high_entropy, is_long_alnum, classify,
}

pub record Rule : Type 0 where
  pub field : Bytes
  pub pointer_prefix : Bytes
  pub mode : Mode
  pub allowed_values : List Bytes

pub record Redaction : Type 0 where
  pub pointer : Bytes
  pub mode : Mode

abbrev pub is_listed : List Bytes → Json → Bool
is_listed values (str s) = one_of values s
is_listed values _ = false

-- `admits`
unfoldable pub admits : Rule → Json → Bool
admits r node = nat_beq (length r.allowed_values) 0 || is_listed r.allowed_values node

-- `ruleFor`
unfoldable pub rule_for : List Rule → Bytes → Bytes → Json → Option Mode
unfolding admits equal_fold has_prefix
rule_for [] key pointer node = none
rule_for (r ∷ rules) key pointer node =
    let rest = rule_for rules key pointer node in
    if not (admits r node)
    then rest
    else if not (r.field == []) && equal_fold r.field key
    then some r.mode
    else if not (r.pointer_prefix == []) && has_prefix pointer r.pointer_prefix
    then some r.mode
    else rest

abbrev pub or_mode : Option Mode → Mode → Mode
or_mode none m = m
or_mode (some m) other = m

-- The mode of a value that is neither a list nor an object.
unfoldable pub mode_for : List Rule → Bytes → Bytes → Json → Bool → Mode
unfolding rule_for classify
mode_for rules key pointer node is_header =
    or_mode (rule_for rules key pointer node) (classify key node is_header)

-- `escapePointer`
unfoldable pub escape_pointer : Bytes → Bytes
escape_pointer [] = []
escape_pointer (c ∷ s) =
    let rest = escape_pointer s in
    if nat_beq c b'~'
    then b'~' ∷ b'0' ∷ rest
    else if nat_beq c b'/'
    then b'~' ∷ b'1' ∷ rest
    else c ∷ rest

-- The groups of `multiPrefixedIDRE`: what follows the first underscore, taken apart there.
abbrev pub groups_from : List Bytes → ℕ → Bool
unfolding all_bytes
groups_from [] n = leb 2 n && leb n 4
groups_from (g ∷ gs) n = (not (g == []) && all_bytes is_alnum g) && groups_from gs (n + 1)

abbrev pub head_group : List Bytes → Bool
unfolding all_bytes
head_group [] = false
head_group ([] ∷ gs) = false
head_group ((c ∷ g) ∷ gs) = (is_alpha c && all_bytes is_alnum g) && groups_from gs 0

unfoldable pub is_multi_prefixed_id : Bytes → Bool
unfolding split all_bytes
is_multi_prefixed_id k = head_group (split b'_' k)

unfoldable pub any_digit : Bytes → Bool
any_digit [] = false
any_digit (c ∷ k) = is_digit c || any_digit k

-- `keyLooksLikeIdentifier`
unfoldable pub is_identifier_key : Bytes → Bool
unfolding is_email is_uuid is_jwt is_long_digits any_digit is_prefixed_id is_multi_prefixed_id
    is_high_entropy is_long_alnum
is_identifier_key k =
    if is_email k || (is_uuid k || (is_jwt k || is_long_digits k))
    then true
    else if not (any_digit k)
    then false
    else is_prefixed_id k || (is_multi_prefixed_id k || (is_high_entropy k || is_long_alnum k))

-- `out[k] = w`
unfoldable pub set_member : Bytes → Json → Members → Members
set_member k w end = member k w end
set_member k w (member j v ms) =
    let rest = set_member k w ms in if j == k then member k w ms else member j v rest

unfoldable pub placeholder : Bytes → Bytes
placeholder key =
    codes "<<SUBSTITUTE:" ++ ((if key == [] then codes "value" else key) ++ codes ">>")

abbrev pub redacted : Bytes → Mode → List Redaction
redacted pointer mode = record { pointer = pointer; mode = mode } ∷ []

module _ (token : Bytes → Bytes) (format_float : Bytes → Bytes) (rules : List Rule) where
  abbrev pub tokenized : Json → Json
  tokenized (str s) = str (token s)
  tokenized (num n) = str (token (format_float n))
  tokenized node = node

  -- A value that is neither a list nor an object: `none` where it is dropped.
  unfoldable pub leaf_out : Mode → Bytes → Bytes → Json → Option Json × List Redaction
  unfolding placeholder
  leaf_out allow pointer key node = (some node, [])
  leaf_out drop_it pointer key node = (none, redacted pointer drop_it)
  leaf_out substitute pointer key node = (some (str (placeholder key)), redacted pointer substitute)
  leaf_out tokenize pointer key node = (some (tokenized node), redacted pointer tokenize)

  unfoldable pub sanitize_leaf : Bytes → Bytes → Bool → Json → Option Json × List Redaction
  unfolding mode_for leaf_out
  sanitize_leaf pointer key is_header node =
      leaf_out (mode_for rules key pointer node is_header) pointer key node

  abbrev pub add_item : Option Json → Items → Items
  add_item none rest = rest
  add_item (some w) rest = cons w rest

  unfoldable pub out_key : Bytes → Bytes
  unfolding is_identifier_key
  out_key k = if is_identifier_key k then token k else k

  unfoldable pub child_pointer : Bytes → Bytes → Bytes
  unfolding escape_pointer
  child_pointer pointer k = pointer ++ b'/' ∷ escape_pointer (out_key k)

  unfoldable pub key_redaction : Bytes → Bytes → Option Json → List Redaction
  unfolding is_identifier_key
  key_redaction pointer k none = []
  key_redaction pointer k (some w) =
      if is_identifier_key k then redacted (child_pointer pointer k) tokenize else []

  unfoldable pub set_out : Bytes → Option Json → Members → Members
  unfolding set_member
  set_out k none out = out
  set_out k (some w) out = set_member k w out

  -- `walk` of `Sanitize`; the members are those set so far.
  unfoldable mutual
    unfolding sanitize_leaf child_pointer key_redaction set_out out_key itoa

    pub walk_node : Json → Bytes → Bytes → Bool → Option Json × List Redaction
    walk_node (arr items) pointer key h =
        let (out, reds) = walk_list items 0 pointer key h in (some (arr out), reds)
    walk_node (obj members) pointer key h =
        let (out, reds) = walk_object members pointer h end in (some (obj out), reds)
    walk_node null pointer key h = sanitize_leaf pointer key h null
    walk_node (bool b) pointer key h = sanitize_leaf pointer key h (bool b)
    walk_node (num n) pointer key h = sanitize_leaf pointer key h (num n)
    walk_node (str s) pointer key h = sanitize_leaf pointer key h (str s)

    pub walk_list : Items → ℕ → Bytes → Bytes → Bool → Items × List Redaction
    walk_list nil i pointer key h = (nil, [])
    walk_list (cons v items) i pointer key h =
        let (w, reds) = walk_node v (pointer ++ b'/' ∷ itoa i) key h in
        let (rest, more) = walk_list items (i + 1) pointer key h in (add_item w rest, reds ++ more)

    pub walk_object : Members → Bytes → Bool → Members → Members × List Redaction
    walk_object end pointer h out = (out, [])
    walk_object (member k v members) pointer h out =
        let (w, reds) = walk_node v (child_pointer pointer k) k h in
        let (rest, more) = walk_object members pointer h (set_out (out_key k) w out) in
        (rest, reds ++ (key_redaction pointer k w ++ more))

  abbrev pub or_null : Option Json → Json
  or_null none = null
  or_null (some w) = w

  -- `Sanitize`
  unfoldable pub sanitize : Json → Bool → Json × List Redaction
  unfolding walk_node
  sanitize value is_header_root =
      let (w, reds) = walk_node value [] [] is_header_root in (or_null w, reds)
