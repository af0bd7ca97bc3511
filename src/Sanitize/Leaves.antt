-- ===== src/Sanitize/Leaves.antt =====
-- What a sanitized recording can show of a value (internal/sanitize/sanitizer.go, `Sanitize`).
use pikopod.Base.{
  ℕ, ◌+◌, ◌≡◌, refl, Bool, true, false, ◌&&◌, ◌||◌, Option, none, some, List, [], ◌∷◌, ◌++◌, ◌==◌,
  arith, bytes_eq, Bool-cases, inl, inr,
}
use pikopod.Base.Bytes.{Bytes, codes, has_prefix}
use pikopod.Base.Decimal.{itoa}
use pikopod.Base.Json.{Json, Items, Members, null, bool, num, str, arr, obj, nil, cons, end, member}
use pikopod.Sanitize.{Mode, drop_it, substitute, tokenize, allow}
use pikopod.Sanitize.Walk.{
  Rule, mode_for, set_member, placeholder, leaf_out, sanitize_leaf, add_item, out_key,
  child_pointer, set_out, walk_node, walk_list, walk_object, or_null, sanitize,
}

-- Some string or number of the value is the text.
unfoldable mutual
  pub shows : Bytes → Json → Bool
  shows s null = false
  shows s (bool b) = false
  shows s (num n) = n == s
  shows s (str t) = t == s
  shows s (arr items) = shows_list s items
  shows s (obj members) = shows_object s members

  pub shows_list : Bytes → Items → Bool
  shows_list s nil = false
  shows_list s (cons v items) = shows s v || shows_list s items

  pub shows_object : Bytes → Members → Bool
  shows_object s end = false
  shows_object s (member k v members) = shows s v || shows_object s members

abbrev pub is_allow : Mode → Bool
is_allow allow = true
is_allow _ = false

abbrev shows_option : Bytes → Option Json → Bool
unfolding shows
shows_option s none = false
shows_option s (some v) = shows s v

shows-set_member :
    (s k : Bytes) (w : Json) (out : Members)
    → shows_object s (set_member k w out) ≡ true
    → shows s w || shows_object s out ≡ true
unfolding shows_object set_member
shows-set_member s k w end h = ground (arith, h)
shows-set_member s k w (member j v ms) h = ground (arith, h, shows-set_member s k w ms)

-- A placeholder begins with the sign `<`.
no_placeholder : (key t : Bytes) → has_prefix t (codes "<") ≡ false → (placeholder key == t) ≡ false
unfolding placeholder has_prefix
no_placeholder key [] p = refl
no_placeholder key (c ∷ t) p = ground (arith, p)

module _ (token : Bytes → Bytes) (format_float : Bytes → Bytes) (rules : List Rule) where
  -- Some string or number of the value is the text, at a place where the rules, or else the
  -- classification of its key, allow it.
  unfoldable mutual
    unfolding mode_for itoa child_pointer

    pub allows : Bytes → Json → Bytes → Bytes → Bool → Bool
    allows s null pointer key h = false
    allows s (bool b) pointer key h = false
    allows s (num n) pointer key h = is_allow (mode_for rules key pointer (num n) h) && (n == s)
    allows s (str t) pointer key h = is_allow (mode_for rules key pointer (str t) h) && (t == s)
    allows s (arr items) pointer key h = allows_list s items 0 pointer key h
    allows s (obj members) pointer key h = allows_object s members pointer h

    pub allows_list : Bytes → Items → ℕ → Bytes → Bytes → Bool → Bool
    allows_list s nil i pointer key h = false
    allows_list s (cons v items) i pointer key h =
        allows s v (pointer ++ b'/' ∷ itoa i) key h || allows_list s items (i + 1) pointer key h

    pub allows_object : Bytes → Members → Bytes → Bool → Bool
    allows_object s end pointer h = false
    allows_object s (member k v members) pointer h =
        allows s v (child_pointer token format_float rules pointer k) k h
        || allows_object s members pointer h

  module _ (s : Bytes) (no_token : (raw : Bytes) → (token raw == s) ≡ false)
      (plain : has_prefix s (codes "<") ≡ false) where
    no_text :
        (mode : Mode) (pointer key t : Bytes)
        → shows_option s (leaf_out token format_float rules mode pointer key (str t)).0 ≡ true
        → is_allow mode && (t == s) ≡ true
    unfolding leaf_out shows
    no_text allow pointer key t h = h
    no_text drop_it pointer key t h = absurd (ground (arith, h))
    no_text substitute pointer key t h = absurd (ground (arith, h, no_placeholder key s plain))
    no_text tokenize pointer key t h = absurd (ground (arith, h, no_token t))

    no_number :
        (mode : Mode) (pointer key n : Bytes)
        → shows_option s (leaf_out token format_float rules mode pointer key (num n)).0 ≡ true
        → is_allow mode && (n == s) ≡ true
    unfolding leaf_out shows
    no_number allow pointer key n h = h
    no_number drop_it pointer key n h = absurd (ground (arith, h))
    no_number substitute pointer key n h = absurd (ground (arith, h, no_placeholder key s plain))
    no_number tokenize pointer key n h = absurd (ground (arith, h, no_token (format_float n)))

    no_null :
        (mode : Mode) (pointer key : Bytes)
        → shows_option s (leaf_out token format_float rules mode pointer key null).0 ≡ true
        → ⊥
    unfolding leaf_out shows
    no_null allow pointer key h = ground (arith, h)
    no_null drop_it pointer key h = ground (arith, h)
    no_null substitute pointer key h = ground (arith, h, no_placeholder key s plain)
    no_null tokenize pointer key h = ground (arith, h)

    no_bool :
        (mode : Mode) (pointer key : Bytes) (b : Bool)
        → shows_option s (leaf_out token format_float rules mode pointer key (bool b)).0 ≡ true
        → ⊥
    unfolding leaf_out shows
    no_bool allow pointer key b h = ground (arith, h)
    no_bool drop_it pointer key b h = ground (arith, h)
    no_bool substitute pointer key b h = ground (arith, h, no_placeholder key s plain)
    no_bool tokenize pointer key b h = ground (arith, h)

    add_item_shows :
        (w : Option Json) (rest : Items)
        → shows_list s (add_item token format_float rules w rest) ≡ true
        → shows_option s w || shows_list s rest ≡ true
    unfolding shows_list
    add_item_shows none rest h = h
    add_item_shows (some v) rest h = h

    set_out_shows :
        (k : Bytes) (w : Option Json) (out : Members)
        → shows_object s (set_out token format_float rules k w out) ≡ true
        → shows_option s w || shows_object s out ≡ true
    unfolding set_out shows_option
    set_out_shows k none out h = h
    set_out_shows k (some v) out h = shows-set_member s k v out h

    or_false-true : (a : Bool) → a || false ≡ true → a ≡ true
    or_false-true a h = ground (arith, h)

    reorder :
        (a b c d x : Bool)
        → a || b ≡ true
        → (b ≡ true → x || d ≡ true)
        → (x ≡ true → c ≡ true)
        → (c || a) || d ≡ true
    reorder true b c d x h f g = ground arith
    reorder false b c d true h f g = ground (arith, g refl)
    reorder false b c d false h f g = ground (arith, f h)

    from_root :
        (w : Option Json)
        → shows s (or_null token format_float rules w) ≡ true
        → shows_option s w ≡ true
    unfolding shows
    from_root none h = h
    from_root (some v) h = h

    either :
        (a b a' b' : Bool)
        → a || b ≡ true
        → (a ≡ true → a' ≡ true)
        → (b ≡ true → b' ≡ true)
        → a' || b' ≡ true
    either true b a' b' h f g = ground (arith, f refl)
    either false b a' b' h f g = ground (arith, g h)

    mutual
      unfolding walk_node sanitize_leaf shows allows

      walk_node_shows :
          (v : Json) (pointer key : Bytes) (h : Bool)
          → shows_option s (walk_node token format_float rules v pointer key h).0 ≡ true
          → allows s v pointer key h ≡ true
      walk_node_shows null pointer key h e = absurd (no_null _ pointer key e)
      walk_node_shows (bool b) pointer key h e = absurd (no_bool _ pointer key b e)
      walk_node_shows (num n) pointer key h e = no_number _ pointer key n e
      walk_node_shows (str t) pointer key h e = no_text _ pointer key t e
      walk_node_shows (arr items) pointer key h e = walk_list_shows items 0 pointer key h e
      walk_node_shows (obj members) pointer key h e =
          or_false-true _ (walk_object_shows members pointer h end e)

      walk_list_shows :
          (items : Items) (i : ℕ) (pointer key : Bytes) (h : Bool)
          → shows_list s (walk_list token format_float rules items i pointer key h).0 ≡ true
          → allows_list s items i pointer key h ≡ true
      walk_list_shows nil i pointer key h e = absurd (ground (arith, e))
      walk_list_shows (cons v items) i pointer key h e =
          either _ _ _ _
            (add_item_shows
              (walk_node token format_float rules v (pointer ++ b'/' ∷ itoa i) key h).0
              (walk_list token format_float rules items (i + 1) pointer key h).0 e)
            (walk_node_shows v (pointer ++ b'/' ∷ itoa i) key h)
            (walk_list_shows items (i + 1) pointer key h)

      walk_object_shows :
          (members : Members) (pointer : Bytes) (h : Bool) (out : Members)
          → shows_object s (walk_object token format_float rules members pointer h out).0 ≡ true
          → allows_object s members pointer h || shows_object s out ≡ true
      walk_object_shows end pointer h out e = e
      walk_object_shows (member k v members) pointer h out e =
          reorder _ _ _ _ _ (walk_object_shows members pointer h _ e)
            (set_out_shows (out_key token format_float rules k) _ out)
            (walk_node_shows v (child_pointer token format_float rules pointer k) k h)

    -- Nothing of a value comes out of the sanitizer, but as a token or a placeholder, unless the rules or
    -- the classification of its key allow it: a text that no token is, and that does not begin with the
    -- sign of a placeholder, is no string and no number of what comes out, unless it is one of the value
    -- at a place where it is allowed.
    pub sanitize_hides :
        (value : Json) (is_header_root : Bool)
        → allows s value [] [] is_header_root ≡ false
        → shows s (sanitize token format_float rules value is_header_root).0 ≡ false
    unfolding sanitize shows
    sanitize_hides value h a =
        elim (Bool-cases (shows s (sanitize token format_float rules value h).0)) [
          | inr e ↦ e
          | inl e ↦ absurd (
              ground (
                arith,
                a,
                walk_node_shows value [] [] h
                    (from_root (walk_node token format_float rules value [] [] h).0 e),
              ))
        ]
