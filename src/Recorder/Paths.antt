-- ===== src/Recorder/Paths.antt =====
-- What the recorded path of a call shows (internal/proxy/recorder.go, `sanitizePath`).
use pikopod.Base.{
  ℕ, ◌≡◌, ◌≢◌, refl, sym, ap, ◌∙◌, subst, Bool, true, false, ◌||◌, Option, none, some, List, [],
  ◌∷◌, ◌++◌, ◌==◌, arith, nat_beq, if◌then◌else◌, bytes_eq, bytes_beq_iff, All, Bool-cases,
  Option-cases, inl, inr,
}
use pikopod.Base.Bytes.{Bytes, split, join, contains, cut, cut_at, cut-none}
use pikopod.Base.Splits.{
  split-contains, contains-append, join-contains, split_plain, split-ne-nil, split-join_cons,
  cut_plain, contains-cut, none-contains,
}
use pikopod.Base.Json.{str}
use pikopod.Sanitize.{classify}
use pikopod.Sanitize.Walk.{is_identifier_key}
use pikopod.Recorder.{
  url_unescape, is_allowed, or_whole, sanitize_segment, sanitize_segments, sanitize_value,
  sanitize_pair, sanitize_pairs, sanitize_path,
}

abbrev pub is_delimiter : ℕ → Bool
is_delimiter c = nat_beq c b'/' || (nat_beq c b'?' || (nat_beq c b'&' || nat_beq c b'='))

-- The parts of a path that are tested: the segments before the first `?`, and the pairs after it.
abbrev pub path_of : Bytes → Bytes
path_of p = (or_whole p (cut b'?' p)).0

abbrev pub pairs_in : Option (Bytes × Bytes) → List Bytes
pairs_in none = []
pairs_in (some (path, query)) = split b'&' query

abbrev pub key_of : Bytes → Bytes
key_of pair = (or_whole pair (cut b'=' pair)).0

abbrev pub value_of : Bytes → Bytes
value_of pair = (or_whole pair (cut b'=' pair)).1

module _ (token : Bytes → Bytes) where
  pub data SafeSegment (seg : Bytes) : Type 0 where
    no_segment : seg ≡ [] → SafeSegment seg
    token_segment : (raw : Bytes) → seg ≡ token raw → SafeSegment seg
    allowed_segment :
        is_allowed (classify [] (str (url_unescape seg)) false) ≡ true → SafeSegment seg

  pub data SafeKey (k : Bytes) : Type 0 where
    token_key : (raw : Bytes) → k ≡ token raw → SafeKey k
    plain_key : is_identifier_key (url_unescape k) ≡ false → SafeKey k

  pub data SafeValue (k v : Bytes) : Type 0 where
    no_value : v ≡ [] → SafeValue k v
    token_value : (raw : Bytes) → v ≡ token raw → SafeValue k v
    allowed_value :
        is_allowed (classify (url_unescape k) (str (url_unescape v)) false) ≡ true → SafeValue k v

  abbrev pub SafeParts : Bytes × Bytes → Type 0
  SafeParts (k, v) = SafeKey k × SafeValue k v

  abbrev pub SafePair : Bytes → Type 0
  SafePair pair = SafeParts (or_whole pair (cut b'=' pair))

  -- Tokens hold none of the bytes at which a path is taken apart.
  abbrev pub CleanTokens : Type 0
  CleanTokens = (raw : Bytes) (c : ℕ) → is_delimiter c ≡ true → contains c (token raw) ≡ false

  module _ (clean : CleanTokens) where
    segment-SafeSegment :
        (seg : Bytes) (c : ℕ)
        → is_delimiter c ≡ true
        → contains c seg ≡ false
        → SafeSegment (sanitize_segment token seg).0
          × (contains c (sanitize_segment token seg).0 ≡ false)
    unfolding sanitize_segment
    segment-SafeSegment seg c d h = elim (Bool-cases (seg == [])) [
      | inl e ↦ rw e (no_segment ((bytes_beq_iff seg []).0 e), h)
      | inr e ↦ elim (Bool-cases (is_allowed (classify [] (str (url_unescape seg)) false))) [
        | inl a ↦ rw (e, a) (allowed_segment a, h)
        | inr a ↦ rw (e, a) (token_segment (url_unescape seg) refl, clean (url_unescape seg) c d)
      ]
    ]

    segments-SafeSegment :
        (segs : List Bytes) (c : ℕ)
        → is_delimiter c ≡ true
        → All (λ s. contains c s ≡ false) segs
        → All SafeSegment (sanitize_segments token segs).0
          × All (λ s. contains c s ≡ false) (sanitize_segments token segs).0
    unfolding sanitize_segments
    segments-SafeSegment [] c d h = (tt, tt)
    segments-SafeSegment (seg ∷ segs) c d h =
        let (a, b) = segment-SafeSegment seg c d h.0 in
        let (more, rest) = segments-SafeSegment segs c d h.1 in ((a, more), (b, rest))

    segments-ne-nil : (segs : List Bytes) → segs ≢ [] → (sanitize_segments token segs).0 ≢ []
    unfolding sanitize_segments
    segments-ne-nil [] n e = n refl
    segments-ne-nil (seg ∷ segs) n e = ground (arith, e)

    -- A pair made of a key without `=` and a value.
    made-SafePair :
        (k v : Bytes)
        → contains b'=' k ≡ false
        → SafeKey k
        → SafeValue k v
        → SafePair (k ++ b'=' ∷ v)
    made-SafePair k v h a b =
        subst SafeParts (sym (ap (or_whole (k ++ b'=' ∷ v)) (cut_at b'=' k v h))) (a, b)

    -- What the second half of the loop makes of a pair that has the key and the value.
    value-SafePair :
        (pair k v : Bytes)
        → contains b'=' k ≡ false
        → or_whole pair (cut b'=' pair) ≡ (k, v)
        → SafeKey k
        → SafePair (sanitize_value token pair k v).0
    unfolding sanitize_value
    value-SafePair pair k v h e a = elim (Bool-cases (v == [])) [
      | inl n ↦ rw (n, e) (a, no_value ((bytes_beq_iff v []).0 n))
      | inr n ↦
          elim (Bool-cases (is_allowed (classify (url_unescape k) (str (url_unescape v)) false))) [
            | inl y ↦ rw (n, y, e) (a, allowed_value y)
            | inr y ↦
                rw (n, y)
                  (made-SafePair k (token (url_unescape v)) h a (token_value (url_unescape v) refl))
          ]
    ]

    value-contains :
        (pair k v : Bytes)
        → contains b'&' pair ≡ false
        → contains b'&' k ≡ false
        → contains b'&' (sanitize_value token pair k v).0 ≡ false
    unfolding sanitize_value contains
    value-contains pair k v h a = elim (Bool-cases (v == [])) [
      | inl n ↦ rw n h
      | inr n ↦
          elim (Bool-cases (is_allowed (classify (url_unescape k) (str (url_unescape v)) false))) [
            | inl y ↦ rw (n, y) h
            | inr y ↦
                rw (n, y)
                  (contains-append b'&' k (b'=' ∷ token (url_unescape v))
                    ∙ ground (arith, a, clean (url_unescape v) b'&' refl))
          ]
    ]

    abbrev made_pair : Bytes → Bytes → Bytes
    made_pair t v = if v == [] then t else t ++ b'=' ∷ v

    made_pair-parts :
        (t v : Bytes)
        → contains b'=' t ≡ false
        → or_whole (made_pair t v) (cut b'=' (made_pair t v)) ≡ (t, v)
    made_pair-parts t v h = elim (Bool-cases (v == [])) [
      | inl n ↦ rw (n, cut-none b'=' t h) (ap (λ x. (t, x)) (sym ((bytes_beq_iff v []).0 n)))
      | inr n ↦ rw (n, cut_at b'=' t v h) refl
    ]

    made_pair-contains :
        (t v : Bytes)
        → contains b'&' t ≡ false
        → contains b'&' v ≡ false
        → contains b'&' (made_pair t v) ≡ false
    unfolding contains
    made_pair-contains t v h a = elim (Bool-cases (v == [])) [
      | inl n ↦ rw n h
      | inr n ↦ rw n (contains-append b'&' t (b'=' ∷ v) ∙ ground (arith, h, a))
    ]

    abbrev PlainParts : Bytes × Bytes → Type 0
    PlainParts (k, v) =
        (contains b'=' k ≡ false) × ((contains b'&' k ≡ false) × (contains b'&' v ≡ false))

    -- The key and the value of a pair.
    parts-PlainParts :
        (pair : Bytes) → contains b'&' pair ≡ false → PlainParts (or_whole pair (cut b'=' pair))
    unfolding contains
    parts-PlainParts pair h = elim (Option-cases (cut b'=' pair)) [
      | inl n ↦ subst PlainParts (sym (ap (or_whole pair) n)) (none-contains b'=' pair n, (h, refl))
      | inr ((k, v), n) ↦
          subst PlainParts (sym (ap (or_whole pair) n))
            (cut_plain b'=' pair k v n, contains-cut b'=' b'&' pair k v n h)
    ]

    pair-SafePair :
        (pair : Bytes)
        → contains b'&' pair ≡ false
        → SafePair (sanitize_pair token pair).0
          × (contains b'&' (sanitize_pair token pair).0 ≡ false)
    unfolding sanitize_pair
    pair-SafePair pair h =
        let k = key_of pair in
        let v = value_of pair in
        let (plain, (k_plain, v_plain)) = parts-PlainParts pair h in
        let t = token (url_unescape k) in
        elim (Bool-cases (is_identifier_key (url_unescape k))) [
          | inl y ↦
              rw (y, sanitize_pair)
                (
                  value-SafePair (made_pair t v) t v (clean (url_unescape k) b'=' refl)
                      (made_pair-parts t v (clean (url_unescape k) b'=' refl))
                      (token_key (url_unescape k) refl),
                  value-contains (made_pair t v) t v
                      (made_pair-contains t v (clean (url_unescape k) b'&' refl) v_plain)
                      (clean (url_unescape k) b'&' refl),
                )
          | inr y ↦
              rw (y, sanitize_pair)
                (
                  value-SafePair pair k v plain refl (plain_key y),
                  value-contains pair k v h k_plain,
                )
        ]

    pairs-SafePair :
        (pairs : List Bytes)
        → All (λ s. contains b'&' s ≡ false) pairs
        → All SafePair (sanitize_pairs token pairs).0
          × All (λ s. contains b'&' s ≡ false) (sanitize_pairs token pairs).0
    unfolding sanitize_pairs
    pairs-SafePair [] h = (tt, tt)
    pairs-SafePair (pair ∷ pairs) h =
        let (a, b) = pair-SafePair pair h.0 in
        let (more, rest) = pairs-SafePair pairs h.1 in ((a, more), (b, rest))

    pairs-ne-nil : (pairs : List Bytes) → pairs ≢ [] → (sanitize_pairs token pairs).0 ≢ []
    unfolding sanitize_pairs
    pairs-ne-nil [] n e = n refl
    pairs-ne-nil (pair ∷ pairs) n e = ground (arith, e)

    sanitized_segments_split :
        (path : Bytes)
        → split b'/' (join b'/' (sanitize_segments token (split b'/' path)).0)
          ≡ (sanitize_segments token (split b'/' path)).0
    sanitized_segments_split path =
        split-join_cons b'/' (sanitize_segments token (split b'/' path)).0
          (segments-ne-nil (split b'/' path) (split-ne-nil b'/' path))
          (segments-SafeSegment (split b'/' path) b'/' refl (split_plain b'/' path)).1

    sanitized_path_plain :
        (path : Bytes)
        → contains b'?' path ≡ false
        → contains b'?' (join b'/' (sanitize_segments token (split b'/' path)).0) ≡ false
    sanitized_path_plain path h =
        join-contains b'/' b'?' (sanitize_segments token (split b'/' path)).0 refl
          (segments-SafeSegment (split b'/' path) b'?' refl (split-contains b'/' b'?' path h)).1

    sanitized_pairs_split :
        (query : Bytes)
        → split b'&' (join b'&' (sanitize_pairs token (split b'&' query)).0)
          ≡ (sanitize_pairs token (split b'&' query)).0
    sanitized_pairs_split query =
        split-join_cons b'&' (sanitize_pairs token (split b'&' query)).0
          (pairs-ne-nil (split b'&' query) (split-ne-nil b'&' query))
          (pairs-SafePair (split b'&' query) (split_plain b'&' query)).1

    out_safe :
        (out : Bytes) (parts : Option (Bytes × Bytes)) (path : Bytes)
        → cut b'?' out ≡ parts
        → (or_whole out parts).0 ≡ join b'/' (sanitize_segments token (split b'/' path)).0
        → All SafePair (pairs_in parts)
        → All SafeSegment (split b'/' (path_of out)) × All SafePair (pairs_in (cut b'?' out))
    out_safe out parts path e f pairs = (
      subst (All SafeSegment)
          (sym (
            ap (λ o. split b'/' (or_whole out o).0) e
            ∙ ap (split b'/') f
            ∙ sanitized_segments_split path))
          (segments-SafeSegment (split b'/' path) b'/' refl (split_plain b'/' path)).0,
      subst (λ o. All SafePair (pairs_in o)) (sym e) pairs,
    )

    -- Where tokens hold none of the bytes at which a path is taken apart, a recorded path shows, beside
    -- tokens, only segments that the classifier allows, values of the query that it allows under their
    -- key, and keys that do not look like an identifier.
    pub sanitize_path-Safe :
        (p : Bytes)
        → All SafeSegment (split b'/' (path_of (sanitize_path token p).0))
          × All SafePair (pairs_in (cut b'?' (sanitize_path token p).0))
    unfolding sanitize_path
    sanitize_path-Safe p = elim (Option-cases (cut b'?' p)) [
      | inl n ↦
          let plain = sanitized_path_plain p (none-contains b'?' p n) in
          rw (n, sanitize_path)
            (out_safe (join b'/' (sanitize_segments token (split b'/' p)).0) none p
              (cut-none b'?' (join b'/' (sanitize_segments token (split b'/' p)).0) plain) refl tt)
      | inr ((path, query), n) ↦
          let plain = sanitized_path_plain path (cut_plain b'?' p path query n) in
          let segs = join b'/' (sanitize_segments token (split b'/' path)).0 in
          let pairs = join b'&' (sanitize_pairs token (split b'&' query)).0 in
          rw (n, sanitize_path)
            (out_safe (segs ++ b'?' ∷ pairs) (some (segs, pairs)) path
              (cut_at b'?' segs pairs plain) refl
              (subst (All SafePair) (sym (sanitized_pairs_split query))
                (pairs-SafePair (split b'&' query) (split_plain b'&' query)).0))
    ]
