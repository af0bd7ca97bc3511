-- ===== src/Recorder.antt =====
-- internal/proxy/recorder.go: what the recorder keeps of the path of a call. The tokenizer is a
-- parameter.
pub mod Paths
use pikopod.Base.{
  ℕ, ◌+◌, ◌*◌, ◌-◌, Bool, true, false, not, ◌&&◌, ◌||◌, Option, none, some, List, [], ◌∷◌, ◌++◌,
  ◌==◌, nat_beq, if◌then◌else◌, bytes_eq,
}
use pikopod.Base.Bytes.{Bytes, split, join, cut}
use pikopod.Base.Json.{str}
use pikopod.Base.Chars.{between}
use pikopod.Sanitize.{Mode, drop_it, substitute, tokenize, allow, classify}
use pikopod.Sanitize.Walk.{is_identifier_key}

-- `unhex`; `none` is -1.
unfoldable pub unhex : ℕ → Option ℕ
unhex c =
    if between b'0' b'9' c
    then some (c - b'0')
    else if between b'a' b'f' c
    then some (c - b'a' + 10)
    else if between b'A' b'F' c
    then some (c - b'A' + 10)
    else none

abbrev hex_byte : Option ℕ → Option ℕ → Option ℕ
hex_byte (some hi) (some lo) = some (hi * 16 + lo)
hex_byte hi lo = none

-- `strings.ReplaceAll(s, "+", " ")`
unfoldable pub plus_to_space : Bytes → Bytes
plus_to_space [] = []
plus_to_space (c ∷ s) = (if nat_beq c b'+' then b' ' else c) ∷ plus_to_space s

-- The loop of `urlUnescape`.
unfoldable pub unescape : Bytes → Bytes
unfolding unhex
unescape (c ∷ a ∷ b ∷ s) =
    let kept = unescape (a ∷ b ∷ s) in
    let after = unescape s in
    elim (if nat_beq c b'%' then hex_byte (unhex a) (unhex b) else none) [
      | some v ↦ v ∷ after
      | none ↦ c ∷ kept
    ]
unescape (c ∷ a ∷ []) = c ∷ a ∷ []
unescape (c ∷ []) = c ∷ []
unescape [] = []

-- `urlUnescape`
unfoldable pub url_unescape : Bytes → Bytes
unfolding plus_to_space unescape
url_unescape s = unescape (plus_to_space s)

abbrev pub is_allowed : Mode → Bool
is_allowed allow = true
is_allowed _ = false

-- `strings.Cut(pair, "=")`
abbrev pub or_whole : Bytes → Option (Bytes × Bytes) → Bytes × Bytes
or_whole pair none = (pair, [])
or_whole pair (some r) = r

module _ (token : Bytes → Bytes) where
  -- A segment, and how many redactions it takes.
  unfoldable pub sanitize_segment : Bytes → Bytes × ℕ
  unfolding url_unescape classify
  sanitize_segment seg =
      if seg == []
      then (seg, 0)
      else if is_allowed (classify [] (str (url_unescape seg)) false)
      then (seg, 0)
      else (token (url_unescape seg), 1)

  unfoldable pub sanitize_segments : List Bytes → List Bytes × ℕ
  unfolding sanitize_segment
  sanitize_segments [] = ([], 0)
  sanitize_segments (seg ∷ segs) =
      let (out, n) = sanitize_segment seg in
      let (rest, more) = sanitize_segments segs in (out ∷ rest, n + more)

  -- The second half of the loop over the pairs: `pair` is what the first half made of it.
  unfoldable pub sanitize_value : Bytes → Bytes → Bytes → Bytes × ℕ
  unfolding url_unescape classify
  sanitize_value pair k v =
      if v == []
      then (pair, 0)
      else if is_allowed (classify (url_unescape k) (str (url_unescape v)) false)
      then (pair, 0)
      else (k ++ b'=' ∷ token (url_unescape v), 1)

  unfoldable pub sanitize_pair : Bytes → Bytes × ℕ
  unfolding url_unescape cut is_identifier_key sanitize_value
  sanitize_pair pair =
      let (k, v) = or_whole pair (cut b'=' pair) in
      if is_identifier_key (url_unescape k)
      then (let t = token (url_unescape k) in
          let (out, n) = sanitize_value (if v == [] then t else t ++ b'=' ∷ v) t v in (out, n + 1))
      else sanitize_value pair k v

  unfoldable pub sanitize_pairs : List Bytes → List Bytes × ℕ
  unfolding sanitize_pair
  sanitize_pairs [] = ([], 0)
  sanitize_pairs (pair ∷ pairs) =
      let (out, n) = sanitize_pair pair in
      let (rest, more) = sanitize_pairs pairs in (out ∷ rest, n + more)

  -- `sanitizePath`, with the number of its redactions
  unfoldable pub sanitize_path : Bytes → Bytes × ℕ
  unfolding cut split join sanitize_segments sanitize_pairs
  sanitize_path p = elim (cut b'?' p) [
    | none ↦ (let (segs, n) = sanitize_segments (split b'/' p) in (join b'/' segs, n))
    | some (path, query) ↦
        (let (segs, n) = sanitize_segments (split b'/' path) in
          let (pairs, m) = sanitize_pairs (split b'&' query) in
          (join b'/' segs ++ b'?' ∷ join b'&' pairs, n + m))
  ]
