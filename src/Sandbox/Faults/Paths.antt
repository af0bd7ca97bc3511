-- ===== src/Sandbox/Faults/Paths.antt =====
-- Which paths a fault is armed on (internal/sandbox/faults.go, `faultPathMatches`).
use mathlib.Core.List.{append_assoc}
use pikopod.Base.{
  ℕ, ◌+◌, ◌≡◌, refl, sym, Bool, true, false, not, ◌&&◌, ◌||◌, Option, none, some, List, [], ◌∷◌,
  ◌++◌, ◌==◌, arith, leb, nat_beq, if◌then◌else◌, length, length-append, bytes_eq, bytes_beq_iff,
  All, subst, Bool-cases, inl, inr, ◌↔◌, ◌⊎◌,
}
use pikopod.Base.Bytes.{
  Bytes, slash, split, trim, trim_left, trim_right, split-cons, join-split, cut, cut-none,
  after_last, contains, has_prefix, has_suffix, cut_at, after_last_at, has_prefix-append,
  has_suffix-append,
}

abbrev suffix_of : Option Bytes → Bytes
suffix_of none = []
suffix_of (some s) = s

-- `segmentMatches`: without a `{` the segments are compared; otherwise what stands before the first
-- `{` and after the last `}` frames the segment.
unfoldable pub segment_matches : Bytes → Bytes → Bool
unfolding cut after_last has_prefix has_suffix
segment_matches want have = elim (cut b'{' want) [
  | none ↦ want == have
  | some (prefix, rest) ↦
      let suffix = suffix_of (after_last b'}' want) in
      leb (length prefix + length suffix) (length have)
      && (has_prefix have prefix && has_suffix have suffix)
]

-- The loop over segments of the same number.
unfoldable pub segments_match : List Bytes → List Bytes → Bool
unfolding segment_matches
segments_match (w ∷ ws) (h ∷ hs) = segment_matches w h && segments_match ws hs
segments_match _ _ = true

unfoldable pub fault_path_matches : Bytes → Bytes → Bytes → Bool
unfolding segments_match split trim
fault_path_matches fault_path template inner_path =
    let want = split slash (trim slash fault_path) in
    let have = split slash (trim slash inner_path) in
    if (fault_path == template) || (fault_path == inner_path)
    then true
    else if not (nat_beq (length want) (length have))
    then false
    else segments_match want have

-- A segment such as `item_{id}.json` matches whatever stands in the place of its braces: the text
-- before the first `{` and after the last `}` frame any middle.
pub segment_matches_framed :
    (prefix name suffix middle : Bytes)
    → contains b'{' prefix ≡ false
    → contains b'}' suffix ≡ false
    → segment_matches (prefix ++ b'{' ∷ (name ++ b'}' ∷ suffix)) (prefix ++ (middle ++ suffix))
      ≡ true
unfolding segment_matches
segment_matches_framed prefix name suffix middle hp hs = ground (
  arith,
  cut_at b'{' prefix (name ++ b'}' ∷ suffix) hp,
  after_last_at b'}' (prefix ++ b'{' ∷ name) suffix hs,
  append_assoc prefix (b'{' ∷ name) (b'}' ∷ suffix),
  has_prefix-append prefix (middle ++ suffix),
  has_suffix-append (prefix ++ middle) suffix,
  append_assoc prefix middle suffix,
  length-append prefix (middle ++ suffix),
  length-append middle suffix,
)

no_brace_split :
    (d c : ℕ) (s : Bytes) → contains d s ≡ false → All (λ x. contains d x ≡ false) (split c s)
unfolding split contains
no_brace_split d c [] h = (refl, tt)
no_brace_split d c (x ∷ s) h =
    let (a, t, e) = split-cons c s in
    let ih : All (λ y. contains d y ≡ false) (a ∷ t) =
      subst (All (λ y. contains d y ≡ false)) e (no_brace_split d c s (ground arith)) in
    elim (Bool-cases (nat_beq x c)) [
      | inl sep ↦ rw sep (refl, subst (All (λ y. contains d y ≡ false)) (sym e) ih)
      | inr same ↦ rw (same, e) (ground (arith, ih.0), ih.1)
    ]

no_brace_trim_left :
    (d c : ℕ) (s : Bytes) → contains d s ≡ false → contains d (trim_left c s) ≡ false
unfolding trim_left contains
no_brace_trim_left d c [] h = refl
no_brace_trim_left d c (x ∷ s) h = ground (arith, no_brace_trim_left d c s)

no_brace_trim_right :
    (d c : ℕ) (s : Bytes) → contains d s ≡ false → contains d (trim_right c s) ≡ false
unfolding trim_right contains
no_brace_trim_right d c [] h = refl
no_brace_trim_right d c (x ∷ s) h = ground (arith, no_brace_trim_right d c s)

segment_matches_literal :
    (want have : Bytes) → contains b'{' want ≡ false → segment_matches want have ≡ (want == have)
unfolding segment_matches
segment_matches_literal want have h = ground (arith, cut-none b'{' want h)

segments_match_literal :
    (ws hs : List Bytes)
    → All (λ x. contains b'{' x ≡ false) ws
    → length ws ≡ length hs
    → (segments_match ws hs ≡ true) ↔ (ws ≡ hs)
unfolding segments_match
segments_match_literal [] [] h l = ((λ _. refl), (λ _. refl))
segments_match_literal [] (x ∷ hs) h l = absurd (omega arith)
segments_match_literal (w ∷ ws) [] h l = absurd (omega arith)
segments_match_literal (w ∷ ws) (x ∷ hs) h l = ground (
  arith,
  segment_matches_literal w x h.0,
  segments_match_literal ws hs h.1 (omega arith),
  bytes_beq_iff w x,
)

literal_segments :
    (s : Bytes)
    → contains b'{' s ≡ false
    → All (λ x. contains b'{' x ≡ false) (split slash (trim slash s))
unfolding trim
literal_segments s h =
    no_brace_split b'{' slash (trim_right slash (trim_left slash s))
      (no_brace_trim_right b'{' slash (trim_left slash s) (no_brace_trim_left b'{' slash s h))

-- A fault armed on a path without braces matches a request exactly when it names the endpoint's
-- template, or the request's path up to slashes at either end.
pub fault_path_matches_literal :
    (fault_path template inner_path : Bytes)
    → contains b'{' fault_path ≡ false
    → (fault_path_matches fault_path template inner_path ≡ true)
      ↔ ((fault_path ≡ template) ⊎ (trim slash fault_path ≡ trim slash inner_path))
unfolding fault_path_matches
fault_path_matches_literal fault_path template inner_path h =
    let a = trim slash fault_path in
    let b = trim slash inner_path in
    let want = split slash a in
    let have = split slash b in
    ground (
      arith,
      bytes_beq_iff fault_path template,
      bytes_beq_iff fault_path inner_path,
      segments_match_literal want have (literal_segments fault_path h),
      join-split slash a,
      join-split slash b,
    )
