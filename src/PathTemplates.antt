-- ===== src/PathTemplates.antt =====
-- internal/pathtmpl/pathtmpl.go: paths with their identifiers taken out, and the guard that stops the
-- segments of one position from growing without bound. The regular expressions are written out;
-- they are anchored at both ends, and the texts are bytes.
pub mod Idempotent
pub mod Cardinality
use pikopod.Base.{
  ℕ, zero, suc, ◌+◌, Bool, true, false, not, ◌&&◌, ◌||◌, Option, none, some, List, [], ◌∷◌, ◌++◌,
  ◌==◌, nat_beq, leb, ltb, if◌then◌else◌, length, bytes_eq,
}
use pikopod.Base.Map.{Map, lookup, insert, delete}
use pikopod.Base.Bytes.{Bytes, codes, slash, split, join, cut}
use pikopod.Base.Decimal.{itoa}
unfoldable pub use pikopod.Base.Chars.{
  between, is_digit, is_alpha, is_alnum, is_hex, is_opaque, all_bytes, hex_group, uuid_groups,
  is_uuid, starts_alpha,
}

abbrev pub is_time : ℕ → Bool
is_time c =
    is_digit c
    || (nat_beq c b':'
        || (nat_beq c b'.'
            || (nat_beq c b'+' || (nat_beq c b'Z' || (nat_beq c b'z' || nat_beq c b'-')))))

-- `hasDigit`
unfoldable pub has_digit : Bytes → Bool
has_digit [] = false
has_digit (c ∷ s) = is_digit c || has_digit s

-- What follows `n` digits; nothing where they are not there.
unfoldable pub eat_digits : ℕ → Bytes → Option Bytes
eat_digits zero s = some s
eat_digits (suc n) [] = none
eat_digits (suc n) (c ∷ s) = let rest = eat_digits n s in if is_digit c then rest else none

unfoldable pub eat : ℕ → Option Bytes → Option Bytes
eat c none = none
eat c (some []) = none
eat c (some (x ∷ s)) = if nat_beq x c then some s else none

abbrev pub and_digits : ℕ → Option Bytes → Option Bytes
and_digits n none = none
and_digits n (some s) = eat_digits n s

-- The optional end of `dateSegRE`.
unfoldable pub time_part : Option Bytes → Bool
unfolding all_bytes
time_part none = false
time_part (some []) = true
time_part (some (t ∷ [])) = false
time_part (some (t ∷ c ∷ s)) = nat_beq t b'T' && all_bytes is_time (c ∷ s)

unfoldable pub is_date : Bytes → Bool
unfolding eat_digits eat time_part
is_date seg = time_part (and_digits 2 (eat b'-' (and_digits 2 (eat b'-' (eat_digits 4 seg)))))

-- `prefixedSegRE` with the digit that `ClassifySegment` asks for: the text up to the `_`.
unfoldable pub id_prefix : Bytes → Option Bytes
unfolding cut all_bytes has_digit
id_prefix seg = elim (cut b'_' seg) [
  | none ↦ none
  | some (p, s) ↦
      if starts_alpha p
        && (all_bytes is_alnum p && (all_bytes is_alnum s && (leb 4 (length s) && has_digit s)))
      then some p
      else none
]

-- `idish`
unfoldable pub idish : Bytes → Bool
unfolding all_bytes has_digit
idish seg =
    (leb 16 (length seg) && all_bytes is_opaque seg)
    || ((leb 8 (length seg) && all_bytes is_alnum seg) && has_digit seg)

abbrev pub id_placeholder : Bytes
id_placeholder = codes "{id}"

-- `ClassifySegment`; the empty text is `none`.
unfoldable pub classify_segment : Bytes → Option Bytes
unfolding is_uuid is_date id_prefix all_bytes idish
classify_segment seg =
    if is_uuid seg
    then some (codes "{uuid}")
    else if is_date seg
    then some (codes "{date}")
    else elim (id_prefix seg) [
      | some p ↦ some (p ++ b'_' ∷ id_placeholder)
      | none ↦
          if (leb 4 (length seg) && all_bytes is_digit seg) || idish seg
          then some id_placeholder
          else none
    ]

abbrev pub or_segment : Bytes → Option Bytes → Bytes
or_segment seg none = seg
or_segment seg (some ph) = ph

-- One round of `Templatize`.
unfoldable pub template_segment : Bytes → Bytes
unfolding classify_segment
template_segment seg = if seg == [] then seg else or_segment seg (classify_segment seg)

unfoldable pub template_segments : List Bytes → List Bytes
unfolding template_segment
template_segments [] = []
template_segments (seg ∷ segs) = template_segment seg ∷ template_segments segs

-- `Templatize`
unfoldable pub templatize : Bytes → Bytes
unfolding template_segments split join
templatize path = join slash (template_segments (split slash path))

pub record Promotion : Type 0 where
  pub parent : Bytes
  pub position : ℕ

-- A set is the list of its members.
pub record Guard : Type 0 where
  pub threshold : ℕ
  pub seen : Map Bytes (Map Bytes ℕ)
  pub promoted : List Bytes
  pub pinned : Map Bytes (List Bytes)

abbrev pub pin_count : ℕ
pin_count = 3

abbrev pub default_cardinality_threshold : ℕ
default_cardinality_threshold = 32

-- `NewGuard`; a threshold that is not positive is 0.
unfoldable pub new_guard : ℕ → Guard
new_guard threshold = record {
  threshold = if nat_beq threshold 0 then default_cardinality_threshold else threshold;
  seen = [];
  promoted = [];
  pinned = [];
}

abbrev pub member : Bytes → List Bytes → Bool
member k [] = false
member k (x ∷ xs) = (x == k) || member k xs

abbrev pub or_no_values : Option (Map Bytes ℕ) → Map Bytes ℕ
or_no_values none = []
or_no_values (some m) = m

abbrev pub or_no_pins : Option (List Bytes) → List Bytes
or_no_pins none = []
or_no_pins (some l) = l

abbrev pub or_none_yet : Option ℕ → ℕ
or_none_yet none = 0
or_none_yet (some n) = n

-- The values that keep their text when a position is promoted.
unfoldable pub pins : Map Bytes ℕ → List Bytes
pins [] = []
pins ((v, n) ∷ vals) = let rest = pins vals in if leb pin_count n then v ∷ rest else rest

-- What the guard makes of a segment at a position that `ClassifySegment` lets pass: the guard after
-- it, the segment, and whether this promoted the position.
unfoldable pub guard_segment : Guard → Bytes → Bytes → Guard × Bytes × Bool
unfolding lookup insert delete pins
guard_segment g key seg =
    let old = or_no_values (lookup key g.seen) in
    let vals = insert seg (or_none_yet (lookup seg old) + 1) old in
    let kept = pins vals in
    if member key g.promoted
    then (g, if member seg (or_no_pins (lookup key g.pinned)) then seg else id_placeholder, false)
    else if ltb g.threshold (length vals)
    then (
      record g {
        seen = delete key g.seen;
        promoted = key ∷ g.promoted;
        pinned = insert key kept g.pinned;
      },
      if member seg kept then seg else id_placeholder,
      true,
    )
    else (record g { seen = insert key vals g.seen }, seg, false)

-- The segments that `Apply` leaves to `ClassifySegment`, with what becomes of them.
unfoldable pub fixed_segment : Bytes → Option Bytes
unfolding classify_segment
fixed_segment seg = if seg == [] then some seg else classify_segment seg

-- The key of a position below the segments `parent`.
unfoldable pub position_key : List Bytes → ℕ → Bytes
unfolding join itoa
position_key parent i = join slash parent ++ b'|' ∷ itoa i

-- The loop of `Apply`: `parent` holds the segments before this one, as they came out.
unfoldable pub apply_loop :
    Guard → List Bytes → ℕ → List Bytes → Option Promotion → Guard × List Bytes × Option Promotion
unfolding fixed_segment guard_segment join position_key
apply_loop g parent i [] promo = (g, parent, promo)
apply_loop g parent i (seg ∷ segs) promo = elim (fixed_segment seg) [
  | some out ↦ apply_loop g (parent ++ out ∷ []) (i + 1) segs promo
  | none ↦
      let (g', out, now) = guard_segment g (position_key parent i) seg in
      apply_loop g' (parent ++ out ∷ []) (i + 1) segs
        (if now then some (record { parent = join slash parent; position = i }) else promo)
]

-- `Apply`
unfoldable pub apply : Guard → Bytes → Guard × Bytes × Option Promotion
unfolding apply_loop split join
apply g path =
    let (g', segs, promo) = apply_loop g [] 0 (split slash path) none in
    (g', join slash segs, promo)

-- `MergeKey`
unfoldable pub merge_key : Guard → Bytes → Guard × Bytes
unfolding apply
merge_key g template = let (g', merged, promo) = apply g template in (g', merged)
