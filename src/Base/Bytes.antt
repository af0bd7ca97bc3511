-- ===== src/Base/Bytes.antt =====
-- Go strings as lists of bytes, where the program walks them, with the functions of Go's `strings`
-- that it calls. Case folding is that of ASCII: methods and header names are ASCII.
use Prim.Native.Char.{code}
use pikopod.Base.{
  ℕ, ◌+◌, ◌-◌, String, ◌≡◌, refl, Bool, true, false, ◌&&◌, ◌||◌, Option, none, some, List, [], ◌∷◌,
  ◌++◌, map, arith, leb, nat_beq, bytes_beq, bytes_beq_iff, if◌then◌else◌, All, length, drop,
  drop_eq, drop-length-append, length-append,
}

abbrev pub Bytes : Type 0
Bytes = List ℕ

-- The bytes of an ASCII literal.
abbrev pub codes : String → Bytes
codes String.[] = []
codes (String.◌∷◌ c s) = code c ∷ codes s

abbrev pub slash : ℕ
slash = b'/'

-- Puts a byte in front of the first piece.
abbrev pub push : ℕ → List Bytes → List Bytes
push c [] = (c ∷ []) ∷ []
push c (s ∷ r) = (c ∷ s) ∷ r

-- `strings.Split(s, c)` for a separator of one byte: never empty.
unfoldable pub split : ℕ → Bytes → List Bytes
split c [] = [] ∷ []
split c (x ∷ xs) = let rest = split c xs in if nat_beq x c then [] ∷ rest else push x rest

-- `strings.Join(l, c)`.
unfoldable pub join : ℕ → List Bytes → Bytes
join c [] = []
join c (s ∷ []) = s
join c (s ∷ t ∷ r) = s ++ c ∷ join c (t ∷ r)

-- `strings.TrimLeft(s, c)`.
unfoldable pub trim_left : ℕ → Bytes → Bytes
trim_left c [] = []
trim_left c (x ∷ xs) = let rest = trim_left c xs in if nat_beq x c then rest else x ∷ xs

-- `strings.TrimRight(s, c)`.
unfoldable pub trim_right : ℕ → Bytes → Bytes
trim_right c [] = []
trim_right c (x ∷ xs) =
    let rest = trim_right c xs in
    elim rest [ [] ↦ (if nat_beq x c then [] else x ∷ []) | y ∷ ys ↦ x ∷ y ∷ ys ]

-- `strings.Trim(s, c)`.
unfoldable pub trim : ℕ → Bytes → Bytes
unfolding trim_left trim_right
trim c s = trim_right c (trim_left c s)

-- `strings.IndexByte(s, c) >= 0`.
unfoldable pub contains : ℕ → Bytes → Bool
contains c [] = false
contains c (x ∷ xs) = nat_beq x c || contains c xs

-- `strings.Cut(s, c)` at the first `c`; `none` for a string without one.
unfoldable pub cut : ℕ → Bytes → Option (Bytes × Bytes)
cut c [] = none
cut c (x ∷ xs) =
    let rest = cut c xs in
    if nat_beq x c then some ([], xs) else elim rest [ none ↦ none | some (a, b) ↦ some (x ∷ a, b) ]

-- `strings.HasPrefix(s, p)`.
unfoldable pub has_prefix : Bytes → Bytes → Bool
has_prefix s [] = true
has_prefix [] (c ∷ p) = false
has_prefix (x ∷ s) (c ∷ p) = nat_beq x c && has_prefix s p

-- `strings.HasSuffix(s, p)`.
unfoldable pub has_suffix : Bytes → Bytes → Bool
has_suffix s p = leb (length p) (length s) && bytes_beq (drop (length s - length p) s) p

abbrev pub to_lower_byte : ℕ → ℕ
to_lower_byte c = if leb b'A' c && leb c b'Z' then c + 32 else c

abbrev pub to_upper_byte : ℕ → ℕ
to_upper_byte c = if leb b'a' c && leb c b'z' then c - 32 else c

-- `strings.ToUpper`.
abbrev pub to_upper : Bytes → Bytes
to_upper = map to_upper_byte

-- `strings.ToLower`.
abbrev pub to_lower : Bytes → Bytes
to_lower = map to_lower_byte

-- `strings.EqualFold`.
unfoldable pub equal_fold : Bytes → Bytes → Bool
equal_fold a b = bytes_beq (to_lower a) (to_lower b)

pub split-cons : (c : ℕ) (s : Bytes) → (h : Bytes) × (t : List Bytes) × (split c s ≡ h ∷ t)
unfolding split
split-cons c [] = ([], [], refl)
split-cons c (x ∷ xs) =
    let (h, t, e) = split-cons c xs in
    (if nat_beq x c then [] else x ∷ h, if nat_beq x c then h ∷ t else t, ground (arith, e))

join-push : (c x : ℕ) (h : Bytes) (t : List Bytes) → join c (push x (h ∷ t)) ≡ x ∷ join c (h ∷ t)
unfolding join
join-push c x h [] = refl
join-push c x h (y ∷ t) = refl

-- Splitting and joining again gives the string back.
pub join-split : (c : ℕ) (s : Bytes) → join c (split c s) ≡ s
unfolding join split
join-split c [] = refl
join-split c (x ∷ xs) =
    let (h, t, e) = split-cons c xs in ground (arith, e, join-split c xs, join-push c x h t)

split-append : (c : ℕ) (s r : Bytes) → contains c s ≡ false → split c (s ++ c ∷ r) ≡ s ∷ split c r
unfolding split contains
split-append c [] r h = ground arith
split-append c (x ∷ s) r h = ground (arith, split-append c s r)

split_none : (c : ℕ) (s : Bytes) → contains c s ≡ false → split c s ≡ s ∷ []
unfolding split contains
split_none c [] h = refl
split_none c (x ∷ s) h = ground (arith, split_none c s)

-- Joining segments without the separator and splitting again gives the segments back.
pub split-join :
    (c : ℕ) (s : Bytes) (l : List Bytes)
    → All (λ x. contains c x ≡ false) (s ∷ l)
    → split c (join c (s ∷ l)) ≡ s ∷ l
unfolding join
split-join c s [] h = split_none c s h.0
split-join c s (t ∷ r) h = ground (arith, split-append c s (join c (t ∷ r)), split-join c t r h.1)

pub equal_fold_refl : (a : Bytes) → equal_fold a a ≡ true
unfolding equal_fold
equal_fold_refl a = (bytes_beq_iff (to_lower a) (to_lower a)).1 refl

-- What follows the last `c`: `s[strings.LastIndexByte(s, c)+1:]`; `none` for a string without one.
unfoldable pub after_last : ℕ → Bytes → Option Bytes
after_last c [] = none
after_last c (x ∷ xs) =
    let rest = after_last c xs in
    elim rest [ some s ↦ some s | none ↦ (if nat_beq x c then some xs else none) ]

pub cut_at : (c : ℕ) (p r : Bytes) → contains c p ≡ false → cut c (p ++ c ∷ r) ≡ some (p, r)
unfolding cut contains
cut_at c [] r h = ground arith
cut_at c (x ∷ p) r h = ground (arith, cut_at c p r)

after_last-none : (c : ℕ) (s : Bytes) → contains c s ≡ false → after_last c s ≡ none
unfolding after_last contains
after_last-none c [] h = refl
after_last-none c (x ∷ s) h = ground (arith, after_last-none c s)

pub after_last_at :
    (c : ℕ) (p s : Bytes) → contains c s ≡ false → after_last c (p ++ c ∷ s) ≡ some s
unfolding after_last
after_last_at c [] s h = ground (arith, after_last-none c s h)
after_last_at c (x ∷ p) s h = ground (arith, after_last_at c p s h)

pub has_prefix-append : (p s : Bytes) → has_prefix (p ++ s) p ≡ true
unfolding has_prefix
has_prefix-append [] s = ground arith
has_prefix-append (x ∷ p) s = ground (arith, has_prefix-append p s)

pub has_suffix-append : (p s : Bytes) → has_suffix (p ++ s) s ≡ true
unfolding has_suffix
has_suffix-append p s = ground (
  arith,
  length-append p s,
  drop_eq (length (p ++ s) - length s) (length p) (p ++ s) (omega (arith, length-append p s)),
  drop-length-append p s,
  bytes_beq_iff (drop (length (p ++ s) - length s) (p ++ s)) s,
)

pub cut-none : (c : ℕ) (s : Bytes) → contains c s ≡ false → cut c s ≡ none
unfolding cut contains
cut-none c [] h = refl
cut-none c (x ∷ s) h = ground (arith, cut-none c s)
