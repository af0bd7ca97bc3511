-- ===== src/Base/Chars.antt =====
-- Classes of bytes that the regular expressions of the source are made of.
use Prim.Native.Nat.{ℕ}
use mathlib.Core.Bool.{Bool, true, false, ◌&&◌, ◌||◌}
use mathlib.Core.List.{List, [], ◌∷◌}
use pikopod.Base.Tests.{nat_beq, leb}
use pikopod.Base.Lists.{length}
use pikopod.Base.Bytes.{Bytes, split}

abbrev pub between : ℕ → ℕ → ℕ → Bool
between lo hi c = leb lo c && leb c hi

abbrev pub is_digit : ℕ → Bool
is_digit c = between b'0' b'9' c

abbrev pub is_alpha : ℕ → Bool
is_alpha c = between b'A' b'Z' c || between b'a' b'z' c

abbrev pub is_alnum : ℕ → Bool
is_alnum c = is_alpha c || is_digit c

abbrev pub is_hex : ℕ → Bool
is_hex c = is_digit c || (between b'A' b'F' c || between b'a' b'f' c)

abbrev pub is_opaque : ℕ → Bool
is_opaque c = is_alnum c || (nat_beq c b'_' || nat_beq c b'-')

unfoldable pub all_bytes : (ℕ → Bool) → Bytes → Bool
all_bytes f [] = true
all_bytes f (c ∷ s) = f c && all_bytes f s

abbrev pub hex_group : ℕ → Bytes → Bool
hex_group n s = nat_beq (length s) n && all_bytes is_hex s

-- The groups of `uuidSegRE` (internal/pathtmpl/pathtmpl.go) and `uuidRE` (internal/sanitize/tokenizer.go).
unfoldable pub uuid_groups : List Bytes → Bool
unfolding all_bytes
uuid_groups (a ∷ b ∷ c ∷ d ∷ e ∷ []) =
    hex_group 8 a && (hex_group 4 b && (hex_group 4 c && (hex_group 4 d && hex_group 12 e)))
uuid_groups _ = false

unfoldable pub is_uuid : Bytes → Bool
unfolding uuid_groups split
is_uuid seg = uuid_groups (split b'-' seg)

abbrev pub starts_alpha : Bytes → Bool
starts_alpha [] = false
starts_alpha (c ∷ s) = is_alpha c
