-- ===== src/Sandbox/Windows/Count.antt =====
-- How often a window lets a key through (internal/sandbox/rules.go, `consumeWindow`).
use pikopod.Base.{
  ℕ, ◌+◌, ◌-◌, ◌≤◌, ◌≡◌, true, false, List, [], ◌∷◌, ◌==◌, arith, min, leb, if◌then◌else◌, length,
  bytes_eq, bytes_beq_iff,
}
use pikopod.Base.Map.{Map, lookup, has, lookup-insert, length-insert, has-insert}
use pikopod.Base.Bytes.{Bytes}
use pikopod.Sandbox.Windows.{consume_window, max_fault_window_keys, or_zero}

-- The map after each key of the list asked once, and how often `key` was let through.
unfoldable pub consume_all : ℕ → Bytes → Map Bytes ℕ → List Bytes → Map Bytes ℕ × ℕ
unfolding consume_window
consume_all times key m [] = (m, 0)
consume_all times key m (k ∷ ks) =
    let (m', passed) = consume_window m times k in
    let (m'', n) = consume_all times key m' ks in
    (m'', if passed then (if k == key then n + 1 else n) else n)

pub occurrences : Bytes → List Bytes → ℕ
occurrences key [] = 0
occurrences key (k ∷ ks) = let rest = occurrences key ks in if k == key then rest + 1 else rest

-- The map never holds more than 1024 keys.
pub consume_window-bounded :
    (m : Map Bytes ℕ) (times : ℕ) (key : Bytes)
    → length m ≤ max_fault_window_keys
    → length (consume_window m times key).0 ≤ max_fault_window_keys
unfolding consume_window
consume_window-bounded m times key h =
    ground (arith, length-insert key (or_zero (lookup key m) + 1) m)

-- A call counts its own key only, and only when it lets the key through.
pub consume_window-lookup :
    (m : Map Bytes ℕ) (times : ℕ) (k key : Bytes)
    → or_zero (lookup key (consume_window m times k).0)
      ≡ or_zero (lookup key m)
        + (if (consume_window m times k).1 then (if k == key then 1 else 0) else 0)
unfolding consume_window
consume_window-lookup m times k key =
    ground (arith, lookup-insert k key (or_zero (lookup k m) + 1) m, bytes_beq_iff k key)

pub consume_window-has :
    (m : Map Bytes ℕ) (times : ℕ) (k key : Bytes)
    → has key m ≡ true
    → has key (consume_window m times k).0 ≡ true
unfolding consume_window
consume_window-has m times k key h = ground (arith, has-insert k key (or_zero (lookup k m) + 1) m)

-- A known key is let through exactly while its count is below the limit.
consume_window-known :
    (m : Map Bytes ℕ) (times : ℕ) (key : Bytes)
    → has key m ≡ true
    → (consume_window m times key).1 ≡ (if leb times (or_zero (lookup key m)) then false else true)
unfolding consume_window
consume_window-known m times key h = ground arith

pub consume_window-limit :
    (m : Map Bytes ℕ) (times : ℕ) (k key : Bytes)
    → or_zero (lookup key m) ≤ times
    → or_zero (lookup key (consume_window m times k).0) ≤ times
unfolding consume_window
consume_window-limit m times k key h =
    ground (arith, lookup-insert k key (or_zero (lookup k m) + 1) m, bytes_beq_iff k key)

consume_all-limit :
    (times : ℕ) (key : Bytes) (m : Map Bytes ℕ) (ks : List Bytes)
    → or_zero (lookup key m) ≤ times
    → or_zero (lookup key m) + (consume_all times key m ks).1 ≤ times
unfolding consume_all
consume_all-limit times key m [] h = omega arith
consume_all-limit times key m (k ∷ ks) h = ground (
  arith,
  consume_all-limit times key (consume_window m times k).0 ks
      (consume_window-limit m times k key h),
  consume_window-lookup m times k key,
)

consume_all-bounded :
    (times : ℕ) (key : Bytes) (m : Map Bytes ℕ) (ks : List Bytes)
    → length m ≤ max_fault_window_keys
    → length (consume_all times key m ks).0 ≤ max_fault_window_keys
unfolding consume_all
consume_all-bounded times key m [] h = h
consume_all-bounded times key m (k ∷ ks) h =
    consume_all-bounded times key (consume_window m times k).0 ks
      (consume_window-bounded m times k h)

-- However the requests of all keys interleave, a key whose count stands within the limit is let
-- through no more often than the limit leaves, and the map stays within 1024 keys.
pub window_limit :
    (times : ℕ) (key : Bytes) (m : Map Bytes ℕ) (ks : List Bytes)
    → or_zero (lookup key m) ≤ times
    → length m ≤ max_fault_window_keys
    → (or_zero (lookup key m) + (consume_all times key m ks).1 ≤ times)
      × (length (consume_all times key m ks).0 ≤ max_fault_window_keys)
window_limit times key m ks h b =
    (consume_all-limit times key m ks h, consume_all-bounded times key m ks b)

-- Once a key is known, it is let through exactly as often as it asks, up to what the limit leaves.
pub window_exact :
    (times : ℕ) (key : Bytes) (m : Map Bytes ℕ) (ks : List Bytes)
    → has key m ≡ true
    → or_zero (lookup key m) ≤ times
    → (consume_all times key m ks).1 ≡ min (occurrences key ks) (times - or_zero (lookup key m))
unfolding consume_all occurrences
window_exact times key m [] h l = omega arith
window_exact times key m (k ∷ ks) h l = ground (
  arith,
  window_exact times key (consume_window m times k).0 ks (consume_window-has m times k key h)
      (consume_window-limit m times k key l),
  consume_window-lookup m times k key,
  consume_window-limit m times k key l,
  consume_window-known m times key h,
  bytes_beq_iff k key,
)
