-- ===== src/Sandbox/Windows.antt =====
-- internal/sandbox/rules.go (`consumeWindow`), faults.go (`windowKey`, and the same window written
-- out in `evaluateFaults`) and scope.go (`scopedKey`, `dropPrefixed`): "the first N requests per
-- key", counted in a map that holds at most 1024 keys.
pub mod Count
pub mod Scopes
use pikopod.Base.{
  ℕ, ◌+◌, Bool, true, false, not, ◌&&◌, Option, none, some, List, [], ◌∷◌, ◌++◌, ◌==◌, ltb, leb,
  if◌then◌else◌, length, bytes_eq,
}
use pikopod.Base.Map.{Map, lookup, insert, has}
use pikopod.Base.Bytes.{Bytes, codes, has_prefix}

abbrev pub max_fault_window_keys : ℕ
max_fault_window_keys = 1024

-- The unit separator, "\x1f".
abbrev pub scope_key_mark : ℕ
scope_key_mark = 0x1f

-- A missing key reads as 0.
abbrev pub or_zero : Option ℕ → ℕ
or_zero none = 0
or_zero (some n) = n

unfoldable pub consume_window : Map Bytes ℕ → ℕ → Bytes → Map Bytes ℕ × Bool
unfolding lookup insert has
consume_window consumed times key =
    let count = or_zero (lookup key consumed) in
    if leb times count
    then (consumed, false)
    else if not (has key consumed) && leb max_fault_window_keys (length consumed)
    then (consumed, false)
    else (insert key (count + 1) consumed, true)

unfoldable pub scoped_key : Bytes → Bytes → Bytes
scoped_key scope key = if scope == [] then key else scope ++ scope_key_mark ∷ key

-- `windowKey`; the request shows its scope and its idempotency key.
unfoldable pub window_key : Bytes → Bytes → Option Bytes → Bytes → Bytes
unfolding scoped_key
window_key per scope idempotency_key inner_path =
    if per == codes "idempotency-key"
    then elim idempotency_key [
      | some k ↦ scoped_key scope (codes "ik:" ++ k)
      | none ↦ scoped_key scope []
    ]
    else if per == codes "resource"
    then scoped_key scope (codes "path:" ++ inner_path)
    else scoped_key scope []

-- `dropPrefixed`
unfoldable pub drop_prefixed : Map Bytes ℕ → Bytes → Map Bytes ℕ
unfolding has_prefix
drop_prefixed [] prefix = []
drop_prefixed ((k, n) ∷ m) prefix =
    let rest = drop_prefixed m prefix in if has_prefix k prefix then rest else (k, n) ∷ rest

-- The prefix that `forgetScope` drops.
unfoldable pub scope_prefix : Bytes → Bytes
scope_prefix scope = scope ++ scope_key_mark ∷ []
