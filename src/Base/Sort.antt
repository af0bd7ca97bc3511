-- ===== src/Base/Sort.antt =====
-- The order of Go strings, and the keys of a map in it.
use pikopod.Base.{Bool, true, false, List, [], ◌∷◌, nat_beq, ltb, if◌then◌else◌}
use pikopod.Base.Map.{Map}
use pikopod.Base.Bytes.{Bytes}

-- The order of strings.
unfoldable pub bytes_leb : Bytes → Bytes → Bool
bytes_leb [] b = true
bytes_leb (x ∷ a) [] = false
bytes_leb (x ∷ a) (y ∷ b) =
    let rest = bytes_leb a b in if ltb x y then true else if nat_beq x y then rest else false

unfoldable pub insert_sorted : Bytes → List Bytes → List Bytes
unfolding bytes_leb
insert_sorted k [] = k ∷ []
insert_sorted k (x ∷ xs) =
    let rest = insert_sorted k xs in if bytes_leb k x then k ∷ x ∷ xs else x ∷ rest

-- The keys of a map, as `sort.Strings` leaves them.
unfoldable pub sorted_keys : {V : Type 0} → Map Bytes V → List Bytes
unfolding insert_sorted
sorted_keys [] = []
sorted_keys ((k, v) ∷ m) = insert_sorted k (sorted_keys m)
