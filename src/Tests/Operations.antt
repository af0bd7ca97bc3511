-- ===== src/Tests/Operations.antt =====
-- Operations on concrete inputs.
use pikopod.Base.{refl, Option, some, List, [], ◌∷◌, bytes_eq}
use pikopod.Base.Map.{Map, insert}
use pikopod.Base.Bytes.{Bytes, codes, split, contains, to_upper}
use pikopod.Sandbox.Routes.{
  Endpoint, param_segment, before_brace, path_segments, match_segments, match_path_template,
}
use pikopod.Sandbox.Operations.{derive_operation}
use pikopod.Sandbox.Operations.Address.{Addresses, derive_operation-Addresses}

abbrev endpoint : Endpoint
endpoint = record { method = codes "get"; path_template = codes "/pets/{id}" }

abbrev target : List Bytes
target = codes "pets" ∷ codes "7" ∷ []

abbrev plain : Bytes → Option Bytes
plain t = some t

abbrev params : Map Bytes Bytes
params = (codes "id", codes "7") ∷ []

derive_operation-Addresses_example :
    Addresses
      (to_upper (codes "get"))
      (path_segments (codes "/pets/{id}"))
      (derive_operation endpoint params)
      target
unfolding match_path_template match_segments path_segments split param_segment before_brace contains
    insert
derive_operation-Addresses_example =
    derive_operation-Addresses plain endpoint target params refl refl (refl, (refl, tt))
