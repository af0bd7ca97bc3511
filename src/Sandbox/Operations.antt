-- ===== src/Sandbox/Operations.antt =====
-- internal/sandbox/operation.go: the resource that a routed request addresses.
pub mod Parameters
pub mod Address
use pikopod.Base.{
  Bool, true, false, Option, none, some, List, [], ◌∷◌, ◌++◌, ◌==◌, map, if◌then◌else◌, bytes_eq,
}
use pikopod.Base.Map.{Map, lookup}
use pikopod.Base.Bytes.{Bytes, codes, slash, join, to_upper}
use pikopod.Sandbox.Routes.{Endpoint, path_segments, param_segment}

pub data OperationKind : Type 0 where
  op_create op_read op_list op_replace op_merge op_delete op_passthrough : OperationKind

pub record DerivedOperation : Type 0 where
  pub kind : OperationKind
  pub typ : Bytes
  pub key : Option Bytes

abbrev pub or_segment : Bytes → Option Bytes → Bytes
or_segment seg none = seg
or_segment seg (some v) = v

abbrev pub param_value : Map Bytes Bytes → Bytes → Option Bytes → Bytes
param_value params seg none = seg
param_value params seg (some name) = or_segment seg (lookup name params)

unfoldable pub concretize_segment : Map Bytes Bytes → Bytes → Bytes
unfolding param_segment lookup
concretize_segment params seg = param_value params seg (param_segment seg)

-- `concretize`
unfoldable pub concretize : List Bytes → Map Bytes Bytes → Bytes
unfolding join concretize_segment
concretize segs params = slash ∷ join slash (map (concretize_segment params) segs)

-- All segments but the last, and the last.
unfoldable pub split_last : List Bytes → Option (List Bytes × Bytes)
split_last [] = none
split_last (s ∷ segs) = elim (split_last segs) [
  | none ↦ some ([], s)
  | some (init, last) ↦ some (s ∷ init, last)
]

abbrev pub item_kind : Bytes → OperationKind
item_kind method =
    if method == codes "GET"
    then op_read
    else if method == codes "PUT"
    then op_replace
    else if method == codes "PATCH"
    then op_merge
    else if method == codes "DELETE"
    then op_delete
    else op_passthrough

abbrev pub collection_kind : Bytes → OperationKind
collection_kind method =
    if method == codes "GET"
    then op_list
    else if method == codes "POST"
    then op_create
    else op_passthrough

-- The operation on an item, whose key may be missing.
abbrev pub item_operation : Bytes → Bytes → Option Bytes → DerivedOperation
item_operation method typ none = record { kind = op_passthrough; typ = typ; key = none }
item_operation method typ (some key) = record { kind = item_kind method; typ = typ; key = some key }

abbrev pub collection_operation : Bytes → Bytes → DerivedOperation
collection_operation method typ = record { kind = collection_kind method; typ = typ; key = none }

unfoldable pub last_param : Option (List Bytes × Bytes) → Option (List Bytes × Bytes)
unfolding param_segment
last_param none = none
last_param (some (init, last)) = elim (param_segment last) [
  | none ↦ none
  | some name ↦ some (init, name)
]

-- `deriveOperation`
unfoldable pub derive_operation : Endpoint → Map Bytes Bytes → DerivedOperation
unfolding path_segments concretize split_last last_param lookup
derive_operation endpoint params =
    let method = to_upper endpoint.method in
    let segs = path_segments endpoint.path_template in
    elim (last_param (split_last segs)) [
      | some (init, name) ↦ item_operation method (concretize init params) (lookup name params)
      | none ↦ collection_operation method (concretize segs params)
    ]
