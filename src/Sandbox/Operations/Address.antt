-- ===== src/Sandbox/Operations/Address.antt =====
-- That an operation addresses the path of the request (internal/sandbox/operation.go and routes.go).
use pikopod.Base.{
  ◌≢◌, ◌≡◌, refl, sym, ap, ◌∙◌, Bool, true, false, Option, none, some, List, [], ◌∷◌, ◌++◌, map,
  arith, length, bytes_eq, bytes_beq_iff, All, Option-cases, inl, inr,
}
use pikopod.Base.Map.{Map, lookup}
use pikopod.Base.Bytes.{Bytes, codes, slash, join, to_upper}
use pikopod.Sandbox.Routes.{
  Endpoint, path_segments, param_segment, is_param, or_same, match_segments, match_path_template,
}
use pikopod.Sandbox.Operations.{
  concretize_segment, concretize, split_last, last_param, DerivedOperation, derive_operation,
  OperationKind, op_create, op_read, op_list, op_replace, op_merge, op_delete, op_passthrough,
  item_kind, collection_kind,
}
use pikopod.Sandbox.Operations.Parameters.{
  names, distinct_names, concretize-match_segments, match_segments-binds,
}

split_last-none : (segs : List Bytes) → split_last segs ≡ none → segs ≡ []
unfolding split_last
split_last-none [] e = refl
split_last-none (s ∷ segs) e = elim (Option-cases (split_last segs)) [
  | inl n ↦ absurd (ground (arith, e, n))
  | inr ((i, x), n) ↦ absurd (ground (arith, e, n))
]

split_last-append :
    (segs init : List Bytes) (last : Bytes)
    → split_last segs ≡ some (init, last)
    → segs ≡ init ++ last ∷ []
unfolding split_last
split_last-append [] init last e = absurd (ground (arith, e))
split_last-append (s ∷ segs) init last e = elim (Option-cases (split_last segs)) [
  | inl n ↦ ground (arith, e, n, split_last-none segs n)
  | inr ((i, x), n) ↦ ground (arith, e, n, split_last-append segs i x n)
]

names-append :
    (n last : Bytes) (init : List Bytes)
    → param_segment last ≡ some n
    → names n (init ++ last ∷ []) ≡ true
names-append n last [] p = ground (arith, p, bytes_beq_iff n n)
names-append n last (s ∷ init) p = ground (arith, names-append n last init p)

map-last :
    (f : Bytes → Bytes) (init : List Bytes) (last : Bytes)
    → map f (init ++ last ∷ []) ≡ map f init ++ f last ∷ []
map-last f [] last = refl
map-last f (s ∷ init) last = ap (λ l. f s ∷ l) (map-last f init last)

-- The last segment of the template is a parameter.
abbrev pub ends_in_param : List Bytes → Bool
ends_in_param [] = false
ends_in_param (s ∷ []) = is_param (param_segment s)
ends_in_param (s ∷ t ∷ segs) = ends_in_param (t ∷ segs)

-- What a method does to an item, and to a collection.
abbrev pub ItemKind : Bytes → OperationKind → Type 0
ItemKind method kind =
    (method ≡ codes "GET" → kind ≡ op_read)
    × (method ≡ codes "PUT" → kind ≡ op_replace)
    × (method ≡ codes "PATCH" → kind ≡ op_merge)
    × (method ≡ codes "DELETE" → kind ≡ op_delete)
    × (method ≢ codes "GET"
        → method ≢ codes "PUT"
        → method ≢ codes "PATCH"
        → method ≢ codes "DELETE"
        → kind ≡ op_passthrough)

abbrev pub CollectionKind : Bytes → OperationKind → Type 0
CollectionKind method kind =
    (method ≡ codes "GET" → kind ≡ op_list)
    × (method ≡ codes "POST" → kind ≡ op_create)
    × (method ≢ codes "GET" → method ≢ codes "POST" → kind ≡ op_passthrough)

item_kind_lem : (method : Bytes) → ItemKind method (item_kind method)
item_kind_lem method = (
  λ e. rw e refl,
  λ e. rw e refl,
  λ e. rw e refl,
  λ e. rw e refl,
  λ a b c d. ground (
    arith,
    bytes_beq_iff method (codes "GET"),
    bytes_beq_iff method (codes "PUT"),
    bytes_beq_iff method (codes "PATCH"),
    bytes_beq_iff method (codes "DELETE"),
  ),
)

collection_kind_lem : (method : Bytes) → CollectionKind method (collection_kind method)
collection_kind_lem method = (
  λ e. rw e refl,
  λ e. rw e refl,
  λ a b. ground (arith, bytes_beq_iff method (codes "GET"), bytes_beq_iff method (codes "POST")),
)

ends_in_param-append :
    (init : List Bytes) (last : Bytes)
    → ends_in_param (init ++ last ∷ []) ≡ is_param (param_segment last)
ends_in_param-append [] last = refl
ends_in_param-append (s ∷ []) last = refl
ends_in_param-append (s ∷ t ∷ init) last = ends_in_param-append (t ∷ init) last

-- Where the template ends in a parameter, the operation is on the item that the last segment of the path
-- names, in the collection of the others; else it is on the collection that the whole path names.
pub data Addresses (method : Bytes) (segs : List Bytes) (op : DerivedOperation)
    (target : List Bytes) : Type 0 where
  collection :
      ends_in_param segs ≡ false
      → op.key ≡ none
      → op.typ ≡ slash ∷ join slash target
      → CollectionKind method op.kind
      → Addresses method segs op target
  item :
      (init : List Bytes) (key : Bytes)
      → ends_in_param segs ≡ true
      → target ≡ init ++ key ∷ []
      → op.key ≡ some key
      → op.typ ≡ slash ∷ join slash init
      → ItemKind method op.kind
      → Addresses method segs op target

-- The value of the parameter that the last segment is, with the paths of both halves.
item_values :
    (params : Map Bytes Bytes) (segs init target : List Bytes) (last n v : Bytes)
    → map (concretize_segment params) segs ≡ target
    → segs ≡ init ++ last ∷ []
    → param_segment last ≡ some n
    → lookup n params ≡ some v
    → target ≡ map (concretize_segment params) init ++ v ∷ []
unfolding concretize_segment
item_values params segs init target last n v e s p b =
    sym e
    ∙ ap (map (concretize_segment params)) s
    ∙ map-last (concretize_segment params) init last
    ∙ ap (λ x. map (concretize_segment params) init ++ x ∷ []) (rw (p, b) refl)

plain_last :
    (init : List Bytes) (last : Bytes)
    → param_segment last ≡ none
    → last_param (some (init, last)) ≡ none
unfolding last_param
plain_last init last p = rw (p, last_param) refl

param_last :
    (init : List Bytes) (last name : Bytes)
    → param_segment last ≡ some name
    → last_param (some (init, last)) ≡ some (init, name)
unfolding last_param
param_last init last name p = rw (p, last_param) refl

-- What is derived of a request that matched a template, in which no parameter has two places, is an
-- operation on the resource that the path names, where decoding leaves the segments of the path as they
-- are: on an item exactly if the template ends in a parameter, and of the kind that the method, in upper
-- case, asks for.
pub derive_operation-Addresses :
    (unescape : Bytes → Option Bytes) (endpoint : Endpoint) (target : List Bytes)
    (params : Map Bytes Bytes)
    → match_path_template unescape endpoint.path_template target ≡ some params
    → distinct_names (path_segments endpoint.path_template) ≡ true
    → All (λ t. or_same t (unescape t) ≡ t) target
    → Addresses
        (to_upper endpoint.method)
        (path_segments endpoint.path_template)
        (derive_operation endpoint params)
        target
unfolding derive_operation concretize match_path_template
derive_operation-Addresses unescape endpoint target params e d h =
    let segs = path_segments endpoint.path_template in
    let method = to_upper endpoint.method in
    let l : length segs ≡ length target = ground (arith, e) in
    let m : match_segments unescape [] segs target ≡ some params = ground (arith, e) in
    let same = concretize-match_segments unescape segs target [] params m d l h in
    let ends_as = λ (init : List Bytes) (last : Bytes) (n : split_last segs ≡ some (init, last)).
      ap ends_in_param (split_last-append segs init last n) ∙ ends_in_param-append init last in
    elim (Option-cases (split_last segs)) [
      | inl n ↦
          rw (ap last_param n, derive_operation)
            (collection (ap ends_in_param (split_last-none segs n)) refl
              (ap (λ t. slash ∷ join slash t) same) (collection_kind_lem method))
      | inr ((init, last), n) ↦ elim (Option-cases (param_segment last)) [
        | inl p ↦
            rw (ap last_param n ∙ plain_last init last p, derive_operation)
              (collection (ends_as init last n ∙ ap is_param p) refl
                (ap (λ t. slash ∷ join slash t) same) (collection_kind_lem method))
        | inr (name, p) ↦
            let (v, b) = match_segments-binds unescape segs target [] params name m l (
              ap (names name) (split_last-append segs init last n)
              ∙ names-append name last init p) in
            rw (ap last_param n ∙ param_last init last name p, b, derive_operation)
              (item (map (concretize_segment params) init) v (ends_as init last n ∙ ap is_param p)
                (item_values params segs init target last name v same
                  (split_last-append segs init last n) p b)
                refl refl (item_kind_lem method))
      ]
    ]
