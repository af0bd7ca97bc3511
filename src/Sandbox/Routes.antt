-- ===== src/Sandbox/Routes.antt =====
-- internal/sandbox/routes.go: which endpoint answers a request. An endpoint is what the routing reads
-- of `ir.Endpoint`. `url.PathUnescape` is a parameter: what it decodes, or nothing on an error.

pub mod Best
use pikopod.Base.{
  ℕ, ◌+◌, Bool, true, false, not, ◌&&◌, ◌||◌, Option, none, some, List, [], ◌∷◌, ◌++◌, ◌==◌,
  nat_beq, ltb, if◌then◌else◌, length, filter_by, bytes_eq,
}
use pikopod.Base.Map.{Map, insert}
use pikopod.Base.Bytes.{Bytes, slash, split, contains, to_upper}
use pikopod.Base.Sort.{bytes_leb, insert_sorted}

pub record Endpoint : Type 0 where
  pub method : Bytes
  pub path_template : Bytes

pub data MatchResult : Type 0 where
  found : Endpoint → Map Bytes Bytes → MatchResult
  method_not_allowed : List Bytes → MatchResult
  not_found : MatchResult

-- `pathSegments`
unfoldable pub path_segments : Bytes → List Bytes
unfolding split
path_segments path = filter_by (λ s. not (s == [])) (split slash path)

-- The text before a `}` that ends it.
unfoldable pub before_brace : Bytes → Option Bytes
before_brace [] = none
before_brace (x ∷ []) = if nat_beq x b'}' then some [] else none
before_brace (x ∷ y ∷ s) = elim (before_brace (y ∷ s)) [
  | none ↦ none
  | some inner ↦ some (x ∷ inner)
]

-- The group of `paramSegment`, `^\{(.+)\}$`; its dot takes no newline.
unfoldable pub param_segment : Bytes → Option Bytes
unfolding before_brace contains
param_segment [] = none
param_segment (x ∷ s) = elim (before_brace s) [
  | none ↦ none
  | some inner ↦
      if nat_beq x b'{' && (not (inner == []) && not (contains 10 inner)) then some inner else none
]

abbrev pub is_param : Option Bytes → Bool
is_param none = false
is_param (some n) = true

unfoldable pub count_params : List Bytes → ℕ
unfolding param_segment
count_params [] = 0
count_params (s ∷ ss) =
    let rest = count_params ss in if is_param (param_segment s) then rest + 1 else rest

-- `templateParamCount`
unfoldable pub template_param_count : Bytes → ℕ
unfolding path_segments count_params
template_param_count template = count_params (path_segments template)

pub record Candidate : Type 0 where
  pub endpoint : Endpoint
  pub params : Map Bytes Bytes

-- The order of `sort.SliceStable` in `matchRoute`.
unfoldable pub less : Candidate → Candidate → Bool
unfolding template_param_count bytes_leb
less a b =
    let pa = template_param_count a.endpoint.path_template in
    let pb = template_param_count b.endpoint.path_template in
    if not (nat_beq pa pb)
    then ltb pa pb
    else bytes_leb a.endpoint.path_template b.endpoint.path_template
      && not (a.endpoint.path_template == b.endpoint.path_template)

-- A stable sort: a candidate goes before those that are not less than it.
unfoldable pub insert_candidate : Candidate → List Candidate → List Candidate
unfolding less
insert_candidate c [] = c ∷ []
insert_candidate c (d ∷ cs) =
    let rest = insert_candidate c cs in if less d c then d ∷ rest else c ∷ d ∷ cs

unfoldable pub sort_candidates : List Candidate → List Candidate
unfolding insert_candidate
sort_candidates [] = []
sort_candidates (c ∷ cs) = insert_candidate c (sort_candidates cs)

abbrev is_listed : Bytes → List Bytes → Bool
is_listed m [] = false
is_listed m (x ∷ xs) = (x == m) || is_listed m xs

-- The methods of the candidates, each once, sorted as `sort.Strings` leaves them.
unfoldable pub allowed_methods : List Candidate → List Bytes
unfolding insert_sorted
allowed_methods [] = []
allowed_methods (c ∷ cs) =
    let rest = allowed_methods cs in
    let m = to_upper c.endpoint.method in if is_listed m rest then rest else insert_sorted m rest

unfoldable pub with_method : Bytes → List Candidate → List Candidate
with_method upper cs = filter_by (λ c. to_upper c.endpoint.method == upper) cs

-- The end of `matchRoute`, for the candidates of the path and, of these, those of the method, sorted.
unfoldable pub choose : List Candidate → List Candidate → MatchResult
unfolding allowed_methods
choose [] sorted = not_found
choose (c ∷ cs) [] = method_not_allowed (allowed_methods (c ∷ cs))
choose (c ∷ cs) (best ∷ sorted) = found best.endpoint best.params

abbrev pub or_same : Bytes → Option Bytes → Bytes
or_same s none = s
or_same s (some t) = t

module _ (unescape : Bytes → Option Bytes) where
  -- The loop of `matchPathTemplate` over segments of the same number.
  unfoldable pub match_segments :
      Map Bytes Bytes → List Bytes → List Bytes → Option (Map Bytes Bytes)
  unfolding param_segment insert
  match_segments params (seg ∷ tpl) (t ∷ target) = elim (param_segment seg) [
    | some name ↦
        let rest = match_segments (insert name (or_same t (unescape t)) params) tpl target in
        if t == [] then none else rest
    | none ↦ let rest = match_segments params tpl target in if seg == t then rest else none
  ]
  match_segments params _ _ = some params

  -- `matchPathTemplate`
  unfoldable pub match_path_template : Bytes → List Bytes → Option (Map Bytes Bytes)
  unfolding match_segments path_segments
  match_path_template template target =
      let tpl = path_segments template in
      if not (nat_beq (length tpl) (length target)) then none else match_segments [] tpl target

  unfoldable pub path_matches : List Endpoint → List Bytes → List Candidate
  unfolding match_path_template
  path_matches [] target = []
  path_matches (e ∷ es) target =
      let rest = path_matches es target in
      elim (match_path_template e.path_template target) [
        | none ↦ rest
        | some params ↦ record { endpoint = e; params = params } ∷ rest
      ]

  -- `matchRoute`
  unfoldable pub match_route : List Endpoint → Bytes → Bytes → MatchResult
  unfolding path_matches path_segments choose sort_candidates with_method
  match_route endpoints method inner_path =
      let candidates = path_matches endpoints (path_segments inner_path) in
      choose candidates (sort_candidates (with_method (to_upper method) candidates))
