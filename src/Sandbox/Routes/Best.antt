-- ===== src/Sandbox/Routes/Best.antt =====
-- The endpoint that a request is routed to (internal/sandbox/routes.go, `matchRoute`).
use pikopod.Base.{
  ℕ, ◌≤◌, ◌≡◌, ◌≢◌, inl, inr, refl, sym, ◌∙◌, true, false, Option, none, some, List, [], ◌∷◌, ◌==◌,
  arith, if◌then◌else◌, bytes_eq, bytes_beq_iff, All, Bool-cases, Option-cases, subst, All-mono,
}
use mathlib.Core.List.{Memᴰ}
use pikopod.Base.Map.{Map}
use pikopod.Base.Bytes.{Bytes, to_upper}
use pikopod.Sandbox.Routes.{
  Endpoint, MatchResult, found, method_not_allowed, not_found, Candidate, path_segments,
  template_param_count, less, insert_candidate, sort_candidates, with_method, choose,
  match_path_template, path_matches, match_route,
}

abbrev pub params_of : Candidate → ℕ
params_of c = template_param_count c.endpoint.path_template

abbrev AtLeast : ℕ → List Candidate → Type 0
AtLeast n cs = All (λ (c : Candidate). n ≤ params_of c) cs

-- The first candidate of the list, where there is one, has the fewest parameters.
abbrev Least : List Candidate → Type 0
Least [] = Unit
Least (b ∷ cs) = AtLeast (params_of b) cs

All-insert_candidate :
    (P : Candidate → Type 0) (c : Candidate) (cs : List Candidate)
    → P c
    → All P cs
    → All P (insert_candidate c cs)
unfolding insert_candidate
All-insert_candidate P c [] p h = (p, tt)
All-insert_candidate P c (d ∷ cs) p h =
    elim (less d c) as (λ b. All P (if b then d ∷ insert_candidate c cs else c ∷ d ∷ cs)) [
      | true ↦ (h.0, All-insert_candidate P c cs p h.1)
      | false ↦ (p, h)
    ]

All-sort_candidates :
    (P : Candidate → Type 0) (cs : List Candidate) → All P cs → All P (sort_candidates cs)
unfolding sort_candidates
All-sort_candidates P [] h = tt
All-sort_candidates P (c ∷ cs) h =
    All-insert_candidate P c (sort_candidates cs) h.0 (All-sort_candidates P cs h.1)

less_params : (a b : Candidate) → less a b ≡ true → params_of a ≤ params_of b
unfolding less
less_params a b h = ground arith

not_less_params : (a b : Candidate) → less a b ≡ false → params_of b ≤ params_of a
unfolding less
not_less_params a b h = ground arith

insert_candidate-Least :
    (c : Candidate) (cs : List Candidate) → Least cs → Least (insert_candidate c cs)
unfolding insert_candidate
insert_candidate-Least c [] h = tt
insert_candidate-Least c (d ∷ cs) h = elim (Bool-cases (less d c)) [
  | inl e ↦ rw e (All-insert_candidate (λ x. params_of d ≤ params_of x) c cs (less_params d c e) h)
  | inr e ↦ rw e (
    not_less_params d c e,
    All-mono (λ (x : Candidate). params_of d ≤ params_of x)
        (λ (x : Candidate). params_of c ≤ params_of x)
        (λ x l. omega (arith, l, not_less_params d c e)) cs h,
  )
]

sort_candidates-Least : (cs : List Candidate) → Least (sort_candidates cs)
unfolding sort_candidates
sort_candidates-Least [] = tt
sort_candidates-Least (c ∷ cs) =
    insert_candidate-Least c (sort_candidates cs) (sort_candidates-Least cs)

insert_candidate-All :
    (P : Candidate → Type 0) (c : Candidate) (cs : List Candidate)
    → All P (insert_candidate c cs)
    → All P (c ∷ cs)
unfolding insert_candidate
insert_candidate-All P c [] h = h
insert_candidate-All P c (d ∷ cs) h = elim (Bool-cases (less d c)) [
  | inl e ↦
      let k : All P (d ∷ insert_candidate c cs) =
        subst (λ b. All P (if b then d ∷ insert_candidate c cs else c ∷ d ∷ cs)) e h in
      let r = insert_candidate-All P c cs k.1 in (r.0, (k.0, r.1))
  | inr e ↦ subst (λ b. All P (if b then d ∷ insert_candidate c cs else c ∷ d ∷ cs)) e h
]

sort_candidates-All :
    (P : Candidate → Type 0) (cs : List Candidate) → All P (sort_candidates cs) → All P cs
unfolding sort_candidates
sort_candidates-All P [] h = tt
sort_candidates-All P (c ∷ cs) h =
    let k = insert_candidate-All P c (sort_candidates cs) h in (k.0, sort_candidates-All P cs k.1)

abbrev HasMethod : Bytes → Candidate → Type 0
HasMethod u c = to_upper c.endpoint.method ≡ u

with_method-All :
    (P : Candidate → Type 0) (u : Bytes) (cs : List Candidate)
    → All P (with_method u cs)
    → All (λ c. HasMethod u c → P c) cs
unfolding with_method
with_method-All P u [] h = tt
with_method-All P u (c ∷ cs) h = elim (Bool-cases (to_upper c.endpoint.method == u)) [
  | inl e ↦
      let k : All P (c ∷ with_method u cs) =
        subst (λ b. All P (if b then c ∷ with_method u cs else with_method u cs)) e h in
      (λ m. k.0, with_method-All P u cs k.1)
  | inr e ↦
      let k : All P (with_method u cs) =
        subst (λ b. All P (if b then c ∷ with_method u cs else with_method u cs)) e h in
      (
        λ m. absurd (ground (arith, e, m, bytes_beq_iff (to_upper c.endpoint.method) u)),
        with_method-All P u cs k,
      )
]

All-with_method :
    (P : Candidate → Type 0) (u : Bytes) (cs : List Candidate)
    → All P cs
    → All (λ c. P c × HasMethod u c) (with_method u cs)
unfolding with_method
All-with_method P u [] h = tt
All-with_method P u (c ∷ cs) h = elim (Bool-cases (to_upper c.endpoint.method == u)) [
  | inl e ↦ rw e (
    (h.0, ground (arith, e, bytes_beq_iff (to_upper c.endpoint.method) u)),
    All-with_method P u cs h.1,
  )
  | inr e ↦ rw e (All-with_method P u cs h.1)
]

module _ (unescape : Bytes → Option Bytes) where
  abbrev Matches : List Bytes → Candidate → Type 0
  Matches target c = match_path_template unescape c.endpoint.path_template target ≡ some c.params

  -- What the result of the routing says of the endpoints.
  abbrev pub IsRouted : List Endpoint → Bytes → List Bytes → MatchResult → Type 0
  IsRouted es u target not_found =
      All (λ (e : Endpoint). match_path_template unescape e.path_template target ≡ none) es
  IsRouted es u target (method_not_allowed allow) =
      All
        (λ (e : Endpoint).
          match_path_template unescape e.path_template target ≢ none → to_upper e.method ≢ u)
        es
      × ¬ All (λ (e : Endpoint). match_path_template unescape e.path_template target ≡ none) es
  IsRouted es u target (found e params) =
      Memᴰ e es
      × (match_path_template unescape e.path_template target ≡ some params)
      × (to_upper e.method ≡ u)
      × All
          (λ (o : Endpoint).
            match_path_template unescape o.path_template target ≢ none
            → to_upper o.method ≡ u
            → template_param_count e.path_template ≤ template_param_count o.path_template)
          es

  path_matches-Mem :
      (es : List Endpoint) (target : List Bytes)
      → All (λ (c : Candidate). Memᴰ c.endpoint es) (path_matches unescape es target)
  unfolding path_matches
  path_matches-Mem [] target = tt
  path_matches-Mem (e ∷ es) target =
      let rest =
        All-mono (λ (c : Candidate). Memᴰ c.endpoint es)
          (λ (c : Candidate). Memᴰ c.endpoint (e ∷ es)) (λ c m. Memᴰ.tail m)
          (path_matches unescape es target) (path_matches-Mem es target) in
      elim (Option-cases (match_path_template unescape e.path_template target)) [
        | inl n ↦ rw (n, path_matches) rest
        | inr (ps, n) ↦ rw (n, path_matches) (Memᴰ.head refl, rest)
      ]

  path_skipped :
      (e : Endpoint) (es : List Endpoint) (target : List Bytes)
      → match_path_template unescape e.path_template target ≡ none
      → path_matches unescape (e ∷ es) target ≡ path_matches unescape es target
  unfolding path_matches
  path_skipped e es target n = rw (n, path_matches) refl

  path_taken :
      (e : Endpoint) (es : List Endpoint) (target : List Bytes) (ps : Map Bytes Bytes)
      → match_path_template unescape e.path_template target ≡ some ps
      → path_matches unescape (e ∷ es) target
        ≡ record { endpoint = e; params = ps } ∷ path_matches unescape es target
  unfolding path_matches
  path_taken e es target ps n = rw (n, path_matches) refl

  path_matches-Matches :
      (es : List Endpoint) (target : List Bytes)
      → All (Matches target) (path_matches unescape es target)
  unfolding path_matches
  path_matches-Matches [] target = tt
  path_matches-Matches (e ∷ es) target =
      elim (Option-cases (match_path_template unescape e.path_template target)) [
        | inl n ↦
            subst (All (Matches target)) (sym (path_skipped e es target n))
              (path_matches-Matches es target)
        | inr (ps, m) ↦
            subst (All (Matches target)) (sym (path_taken e es target ps m))
              (m, path_matches-Matches es target)
      ]

  path_matches-All :
      (P : Endpoint → Type 0) (es : List Endpoint) (target : List Bytes)
      → All (λ (c : Candidate). P c.endpoint) (path_matches unescape es target)
      → All (λ (e : Endpoint). match_path_template unescape e.path_template target ≢ none → P e) es
  unfolding path_matches
  path_matches-All P [] target h = tt
  path_matches-All P (e ∷ es) target h =
      elim (Option-cases (match_path_template unescape e.path_template target)) [
        | inl n ↦ (
          λ ne. absurd (ne n),
          path_matches-All P es target
              (subst (All (λ (c : Candidate). P c.endpoint)) (path_skipped e es target n) h),
        )
        | inr (ps, m) ↦
            let k = subst (All (λ (c : Candidate). P c.endpoint)) (path_taken e es target ps m) h in
            (λ ne. k.0, path_matches-All P es target k.1)
      ]

  path_matches-none :
      (es : List Endpoint) (target : List Bytes)
      → path_matches unescape es target ≡ []
      → All (λ (e : Endpoint). match_path_template unescape e.path_template target ≡ none) es
  path_matches-none [] target h = tt
  path_matches-none (e ∷ es) target h =
      elim (Option-cases (match_path_template unescape e.path_template target)) [
        | inl n ↦ (n, path_matches-none es target (sym (path_skipped e es target n) ∙ h))
        | inr (ps, m) ↦ absurd (ground (arith, sym (path_taken e es target ps m) ∙ h))
      ]

  none-path_matches :
      (es : List Endpoint) (target : List Bytes)
      → All (λ (e : Endpoint). match_path_template unescape e.path_template target ≡ none) es
      → path_matches unescape es target ≡ []
  unfolding path_matches
  none-path_matches [] target h = refl
  none-path_matches (e ∷ es) target h =
      path_skipped e es target h.0 ∙ none-path_matches es target h.1

  choose-IsRouted :
      (es : List Endpoint) (u : Bytes) (target : List Bytes) (cs sorted : List Candidate)
      → path_matches unescape es target ≡ cs
      → sort_candidates (with_method u cs) ≡ sorted
      → IsRouted es u target (choose cs sorted)
  unfolding choose
  choose-IsRouted es u target [] sorted e s = path_matches-none es target e
  choose-IsRouted es u target (c ∷ cs) [] e s = (
    path_matches-All (λ o. to_upper o.method ≢ u) es target
        (subst (All (λ (d : Candidate). to_upper d.endpoint.method ≢ u)) (sym e) (
          with_method-All (λ d. ⊥) u (c ∷ cs)
            (sort_candidates-All (λ d. ⊥) (with_method u (c ∷ cs))
              (subst (All (λ (d : Candidate). ⊥)) (sym s) tt)))),
    λ n. ground (arith, sym (none-path_matches es target n) ∙ e),
  )
  choose-IsRouted es u target (c ∷ cs) (b ∷ sorted) e s =
      let fits =
        All-sort_candidates (λ d. Matches target d × HasMethod u d) (with_method u (c ∷ cs))
          (All-with_method (Matches target) u (c ∷ cs)
            (subst (All (Matches target)) e (path_matches-Matches es target))) in
      let listed = subst (All (λ (d : Candidate). Memᴰ d.endpoint es)) s (
        All-sort_candidates (λ d. Memᴰ d.endpoint es) (with_method u (c ∷ cs))
          (All-mono (λ (d : Candidate). Memᴰ d.endpoint es × HasMethod u d)
            (λ (d : Candidate). Memᴰ d.endpoint es) (λ d p. p.0) (with_method u (c ∷ cs))
            (All-with_method (λ d. Memᴰ d.endpoint es) u (c ∷ cs)
              (subst (All (λ (d : Candidate). Memᴰ d.endpoint es)) e
                (path_matches-Mem es target))))) in
      let best = subst (All (λ (d : Candidate). Matches target d × HasMethod u d)) s fits in
      let least = subst Least s (sort_candidates-Least (with_method u (c ∷ cs))) in
      let all =
        sort_candidates-All (λ d. params_of b ≤ params_of d) (with_method u (c ∷ cs))
          (subst (All (λ (d : Candidate). params_of b ≤ params_of d)) (sym s)
            (omega arith, least)) in
      (
        listed.0,
        best.0.0,
        best.0.1,
        path_matches-All
            (λ o. to_upper o.method ≡ u → params_of b ≤ template_param_count o.path_template) es
            target
            (subst (All (λ (d : Candidate). HasMethod u d → params_of b ≤ params_of d)) (sym e)
              (with_method-All (λ d. params_of b ≤ params_of d) u (c ∷ cs) all)),
      )

  -- The endpoint that a request is routed to is one of the table, has a template that matches its path, the request's method
  -- (letter case aside), and no more parameters than any other endpoint that fits; the method is
  -- not allowed exactly where some template matches but none of that method; and nothing is found
  -- exactly where no template matches.
  pub match_route_lem :
      (endpoints : List Endpoint) (method inner_path : Bytes)
      → IsRouted endpoints
          (to_upper method)
          (path_segments inner_path)
          (match_route unescape endpoints method inner_path)
  unfolding match_route
  match_route_lem endpoints method inner_path =
      let target = path_segments inner_path in
      choose-IsRouted endpoints (to_upper method) target (path_matches unescape endpoints target)
        (sort_candidates (with_method (to_upper method) (path_matches unescape endpoints target)))
        refl refl
