-- ===== src/Sandbox/Operations/Parameters.antt =====
-- The parameters of a path, put back into its template (internal/sandbox/operation.go, `concretize`).
use pikopod.Base.{
  ◌≡◌, refl, sym, ap, ◌∙◌, Bool, true, false, not, ◌&&◌, ◌||◌, Option, none, some, List, [], ◌∷◌,
  ◌==◌, map, arith, length, bytes_eq, bytes_beq_iff, All, Bool-cases, Option-cases, inl, inr,
}
use pikopod.Base.Map.{Map, lookup, insert, lookup-insert, lookup-insert-same}
use pikopod.Base.Bytes.{Bytes}
use pikopod.Sandbox.Routes.{param_segment, or_same, match_segments}
use pikopod.Sandbox.Operations.{concretize_segment}

abbrev is_name : Bytes → Option Bytes → Bool
is_name n none = false
is_name n (some m) = m == n

-- Some segment of the template is the parameter `n`.
abbrev pub names : Bytes → List Bytes → Bool
names n [] = false
names n (s ∷ segs) = is_name n (param_segment s) || names n segs

abbrev names_option : Option Bytes → List Bytes → Bool
names_option none segs = false
names_option (some n) segs = names n segs

-- No parameter has two places in the template.
abbrev pub distinct_names : List Bytes → Bool
distinct_names [] = true
distinct_names (s ∷ segs) = not (names_option (param_segment s) segs) && distinct_names segs

abbrev or_map : Map Bytes Bytes → Option (Map Bytes Bytes) → Map Bytes Bytes
or_map acc none = acc
or_map acc (some m) = m

some-lookup :
    (n : Bytes) (params acc : Map Bytes Bytes)
    → some acc ≡ some params
    → lookup n params ≡ lookup n acc
some-lookup n params acc e = ap (λ o. lookup n (or_map acc o)) (sym e)

module _ (unescape : Bytes → Option Bytes) where
  -- A parameter that the rest of the template does not name keeps its value.
  match_segments-keeps :
      (tpl target : List Bytes) (acc params : Map Bytes Bytes) (n : Bytes)
      → match_segments unescape acc tpl target ≡ some params
      → names n tpl ≡ false
      → lookup n params ≡ lookup n acc
  unfolding match_segments
  match_segments-keeps [] target acc params n e h = some-lookup n params acc e
  match_segments-keeps (s ∷ tpl) [] acc params n e h = some-lookup n params acc e
  match_segments-keeps (s ∷ tpl) (t ∷ target) acc params n e h =
      elim (Option-cases (param_segment s)) [
        | inl p ↦
            match_segments-keeps tpl target acc params n (ground (arith, e, p))
              (ground (arith, h, p))
        | inr (m, p) ↦
            match_segments-keeps tpl target (insert m (or_same t (unescape t)) acc) params n
              (ground (arith, e, p)) (ground (arith, h, p))
            ∙ ground (arith, lookup-insert m n (or_same t (unescape t)) acc, h, p)
      ]

  -- The parameters put back into the template give the segments of the path.
  pub concretize-match_segments :
      (tpl target : List Bytes) (acc params : Map Bytes Bytes)
      → match_segments unescape acc tpl target ≡ some params
      → distinct_names tpl ≡ true
      → length tpl ≡ length target
      → All (λ t. or_same t (unescape t) ≡ t) target
      → map (concretize_segment params) tpl ≡ target
  unfolding match_segments concretize_segment
  concretize-match_segments [] [] acc params e d l h = refl
  concretize-match_segments [] (t ∷ target) acc params e d l h = absurd (omega (arith, l))
  concretize-match_segments (s ∷ tpl) [] acc params e d l h = absurd (omega (arith, l))
  concretize-match_segments (s ∷ tpl) (t ∷ target) acc params e d l h =
      elim (Option-cases (param_segment s)) [
        | inl p ↦
            let rest =
              concretize-match_segments tpl target acc params (ground (arith, e, p))
                (ground (arith, d)) (omega (arith, l)) h.1 in
            let same : s ≡ t = ground (arith, e, p, bytes_beq_iff s t) in rw (p, same, rest) refl
        | inr (m, p) ↦
            let acc' = insert m (or_same t (unescape t)) acc in
            let e' : match_segments unescape acc' tpl target ≡ some params = ground (arith, e, p) in
            let rest =
              concretize-match_segments tpl target acc' params e' (ground (arith, d))
                (omega (arith, l)) h.1 in
            let bound : lookup m params ≡ some t =
              match_segments-keeps tpl target acc' params m e' (ground (arith, d, p))
              ∙ lookup-insert-same m (or_same t (unescape t)) acc
              ∙ ap some h.0 in
            rw (p, bound, rest) refl
      ]

  -- Each parameter of the template has a value.
  pub match_segments-binds :
      (tpl target : List Bytes) (acc params : Map Bytes Bytes) (n : Bytes)
      → match_segments unescape acc tpl target ≡ some params
      → length tpl ≡ length target
      → names n tpl ≡ true
      → (v : Bytes) × (lookup n params ≡ some v)
  unfolding match_segments
  match_segments-binds [] target acc params n e l h = absurd (ground (arith, h))
  match_segments-binds (s ∷ tpl) [] acc params n e l h = absurd (omega (arith, l))
  match_segments-binds (s ∷ tpl) (t ∷ target) acc params n e l h =
      elim (Option-cases (param_segment s)) [
        | inl p ↦
            match_segments-binds tpl target acc params n (ground (arith, e, p)) (omega (arith, l))
              (ground (arith, h, p))
        | inr (m, p) ↦
            let acc' = insert m (or_same t (unescape t)) acc in
            let e' : match_segments unescape acc' tpl target ≡ some params = ground (arith, e, p) in
            elim (Bool-cases (names n tpl)) [
              | inl y ↦ match_segments-binds tpl target acc' params n e' (omega (arith, l)) y
              | inr y ↦ (
                or_same t (unescape t),
                match_segments-keeps tpl target acc' params n e' y
                    ∙ ground (arith, lookup-insert m n (or_same t (unescape t)) acc, h, p, y),
              )
            ]
      ]
