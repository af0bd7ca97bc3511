-- ===== src/Volatile/Compile.antt =====
-- Which lists of entries compile, and to what (internal/volatile/match.go, `CompileSets`).
use pikopod.Base.{
  ℕ, ◌+◌, ◌≡◌, refl, ap, ◌∙◌, Bool, true, false, not, ◌&&◌, ◌||◌, Option, none, some, List, [], ◌∷◌,
  ◌++◌, ◌==◌, arith, if◌then◌else◌, bytes_eq, bytes_beq_iff, Bool-cases, Option-cases, inl, inr,
}
use pikopod.Base.Bytes.{Bytes, contains, slash}
use pikopod.Volatile.{
  Entry, Matcher, Fault, Building, normalize, malformed, is_seen, add_entry, add_entries,
  new_building, no_label, curated_label, compile_sets,
}

abbrev pub is_fine : Option Fault → Bool
is_fine none = true
is_fine (some why) = false

abbrev pub is_there : Option Matcher → Bool
is_there none = false
is_there (some m) = true

-- Each entry is well-formed.
abbrev pub all_fine : List Bytes → Bool
all_fine [] = true
all_fine (e ∷ es) = is_fine (malformed (normalize e)) && all_fine es

abbrev pub suffixes : List Entry → List Bytes
suffixes [] = []
suffixes (e ∷ es) = e.suffix ∷ suffixes es

abbrev pub normalized : List Bytes → List Bytes
normalized [] = []
normalized (e ∷ es) = normalize e ∷ normalized es

-- How often a text stands in a list.
abbrev pub times : Bytes → List Bytes → ℕ
times k [] = 0
times k (x ∷ xs) = (if x == k then 1 else 0) + times k xs

abbrev pub one_if : Bool → ℕ
one_if b = if b then 1 else 0

times-append : (k : Bytes) (xs ys : List Bytes) → times k (xs ++ ys) ≡ times k xs + times k ys
times-append k [] ys = ground arith
times-append k (x ∷ xs) ys = ground (arith, times-append k xs ys)

suffixes-append : (xs ys : List Entry) → suffixes (xs ++ ys) ≡ suffixes xs ++ suffixes ys
suffixes-append [] ys = refl
suffixes-append (x ∷ xs) ys = ap (λ l. x.suffix ∷ l) (suffixes-append xs ys)

is_seen-append :
    (k : Bytes) (xs ys : List Bytes) → is_seen k (xs ++ ys) ≡ is_seen k xs || is_seen k ys
is_seen-append k [] ys = refl
is_seen-append k (x ∷ xs) ys = ground (arith, is_seen-append k xs ys)

-- The entries have each of the texts in `seen` once, as their suffix, and nothing else.
abbrev InStep : Building → Type 0
InStep b = (k : Bytes) → times k (suffixes b.entries) ≡ one_if (is_seen k b.seen)

add_entry-InStep : (b : Building) (raw label : Bytes) → InStep b → InStep (add_entry b raw label).0
unfolding add_entry
add_entry-InStep b raw label h k = elim (Option-cases (malformed (normalize raw))) [
  | inr (why, e) ↦ rw (e, add_entry) (h k)
  | inl e ↦
      rw (e, add_entry)
        (elim (Bool-cases (is_seen (normalize raw) b.seen)) [
          | inl s ↦ rw s (h k)
          | inr s ↦
              let norm = normalize raw in
              let x : Entry = record {
                raw = if label == [] then raw else label;
                suffix = norm;
                bare = not (contains slash norm);
              } in
              rw (s) (
                ground (
                  arith,
                  ap (times k) (suffixes-append b.entries (x ∷ [])),
                  times-append k (suffixes b.entries) (norm ∷ []),
                  h k,
                  s,
                  bytes_beq_iff norm k,
                  ap (λ y. is_seen y b.seen),
                ))
        ])
]

add_entry-fine :
    (b : Building) (raw label : Bytes)
    → (add_entry b raw label).1 ≡ is_fine (malformed (normalize raw))
unfolding add_entry
add_entry-fine b raw label = elim (Option-cases (malformed (normalize raw))) [
  | inr (why, e) ↦ rw (e, add_entry) refl
  | inl e ↦ rw (e, add_entry) (ground arith)
]

add_entry-seen :
    (b : Building) (raw label k : Bytes)
    → is_fine (malformed (normalize raw)) ≡ true
    → is_seen k (add_entry b raw label).0.seen ≡ (normalize raw == k) || is_seen k b.seen
unfolding add_entry
add_entry-seen b raw label k f = elim (Option-cases (malformed (normalize raw))) [
  | inr (why, e) ↦ absurd (ground (arith, e, f))
  | inl e ↦
      rw (e, add_entry)
        (ground (arith, bytes_beq_iff (normalize raw) k, ap (λ y. is_seen y b.seen)))
]

-- What a loop over entries leaves.
pub record Added (es : List Bytes) (b : Building) (r : Building × Bool) : Type 0 where
  pub fine : r.1 ≡ all_fine es
  pub in_step : InStep b → InStep r.0
  pub seen :
      all_fine es ≡ true
      → (k : Bytes) → is_seen k r.0.seen ≡ is_seen k (normalized es) || is_seen k b.seen

add_entries-Added :
    (label : Bytes → Bytes) (es : List Bytes) (b : Building) → Added es b (add_entries label b es)
unfolding add_entries
add_entries-Added label [] b = record { fine = refl; in_step = λ h. h; seen = λ f k. refl }
add_entries-Added label (e ∷ es) b =
    let b' = (add_entry b e (label e)).0 in
    let rest = add_entries-Added label es b' in
    let first = add_entry-fine b e (label e) in
    elim (Bool-cases (is_fine (malformed (normalize e)))) [
      | inl f ↦ rw (first ∙ f) (record {
        fine = ground (arith, rest.fine, f);
        in_step = λ h. rest.in_step (add_entry-InStep b e (label e) h);
        seen = λ g k.
            ground (arith, rest.seen (ground (arith, f, g)) k, add_entry-seen b e (label e) k f);
      })
      | inr f ↦ rw (first ∙ f) (record {
        fine = ground (arith, f);
        in_step = λ h. add_entry-InStep b e (label e) h;
        seen = λ g k. absurd (ground (arith, f, g));
      })
    ]

-- The lists compile exactly if each entry of both is well-formed; then each text that is an entry of
-- one of them, spaces and letter case aside, is the suffix of exactly one compiled entry, and no
-- other text is one.
pub compile_sets_lem :
    (user curated : List Bytes)
    → (is_there (compile_sets user curated).0 ≡ all_fine user && all_fine curated)
      × ((m : Matcher) (k : Bytes)
          → (compile_sets user curated).0 ≡ some m
          → times k (suffixes m.entries)
            ≡ one_if (is_seen k (normalized user) || is_seen k (normalized curated)))
unfolding compile_sets
compile_sets_lem user curated =
    let b = (add_entries no_label new_building user).0 in
    let c = (add_entries curated_label b curated).0 in
    let u = add_entries-Added no_label user new_building in
    let v = add_entries-Added curated_label curated b in
    (
      ground (arith, u.fine, v.fine),
      λ m k e.
          let fine : all_fine user && all_fine curated ≡ true = ground (arith, u.fine, v.fine, e) in
          let same : c.entries ≡ m.entries = ground (arith, u.fine, v.fine, e) in
          ground (
            arith,
            ap (λ l. times k (suffixes l)) same,
            v.in_step (u.in_step (λ j. refl)) k,
            v.seen (ground (arith, fine)) k,
            u.seen (ground (arith, fine)) k,
          ),
    )
