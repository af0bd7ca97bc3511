-- ===== src/Volatile/Drops.antt =====
-- What the matcher keeps of the fields it dropped (internal/volatile/match.go, `RecordDrop`).
use pikopod.Base.{
  ℕ, ◌+◌, ◌≤◌, ◌≡◌, refl, sym, ap, ◌∙◌, true, false, some, List, [], ◌∷◌, ◌==◌, arith,
  if◌then◌else◌, length, bytes_eq, bytes_beq_iff, Bool-cases, Option-cases, inl, inr,
}
use pikopod.Base.Map.{Map, lookup, insert, has, lookup-insert, has-insert, length-insert}
use pikopod.Base.Bytes.{Bytes}
use pikopod.Volatile.{
  Matcher, max_drop_paths, match_path, or_no_paths, or_no_count, add_drop, record_drop,
}

abbrev pub record_drops : Matcher → List Bytes → Matcher
record_drops m [] = m
record_drops m (p ∷ ps) = record_drops (record_drop m p) ps

abbrev pub paths_of : Matcher → Bytes → Map Bytes ℕ
paths_of m entry = or_no_paths (lookup entry m.drops)

abbrev pub count_of : Matcher → Bytes → Bytes → ℕ
count_of m entry path = or_no_count (lookup path (paths_of m entry))

abbrev pub occurrences_of : Bytes → List Bytes → ℕ
occurrences_of p [] = 0
occurrences_of p (q ∷ qs) = (if q == p then 1 else 0) + occurrences_of p qs

-- One record: the paths of an entry stay few, those that are tracked stay so, and the counts.
pub record Recorded (m : Matcher) (path : Bytes) (r : Matcher) : Type 0 where
  pub entries : r.entries ≡ m.entries
  pub few :
      (entry : Bytes)
      → length (paths_of m entry) ≤ max_drop_paths
      → length (paths_of r entry) ≤ max_drop_paths
  pub tracked :
      (entry p : Bytes)
      → has p (paths_of m entry) ≡ true
      → match_path m p ≡ some entry
      → (has p (paths_of r entry) ≡ true)
        × (count_of r entry p ≡ count_of m entry p + (if path == p then 1 else 0))

length-add_drop :
    (m : Map Bytes ℕ) (path : Bytes)
    → length m ≤ max_drop_paths
    → length (add_drop m path) ≤ max_drop_paths
unfolding add_drop
length-add_drop m path h = ground (arith, length-insert path (or_no_count (lookup path m) + 1) m)

add_drop_tracked :
    (m : Map Bytes ℕ) (path p : Bytes)
    → has p m ≡ true
    → (has p (add_drop m path) ≡ true)
      × (or_no_count (lookup p (add_drop m path))
          ≡ or_no_count (lookup p m) + (if path == p then 1 else 0))
unfolding add_drop
add_drop_tracked m path p h =
    let n = or_no_count (lookup path m) + 1 in
    (
      ground (arith, h, has-insert path p n m),
      ground (
        arith,
        h,
        lookup-insert path p n m,
        bytes_beq_iff path p,
        ap (λ x. has x m),
        ap (λ x. lookup x m),
      ),
    )

record_drop-Recorded : (m : Matcher) (path : Bytes) → Recorded m path (record_drop m path)
unfolding record_drop match_path
record_drop-Recorded m path = elim (Option-cases (match_path m path)) [
  | inl e ↦
      rw (e, record_drop)
        (record {
          entries = refl;
          few = λ entry h. h;
          tracked =
              λ entry p t f. (t, ground (arith, e, f, bytes_beq_iff path p, ap (match_path m)));
        })
  | inr (x, e) ↦
      let old = or_no_paths (lookup x m.drops) in
      let new = add_drop old path in
      rw (e, record_drop)
        (record {
          entries = refl;
          few = λ entry h. ground (
            arith,
            h,
            lookup-insert x entry new m.drops,
            length-add_drop old path,
            bytes_beq_iff x entry,
            ap (paths_of m),
          );
          tracked = λ entry p t f. elim (Bool-cases (x == entry)) [
            | inl q ↦
                let same : x ≡ entry = ground (arith, q, bytes_beq_iff x entry) in
                let k : lookup entry (insert x new m.drops) ≡ some new =
                  ground (arith, q, lookup-insert x entry new m.drops) in
                let here : paths_of m entry ≡ old = ap (paths_of m) (sym same) in
                let h = add_drop_tracked old path p (ap (has p) (sym here) ∙ t) in
                rw k (
                  h.0,
                  h.1
                      ∙ ap (λ o. or_no_count (lookup p o) + (if path == p then 1 else 0))
                          (sym here),
                )
            | inr q ↦
                let k : lookup entry (insert x new m.drops) ≡ lookup entry m.drops =
                  ground (arith, q, lookup-insert x entry new m.drops) in
                let other : (path == p) ≡ false = ground (
                  arith,
                  q,
                  e,
                  f,
                  bytes_beq_iff path p,
                  bytes_beq_iff x entry,
                  ap (match_path m),
                ) in
                rw (k, other) (t, omega arith)
          ];
        })
]

record_drop-match :
    (m r : Matcher) (p : Bytes) → r.entries ≡ m.entries → match_path r p ≡ match_path m p
unfolding match_path
record_drop-match m r p e = rw e refl

-- However many fields are dropped, no entry keeps more than 2000 paths; and a path that an entry
-- tracks goes on being tracked, and is counted each time it is dropped.
pub record_drops_lem :
    (ps : List Bytes) (m : Matcher) (entry p : Bytes)
    → length (paths_of m entry) ≤ max_drop_paths
    → match_path m p ≡ some entry
    → has p (paths_of m entry) ≡ true
    → (length (paths_of (record_drops m ps) entry) ≤ max_drop_paths)
      × (has p (paths_of (record_drops m ps) entry) ≡ true)
      × (count_of (record_drops m ps) entry p ≡ count_of m entry p + occurrences_of p ps)
record_drops_lem [] m entry p h f t = (h, t, omega arith)
record_drops_lem (q ∷ ps) m entry p h f t =
    let r = record_drop m q in
    let one = record_drop-Recorded m q in
    let now = one.tracked entry p t f in
    let rest =
      record_drops_lem ps r entry p (one.few entry h) (record_drop-match m r p one.entries ∙ f)
        now.0 in
    (rest.0, rest.1, omega (arith, rest.2, now.1))
