-- ===== src/Base/Map/Oldest.antt =====
-- The loop that the program repeats to find the entry of a map that was touched longest ago. The
-- empty key marks that no entry was seen yet.
use pikopod.Base.{
  ℕ, ◌≤◌, ◌<◌, ◌≡◌, ◌≢◌, ◌⊎◌, refl, sym, true, false, ◌||◌, some, List, [], ◌∷◌, ◌==◌, arith, ltb,
  if◌then◌else◌, bytes_eq, bytes_beq_iff, ltb→lt, ltb→le, subst, Bool-cases, inl, inr, All, length,
}
use pikopod.Base.Map.{Map, IsMap, lookup, has, has-lookup-some}

module _ {V : Type 0} (at : V → ℕ) where
  unfoldable pub oldest : List ℕ → ℕ → Map (List ℕ) V → List ℕ
  oldest victim o [] = victim
  oldest victim o ((k, x) ∷ m) =
      let take = (victim == []) || ltb (at x) o in
      oldest (if take then k else victim) (if take then at x else o) m

  -- `r` is the entry of the smallest time in `m`, or the entry `victim` of time `o` that came first.
  pub record IsOldest (victim : List ℕ) (o : ℕ) (m : Map (List ℕ) V) (r : List ℕ) : Type 0 where
    pub least : ℕ
    pub place : ((r ≡ victim) × (least ≡ o)) ⊎ ((w : V) × (lookup r m ≡ some w) × (at w ≡ least))
    pub below : least ≤ o
    pub minimal : All (λ (p : List ℕ × V). least ≤ at p.1) m

  abbrev pub KeysNonempty : Map (List ℕ) V → Type 0
  KeysNonempty m = All (λ (p : List ℕ × V). p.0 ≢ []) m

  lookup_first :
      (r k : List ℕ) (x : V) (m : Map (List ℕ) V) → r ≡ k → lookup r ((k, x) ∷ m) ≡ some x
  unfolding lookup
  lookup_first r k x m e = ground (arith, bytes_beq_iff k r)

  lookup_later :
      (r k : List ℕ) (x w : V) (m : Map (List ℕ) V)
      → has k m ≡ false
      → lookup r m ≡ some w
      → lookup r ((k, x) ∷ m) ≡ some w
  unfolding lookup
  lookup_later r k x w m f e = ground (arith, bytes_beq_iff k r, has-lookup-some r w m e)

  oldest_from :
      (victim : List ℕ) (o : ℕ) (m : Map (List ℕ) V)
      → victim ≢ []
      → KeysNonempty m
      → IsMap m
      → IsOldest victim o m (oldest victim o m)
  unfolding oldest
  oldest_from victim o [] v ks h = record {
    least = o;
    place = inl (refl, refl);
    below = omega arith;
    minimal = tt;
  }
  oldest_from victim o ((k, x) ∷ m) v ks h = elim (Bool-cases (ltb (at x) o)) [
    | inl older ↦
        let t : ((victim == []) || ltb (at x) o) ≡ true = ground arith in
        let r = oldest_from k (at x) m ks.0 ks.1 h.1 in
        rw t record {
          least = r.least;
          place = elim r.place [
            | inl (e, l) ↦ inr (x, lookup_first _ k x m e, sym l)
            | inr (w, e, l) ↦ inr (w, lookup_later _ k x w m h.0 e, l)
          ];
          below = omega (arith, r.below, ltb→lt (at x) o older);
          minimal = (r.below, r.minimal);
        }
    | inr newer ↦
        let t : ((victim == []) || ltb (at x) o) ≡ false =
          ground (arith, bytes_beq_iff victim []) in
        let r = oldest_from victim o m v ks.1 h.1 in
        rw t record {
          least = r.least;
          place = elim r.place [
            | inl (e, l) ↦ inl (e, l)
            | inr (w, e, l) ↦ inr (w, lookup_later _ k x w m h.0 e, l)
          ];
          below = r.below;
          minimal = (omega (arith, r.below, ltb→le (at x) o newer), r.minimal);
        }
  ]

  -- In a map that is not empty and has no empty key, the loop finds an entry with the smallest time.
  pub oldest_lem :
      (m : Map (List ℕ) V)
      → 0 < length m
      → KeysNonempty m
      → IsMap m
      → (w : V) × (lookup (oldest [] 0 m) m ≡ some w) × All (λ (p : List ℕ × V). at w ≤ at p.1) m
  unfolding oldest
  oldest_lem [] l ks h = absurd (omega arith)
  oldest_lem ((k, x) ∷ m) l ks h =
      let r = oldest_from k (at x) m ks.0 ks.1 h.1 in
      elim r.place [
        | inl (e, same) ↦ (
          x,
          lookup_first _ k x m e,
          (omega arith, subst (λ n. All (λ (p : List ℕ × V). n ≤ at p.1) m) same r.minimal),
        )
        | inr (w, e, same) ↦ (
          w,
          lookup_later _ k x w m h.0 e,
          (
            omega (arith, r.below),
            subst (λ n. All (λ (p : List ℕ × V). n ≤ at p.1) m) (sym same) r.minimal,
          ),
        )
      ]
