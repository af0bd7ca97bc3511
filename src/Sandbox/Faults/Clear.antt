-- ===== src/Sandbox/Faults/Clear.antt =====
-- Clearing faults (internal/sandbox/faults.go, `ClearFaults`).
use mathlib.Core.List.{append_assoc, append-nil}
use pikopod.Base.{
  ℕ, ◌+◌, ◌≡◌, refl, sym, ap, ◌∙◌, Bool, not, Option, none, some, List, [], ◌∷◌, ◌++◌, arith,
  if◌then◌else◌, length, filter_by, nat_beq,
}
use pikopod.Base.Bytes.{Bytes}
use pikopod.Sandbox.Deliveries.{WebhookDelivery, Outbox, append_all}
use pikopod.Sandbox.Faults.{FaultRule, clears, and_held, clear_loop, clear_faults}

-- The deliveries that reorder faults hold back.
abbrev pub held_all : List FaultRule → List WebhookDelivery
held_all [] = []
held_all (f ∷ fs) = elim f.held [ none ↦ held_all fs | some d ↦ d ∷ held_all fs ]

-- How many deliveries of the list have the sequence number `n`.
abbrev pub tally : ℕ → List WebhookDelivery → ℕ
tally n [] = 0
tally n (d ∷ ds) = let rest = tally n ds in if nat_beq d.seq n then rest + 1 else rest

abbrev pub keeps : Bytes → Bytes → FaultRule → Bool
keeps method path f = not (clears method path f)

and_held-append :
    (f : FaultRule) (fs : List FaultRule) (release : List WebhookDelivery)
    → and_held f.held release ++ held_all fs ≡ release ++ held_all (f ∷ fs)
and_held-append f fs release = by_held f.held
  where
    by_held :
        (h : Option WebhookDelivery)
        → and_held h release ++ held_all fs
          ≡ release ++ elim h [ none ↦ held_all fs | some d ↦ d ∷ held_all fs ]
    by_held none = refl
    by_held (some d) = append_assoc release (d ∷ []) (held_all fs)

clear_loop-kept :
    (method path : Bytes) (fs kept : List FaultRule) (removed : ℕ) (release : List WebhookDelivery)
    → (clear_loop method path fs kept removed release).0 ≡ kept ++ filter_by (keeps method path) fs
unfolding clear_loop
clear_loop-kept method path [] kept removed release = sym (append-nil kept)
clear_loop-kept method path (f ∷ fs) kept removed release = ground (
  arith,
  clear_loop-kept method path fs kept (removed + 1) (and_held f.held release),
  clear_loop-kept method path fs (kept ++ f ∷ []) removed release,
  append_assoc kept (f ∷ []) (filter_by (keeps method path) fs),
)

clear_loop-removed :
    (method path : Bytes) (fs kept : List FaultRule) (removed : ℕ) (release : List WebhookDelivery)
    → (clear_loop method path fs kept removed release).1
      ≡ removed + length (filter_by (clears method path) fs)
unfolding clear_loop
clear_loop-removed method path [] kept removed release = omega arith
clear_loop-removed method path (f ∷ fs) kept removed release = ground (
  arith,
  clear_loop-removed method path fs kept (removed + 1) (and_held f.held release),
  clear_loop-removed method path fs (kept ++ f ∷ []) removed release,
)

clear_loop-release :
    (method path : Bytes) (fs kept : List FaultRule) (removed : ℕ) (release : List WebhookDelivery)
    → (clear_loop method path fs kept removed release).2
      ≡ release ++ held_all (filter_by (clears method path) fs)
unfolding clear_loop
clear_loop-release method path [] kept removed release = sym (append-nil release)
clear_loop-release method path (f ∷ fs) kept removed release = ground (
  arith,
  clear_loop-release method path fs kept (removed + 1) (and_held f.held release),
  clear_loop-release method path fs (kept ++ f ∷ []) removed release,
  and_held-append f (filter_by (clears method path) fs) release,
)

tally_held_split :
    (n : ℕ) (method path : Bytes) (fs : List FaultRule)
    → tally n (held_all (filter_by (keeps method path) fs))
        + tally n (held_all (filter_by (clears method path) fs))
      ≡ tally n (held_all fs)
tally_held_split n method path [] = omega arith
tally_held_split n method path (f ∷ fs) = ground (arith, tally_held_split n method path fs)

-- Clearing keeps exactly the faults that the method and path do not select, in order, counts the
-- others, and delivers what those held back, in order; no held delivery is lost, since each is
-- either released or still held.
pub clear_faults_lem :
    (faults : List FaultRule) (o : Outbox) (method path : Bytes)
    → ((clear_faults faults o method path).0 ≡ filter_by (keeps method path) faults)
      × ((clear_faults faults o method path).1
          ≡ append_all o (held_all (filter_by (clears method path) faults)))
      × ((clear_faults faults o method path).2 ≡ length (filter_by (clears method path) faults))
      × ((n : ℕ)
          → tally n (held_all (clear_faults faults o method path).0)
              + tally n (held_all (filter_by (clears method path) faults))
            ≡ tally n (held_all faults))
unfolding clear_faults
clear_faults_lem faults o method path =
    let kept = clear_loop-kept method path faults [] 0 [] in
    (
      kept,
      ap (append_all o) (clear_loop-release method path faults [] 0 []),
      clear_loop-removed method path faults [] 0 [] ∙ omega arith,
      (λ n.
          ap
            (λ fs.
              tally n (held_all fs) + tally n (held_all (filter_by (clears method path) faults)))
            kept
          ∙ tally_held_split n method path faults),
    )
