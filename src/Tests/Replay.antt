-- ===== src/Tests/Replay.antt =====
-- A replay set on concrete inputs.
use pikopod.Base.{
  ◌+◌, ◌≡◌, refl, true, not, none, List, [], ◌∷◌, arith, ltb, min, get_elem?, last?, if◌then◌else◌,
  bytes_eq,
}
use pikopod.Base.Map.{lookup}
use pikopod.Base.Bytes.{codes}
use pikopod.Replay.{Record, Recording, Keys, ReplaySet, is_served, answer_exact}
use pikopod.Replay.Sequence.{after_exact, exact_sequence}

abbrev get_pet : Record
get_pet = record {
  method = codes "GET";
  path = codes "/pets/7";
  status = 200;
  req_body = none;
  resp_body = none;
}

abbrev heap : List Recording
heap =
    record { recorded = get_pet; served = (codes "a", true) ∷ [] }
    ∷ record { recorded = get_pet; served = [] }
    ∷ []

abbrev fresh_heap : List Recording
fresh_heap =
    record { recorded = get_pet; served = [] } ∷ record { recorded = get_pet; served = [] } ∷ []

abbrev keys : Keys
keys = record { exact_key = codes "k1"; shape_key = codes "k2"; seq_key = codes "k3" }

abbrev replay_set : ReplaySet
replay_set = record {
  recordings = heap;
  exact_index = (codes "k1", 0 ∷ 1 ∷ []) ∷ [];
  shape_index = (codes "k2", 0 ∷ 1 ∷ []) ∷ [];
  sequence_index = (codes "k3", 0 ∷ 1 ∷ []) ∷ [];
  report = [];
  unmatched = 0;
}

exact_sequence_example :
    ((answer_exact (after_exact fresh_heap (0 ∷ 1 ∷ []) (codes "a") 1) (0 ∷ 1 ∷ []) (codes "a")).1
      ≡ (if ltb 1 2 then get_elem? (0 ∷ 1 ∷ []) 1 else last? (0 ∷ 1 ∷ [])))
    × ((answer_exact
          (after_exact fresh_heap (0 ∷ 1 ∷ []) (codes "a") 1)
          (0 ∷ 1 ∷ [])
          (codes "a")).2.held
        ≡ not (ltb 1 2))
    × ((answer_exact
          (after_exact fresh_heap (0 ∷ 1 ∷ []) (codes "a") 1)
          (0 ∷ 1 ∷ [])
          (codes "a")).2.seq_pos
        ≡ min (1 + 1) 2)
exact_sequence_example =
    exact_sequence fresh_heap (0 ∷ 1 ∷ []) (codes "a") 1 ((refl, tt), (tt, tt))
      (omega arith, (omega arith, tt)) (unfold is_served lookup in (refl, (refl, tt)))

abbrev lines : List (Record × Keys)
lines = (get_pet, keys) ∷ (get_pet, keys) ∷ []
