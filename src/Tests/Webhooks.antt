-- ===== src/Tests/Webhooks.antt =====
-- Duplicates and late deliveries on concrete inputs.
use pikopod.Base.{ℕ, ◌≡◌, refl, false, not, ◌&&◌, List, [], ◌∷◌, arith, leb, nat_beq, bytes_eq}
use pikopod.Base.Map.{lookup, has}
use pikopod.Base.Bytes.{Bytes, codes}
use pikopod.Base.Time.{elapsed}
use pikopod.Webhooks.{Delivery, new_webhook_state, webhook_dedupe_window, observe}
use pikopod.Webhooks.Order.{IsValid, observe_all}
use pikopod.Webhooks.Dedupe.{redelivery_detected}
use pikopod.Webhooks.Watermark.{newest, is_before, late_detected}

abbrev made : Bytes → ℕ → Delivery
made id ts = record {
  id = id;
  event = codes "pet.sold";
  resource = codes "pet_7";
  event_ts = ts;
  index = 0;
}

abbrev between : List (Delivery × ℕ)
between = (made (codes "evt_2") 40, 101) ∷ (made (codes "evt_3") 20, 102) ∷ []

abbrev fresh_IsValid : IsValid new_webhook_state
fresh_IsValid = record {
  ids = record { bounded = omega arith; distinct = tt; same = λ k. unfold has in refl };
  resources = record { bounded = omega arith; distinct = tt; same = λ k. unfold has in refl };
}

redelivery_detected_example :
    ((observe (made (codes "evt_1") 30) 100 new_webhook_state).1.0 ≡ false)
    × ((observe
          (made (codes "evt_1") 30)
          200
          (observe_all (observe (made (codes "evt_1") 30) 100 new_webhook_state).0 between)).1.0
        ≡ leb (elapsed 200 100) webhook_dedupe_window)
redelivery_detected_example =
    redelivery_detected new_webhook_state (made (codes "evt_1") 30) (made (codes "evt_1") 30) 100
      200 between fresh_IsValid (λ e. ground (arith, e)) refl (unfold lookup in refl) (omega arith)
      (λ e. ground (arith, e), (λ e. ground (arith, e), tt))

late_detected_example :
    (observe (made (codes "evt_4") 35) 103 (observe_all new_webhook_state between)).1.1
    ≡ not (nat_beq 35 0)
      && is_before 35
          (newest (codes "pet_7") (lookup (codes "pet_7") new_webhook_state.last_ts) between)
late_detected_example =
    late_detected between (made (codes "evt_4") 35) 103 new_webhook_state (λ e. ground (arith, e))
      (omega arith)
