-- ===== src/Tests/Faults.antt =====
-- Armed faults on concrete inputs.
use pikopod.Base.{
  ℕ, ◌+◌, ◌≡◌, refl, true, false, none, some, List, [], ◌∷◌, arith, length, filter_by, bytes_eq,
}
use pikopod.Base.Int.{pos}
use pikopod.Base.Bytes.{codes}
use pikopod.Sandbox.Deliveries.{WebhookDelivery, Outbox, append_all}
use pikopod.Sandbox.Faults.{
  FaultKind, FaultRule, error, hang, reorder_webhook, clears, clear_faults, emit_loop,
}
use pikopod.Sandbox.Faults.Clear.{held_all, tally, keeps, clear_faults_lem}
use pikopod.Sandbox.Faults.Emit.{acting, copies, emit_conserves}
use pikopod.Sandbox.Faults.Evaluate.{Request, no_outcome, evaluate_faults}
use pikopod.Sandbox.Faults.Evaluate.Recovery.{retried, retry_recovers}

abbrev delivery : ℕ → WebhookDelivery
delivery n = record {
  id = codes "evt";
  event = codes "pet.created";
  seq = n;
  virtual_time_ms = 10;
  due_ms = 20;
  payload = codes "{}";
  signature = [];
}

abbrev rule : FaultKind → FaultRule
rule kind = record {
  method = codes "GET";
  path = codes "/pets/{id}";
  kind = kind;
  status = 429;
  delay_ms = pos 90000;
  id = codes "f1";
  event = [];
  wallclock = false;
  times = 2;
  per = [];
  body = [];
  headers = [];
  consumed = ([], 2) ∷ [];
  held = none;
}

abbrev holding : FaultRule
holding = record (rule reorder_webhook) { held = some (delivery 1) }

abbrev armed : List FaultRule
armed = rule error ∷ holding ∷ []

abbrev outbox : Outbox
outbox = record { webhook_log = []; sink = none }

clear_faults_lem_example :
    ((clear_faults armed outbox (codes "GET") []).0 ≡ filter_by (keeps (codes "GET") []) armed)
    × ((clear_faults armed outbox (codes "GET") []).1
        ≡ append_all outbox (held_all (filter_by (clears (codes "GET") []) armed)))
    × ((clear_faults armed outbox (codes "GET") []).2
        ≡ length (filter_by (clears (codes "GET") []) armed))
    × ((n : ℕ)
        → tally n (held_all (clear_faults armed outbox (codes "GET") []).0)
            + tally n (held_all (filter_by (clears (codes "GET") []) armed))
          ≡ tally n (held_all armed))
clear_faults_lem_example = clear_faults_lem armed outbox (codes "GET") []

emit_conserves_example :
    tally 1 (emit_loop armed (delivery 2) 2).1
      + tally 1 (held_all (emit_loop armed (delivery 2) 2).0)
    ≡ copies (acting armed (delivery 2)) 1 (delivery 2) 2 + tally 1 (held_all armed)
emit_conserves_example =
    emit_conserves 1 armed (delivery 2) 2 (λ ne. refl, (λ ne. absurd (ne refl), tt))

abbrev request : Request
request = record {
  endpoint_method = codes "GET";
  template = codes "/pets/{id}";
  inner_path = codes "/pets/7";
  scope = [];
  idempotency_key = none;
  wallclock_faults = false;
  fires = λ f i. true;
  sample = λ f i. none;
  declared = λ status. none;
}

abbrev unlimited : List FaultRule
unlimited = record (rule hang) { times = 0 } ∷ record (rule error) { times = 0 } ∷ []

retry_recovers_example :
    evaluate_faults request (retried request 2 (rule error ∷ rule hang ∷ []))
    ≡ (retried request 2 (rule error ∷ rule hang ∷ []), no_outcome)
retry_recovers_example =
    retry_recovers request 2 (rule error ∷ rule hang ∷ [])
      (λ e. (omega arith, omega arith), (λ e. (omega arith, omega arith), tt))
