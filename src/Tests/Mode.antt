-- ===== src/Tests/Mode.antt =====
-- Modes on concrete inputs.
use pikopod.Base.{
  ℕ, ◌+◌, ◌≡◌, refl, true, false, Option, none, some, List, [], ◌∷◌, arith, length, if◌then◌else◌,
}
use pikopod.Base.Int.{pos}
use pikopod.Base.Bytes.{Bytes, codes}
use pikopod.Base.Json.{Json, null}
use pikopod.Base.Decimal.{itoa}
use pikopod.Sandbox.Faults.{FaultKind, FaultRule, error, is_webhook_fault_kind, resolve_fault_kind}
use pikopod.Sandbox.Faults.Clear.{held_all}
use pikopod.Sandbox.Deliveries.{append_all}
use pikopod.Sandbox.Seeding.{ResourceTable, CountsRows, QuotaLimits, WithinQuota}
use pikopod.Scenario.{
  InjectFaultConfig, SeedResource, inject_fault, seed_state, other_config, Step, is_conditioning,
  fault_rule_for,
}
use pikopod.Mode.{
  Spec, failed, endless_hold, is_blocking_kind, is_verify_type, holds_endlessly, verify_steps,
  collect, compile,
}
use pikopod.Mode.Collects.{blocks, any_endless, leading}
use pikopod.Mode.Standing.{standing_spec, compile_lem, Standing, compile-Standing}
use pikopod.Mode.Enter.{Engine, apply, is_error, apply-faults, apply-lacks_key, apply-WithinQuota}

abbrev marshal : Json → Option Bytes
marshal v = some (codes "{}")

abbrev fault : InjectFaultConfig
fault = record {
  method = some (codes "GET");
  path = some (codes "/pets");
  kind = error;
  status = some 503;
  delay_ms = none;
  target = none;
  wallclock = false;
  times = none;
  per = none;
  body = none;
  headers = [];
}

abbrev pet : Option Bytes → SeedResource
pet key = record { type = codes "pets"; resource_key = key; attributes = null }

abbrev steps : List Step
steps =
    record { key = codes "a"; type = codes "INJECT_FAULT"; config = inject_fault fault }
    ∷ record { key = codes "b"; type = codes "SEED_STATE"; config = seed_state (pet none ∷ []) }
    ∷ record { key = codes "c"; type = codes "VERIFY_REQUESTS"; config = other_config }
    ∷ []

compile_lem_example :
    (any_endless marshal (leading steps) ≡ true
      → (kind : FaultKind) × (blocks kind ≡ true)
        × (compile marshal (codes "down") (codes "pack") steps ≡ failed (endless_hold kind)))
    × (any_endless marshal (leading steps) ≡ false
        → compile marshal (codes "down") (codes "pack") steps
          ≡ standing_spec marshal (codes "down") (codes "pack") steps)
compile_lem_example = compile_lem marshal (codes "down") (codes "pack") steps

abbrev rule : FaultRule
rule = record {
  method = codes "GET";
  path = codes "/pets";
  kind = error;
  status = 503;
  delay_ms = pos 0;
  id = codes "mode-1";
  event = [];
  wallclock = false;
  times = 0;
  per = [];
  body = [];
  headers = [];
  consumed = [];
  held = none;
}

abbrev spec : Spec
spec = record {
  name = codes "down";
  source = codes "pack";
  faults = rule ∷ [];
  seeds = pet none ∷ [];
  verify = record { key = codes "c"; type = codes "VERIFY_REQUESTS"; config = other_config } ∷ [];
}

compile-Standing_example : Standing marshal 0 spec.faults
unfolding compile collect is_conditioning fault_rule_for is_webhook_fault_kind resolve_fault_kind
    holds_endlessly itoa verify_steps is_verify_type is_blocking_kind
compile-Standing_example = compile-Standing marshal (codes "down") (codes "pack") steps spec refl

-- A table of the sizes of its rows.
abbrev sum : List ℕ → ℕ
sum [] = 0
sum (n ∷ l) = sum l + n

abbrev table : ResourceTable (List ℕ)
table = record {
  totals = λ d. some (length d, sum d);
  insert_row = λ d typ key attributes now. some (length attributes ∷ d);
}

table-CountsRows : CountsRows (List ℕ) table
table-CountsRows = record {
  counts = λ d after typ key attributes now n size e f. ground (arith, e, f);
}

abbrev quota : QuotaLimits
quota = record { max_resources = 10; max_storage_bytes = 100; max_resource_bytes = 50 }

abbrev engine : Engine (List ℕ)
engine = record {
  faults = rule ∷ [];
  outbox = record { webhook_log = []; sink = none };
  store = [];
}

apply-faults_example :
    ((apply marshal table quota 5 engine spec).0.faults ≡ (
      if is_error marshal table quota 5 (apply marshal table quota 5 engine spec).1
      then []
      else spec.faults))
    × ((apply marshal table quota 5 engine spec).0.outbox
        ≡ append_all engine.outbox (held_all engine.faults))
apply-faults_example = apply-faults marshal table quota 5 engine spec

apply-lacks_key_example :
    (is_error marshal table quota 5 (apply marshal table quota 5 engine spec).1 ≡ true)
    × ((apply marshal table quota 5 engine spec).0.faults ≡ [])
apply-lacks_key_example = apply-lacks_key marshal table quota 5 engine spec refl

apply-WithinQuota_example :
    WithinQuota table quota 5 (apply marshal table quota 5 engine spec).0.store
apply-WithinQuota_example =
    apply-WithinQuota marshal table quota 5 table-CountsRows engine spec
      (0, 0, refl, omega arith, omega arith)
