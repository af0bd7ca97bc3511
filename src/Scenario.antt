-- ===== src/Scenario.antt =====
-- internal/scenario/definition.go: the steps of a scenario as far as a mode reads them, and runner.go,
-- `FaultRuleFor`. `json.Marshal` is a parameter. `Probability` and `DelayDistribution` of a fault are
-- floats, for which the rule has no field.
use pikopod.Base.{ℕ, Bool, false, ◌||◌, Option, none, some, List, [], ◌==◌, if◌then◌else◌, bytes_eq}
use pikopod.Base.Int.{ℤ, pos}
use pikopod.Base.Map.{Map}
use pikopod.Base.Bytes.{Bytes, codes}
use pikopod.Base.Json.{Json}
use pikopod.Sandbox.Faults.{
  FaultKind, unknown, FaultRule, is_webhook_fault_kind, resolve_fault_kind,
}

pub record InjectFaultConfig : Type 0 where
  pub method : Option Bytes
  pub path : Option Bytes
  pub kind : FaultKind
  pub status : Option ℕ
  pub delay_ms : Option ℤ
  pub target : Option Bytes
  pub wallclock : Bool
  pub times : Option ℕ
  pub per : Option Bytes
  pub body : Option Json
  pub headers : Map Bytes Bytes

pub record ClearFaultConfig : Type 0 where
  pub method : Option Bytes
  pub path : Option Bytes

pub record SeedResource : Type 0 where
  pub type : Bytes
  pub resource_key : Option Bytes
  pub attributes : Json

-- The configurations that the functions below read; `other_config` is any other.
pub data StepConfig : Type 0 where
  inject_fault : InjectFaultConfig → StepConfig
  seed_state : List SeedResource → StepConfig
  clear_fault : ClearFaultConfig → StepConfig
  other_config : StepConfig

pub record Step : Type 0 where
  pub key : Bytes
  pub type : Bytes
  pub config : StepConfig

-- `StepClass[type] == "conditioning"`
unfoldable pub is_conditioning : Bytes → Bool
is_conditioning type =
    (type == codes "INJECT_FAULT")
    || ((type == codes "CLEAR_FAULT") || (type == codes "SEED_STATE"))

abbrev pub or_empty : Option Bytes → Bytes
or_empty none = []
or_empty (some b) = b

abbrev pub or_zero_ms : Option ℤ → ℤ
or_zero_ms none = pos 0
or_zero_ms (some d) = d

abbrev pub or_none : Option ℕ → ℕ
or_none none = 0
or_none (some n) = n

abbrev pub blank_rule : FaultRule
blank_rule = record {
  method = [];
  path = [];
  kind = unknown [];
  status = 0;
  delay_ms = pos 0;
  id = [];
  event = [];
  wallclock = false;
  times = 0;
  per = [];
  body = [];
  headers = [];
  consumed = [];
  held = none;
}

abbrev marshalled : (Json → Option Bytes) → Option Json → Bytes
marshalled marshal none = []
marshalled marshal (some v) = or_empty (marshal v)

-- The rule of a fault on requests.
abbrev pub request_rule :
    (Json → Option Bytes) → InjectFaultConfig → Bytes → Bytes → Bytes → FaultKind × ℕ → FaultRule
request_rule marshal cfg id method path (kind, status) = record blank_rule {
  method = method;
  path = path;
  kind = kind;
  id = id;
  wallclock = cfg.wallclock;
  status = status;
  delay_ms = or_zero_ms cfg.delay_ms;
  times = or_none cfg.times;
  per = or_empty cfg.per;
  body = marshalled marshal cfg.body;
  headers = cfg.headers;
}

abbrev on_request :
    (Json → Option Bytes)
    → InjectFaultConfig
    → Bytes
    → Option Bytes
    → Option Bytes
    → Option FaultRule
on_request marshal cfg id (some method) (some path) =
    some
      (request_rule marshal cfg id method path (resolve_fault_kind cfg.kind (or_none cfg.status)))
on_request marshal cfg id method path = none

-- `FaultRuleFor`
unfoldable pub fault_rule_for : (Json → Option Bytes) → InjectFaultConfig → Bytes → Option FaultRule
unfolding is_webhook_fault_kind resolve_fault_kind
fault_rule_for marshal cfg id =
    if is_webhook_fault_kind cfg.kind
    then some (record blank_rule {
      kind = cfg.kind;
      event = or_empty cfg.target;
      id = id;
      delay_ms = or_zero_ms cfg.delay_ms;
    })
    else on_request marshal cfg id cfg.method cfg.path
