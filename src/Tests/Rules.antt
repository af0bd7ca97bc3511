-- ===== src/Tests/Rules.antt =====
-- The rules of the sandbox on concrete inputs.
use pikopod.Base.{ℕ, none, [], ◌∷◌}
use pikopod.Base.Bytes.{codes}
use pikopod.Sandbox.Rules.{CompiledRule, RuleStore, RuleRequest, apply_rules, equals}
use pikopod.Sandbox.Rules.First.{Answer, apply_rules-Answer}

-- A store without resources that forgets events.
abbrev store : RuleStore ℕ
store = record {
  get_one = λ d typ key. none;
  list_pages = λ d typ. [];
  update_state = λ d typ key state. none;
  attribute = λ raw field. none;
  emit_webhook = λ d event. d;
}

abbrev rule : CompiledRule
rule = record {
  id = codes "r1";
  endpoint = 2;
  body = (codes "plan", equals (codes "\"gold\"")) ∷ [];
  state = [];
  times = 1;
  per = codes "global";
  respond = record { status = 402; headers = []; body = none; set_state = none; emit = none };
  consumed = [];
}

abbrev request : RuleRequest
request = record {
  endpoint = 2;
  operation = record { typ = codes "/orders"; key = none };
  fields = (codes "plan", codes "\"gold\"") ∷ [];
  scope = [];
  idempotency_key = none;
  inner_path = codes "/orders";
}

apply_rules-Answer_example :
    Answer store 0 request (rule ∷ []) (apply_rules store 0 request (rule ∷ []))
apply_rules-Answer_example = apply_rules-Answer store 0 request (rule ∷ [])
