-- ===== src/Sandbox/Rules.antt =====
-- internal/sandbox/rules.go: which rule answers a request (`applyRules`), and how (`ruleResponse`). The
-- tables of the store, `EmitWebhook` and the JSON library are interfaces; an operation is the resource
-- that the request addresses, an endpoint its place in the specification.
pub mod First
pub mod Times
use pikopod.Base.{
  ℕ, Bool, true, false, not, ◌&&◌, ◌||◌, Option, none, some, List, [], ◌∷◌, ◌++◌, ◌==◌, nat_beq,
  ltb, if◌then◌else◌, length, bytes_eq,
}
use pikopod.Base.Map.{Map, lookup, insert}
use pikopod.Base.Bytes.{Bytes, codes, to_lower}
use pikopod.Base.Json.{Json}
use pikopod.Sandbox.Windows.{consume_window, window_key}

pub data BodyMatcher : Type 0 where
  exists absent exists_in_store : BodyMatcher
  equals : Bytes → BodyMatcher

pub data StateCond : Type 0 where
  state_is state_not : Bytes → StateCond

pub record RuleSetState : Type 0 where
  pub resource : Bytes
  pub state : Bytes

-- The body is the one of the rule, or of the example that it names.
pub record RuleRespond : Type 0 where
  pub status : ℕ
  pub headers : Map Bytes Bytes
  pub body : Option Bytes
  pub set_state : Option RuleSetState
  pub emit : Option Bytes

pub record CompiledRule : Type 0 where
  pub id : Bytes
  pub endpoint : ℕ
  pub body : List (Bytes × BodyMatcher)
  pub state : List (Bytes × StateCond)
  pub times : ℕ
  pub per : Bytes
  pub respond : RuleRespond
  pub consumed : Map Bytes ℕ

pub record StoredResource : Type 0 where
  pub attributes : Bytes
  pub state : Option Bytes

-- What the rules use of the store: `list_pages` gives the pages of `List` in order, of which one may
-- be an error; `attribute` reads a field of stored attributes, compacted; `emit_webhook` queues an event.
pub record RuleStore (D : Type 0) : Type 0 where
  pub get_one : D → Bytes → Bytes → Option StoredResource
  pub list_pages : D → Bytes → List (Option (List StoredResource))
  pub update_state : D → Bytes → Bytes → Bytes → Option D
  pub attribute : Bytes → Bytes → Option Bytes
  pub emit_webhook : D → Bytes → D

pub record Operation : Type 0 where
  pub typ : Bytes
  pub key : Option Bytes

-- What the rules read of a request; `fields` are those of its body, in canonical form.
pub record RuleRequest : Type 0 where
  pub endpoint : ℕ
  pub operation : Operation
  pub fields : Map Bytes Bytes
  pub scope : Bytes
  pub idempotency_key : Option Bytes
  pub inner_path : Bytes

pub record RawResponse : Type 0 where
  pub status : ℕ
  pub headers : Map Bytes Bytes
  pub body : Bytes

abbrev or_no_state : Option Bytes → Bytes
or_no_state none = []
or_no_state (some s) = s

-- `stateMatches`
unfoldable pub state_matches : StateCond → Option Bytes → Bool
state_matches (state_is v) state = or_no_state state == v
state_matches (state_not v) state = not (or_no_state state == v)

abbrev has_state : Bytes → Option Bytes → Bool
has_state v none = false
has_state v (some s) = s == v

abbrev any_in_state : Bytes → List StoredResource → Bool
any_in_state v [] = false
any_in_state v (r ∷ rs) = has_state v r.state || any_in_state v rs

abbrev value_of : StateCond → Bytes
value_of (state_is v) = v
value_of (state_not v) = v

-- The loop of `stateHolds` over the pages: whether there is a resource, and one in the state.
unfoldable pub scan_states : Bytes → List (Option (List StoredResource)) → Option (Bool × Bool)
scan_states v [] = some (false, false)
scan_states v (none ∷ pages) = none
scan_states v (some items ∷ pages) = elim (scan_states v pages) [
  | none ↦ none
  | some (any, match) ↦ some (ltb 0 (length items) || any, any_in_state v items || match)
]

abbrev collection_holds : StateCond → Option (Bool × Bool) → Bool
collection_holds cond none = false
collection_holds (state_is v) (some (any, match)) = match
collection_holds (state_not v) (some (any, match)) = any && not match

unfoldable pub found_holds : StateCond → Option StoredResource → Bool
unfolding state_matches
found_holds cond none = false
found_holds cond (some r) = state_matches cond r.state

abbrev response_header : Bytes
response_header = codes "x-pikopod-rule"

-- The headers of the rule, in lower case.
unfoldable pub set_lower_headers : Map Bytes Bytes → Map Bytes Bytes → Map Bytes Bytes
unfolding insert
set_lower_headers headers [] = headers
set_lower_headers headers ((k, v) ∷ more) = set_lower_headers (insert (to_lower k) v headers) more

module _ {D : Type 0} (store : RuleStore D) where
  abbrev any_attribute : Bytes → Bytes → List StoredResource → Bool
  any_attribute field want [] = false
  any_attribute field want (r ∷ rs) =
      elim (store.attribute r.attributes field) [ none ↦ false | some got ↦ got == want ]
      || any_attribute field want rs

  -- `attributeStored`
  unfoldable pub attribute_stored : Bytes → Bytes → List (Option (List StoredResource)) → Bool
  attribute_stored field want [] = false
  attribute_stored field want (none ∷ pages) = false
  attribute_stored field want (some items ∷ pages) =
      any_attribute field want items || attribute_stored field want pages

  -- `stateHolds`
  unfoldable pub state_holds : D → Bytes → StateCond → Operation → Bool
  unfolding scan_states found_holds
  state_holds d typ cond op = elim (if op.typ == typ then op.key else none) [
    | some key ↦ found_holds cond (store.get_one d typ key)
    | none ↦ collection_holds cond (scan_states (value_of cond) (store.list_pages d typ))
  ]

  unfoldable pub body_holds : D → Operation → Bytes → BodyMatcher → Option Bytes → Bool
  unfolding attribute_stored
  body_holds d op field exists none = false
  body_holds d op field absent none = true
  body_holds d op field exists_in_store none = false
  body_holds d op field (equals want) none = false
  body_holds d op field exists (some value) = true
  body_holds d op field absent (some value) = false
  body_holds d op field exists_in_store (some value) =
      attribute_stored field value (store.list_pages d op.typ)
  body_holds d op field (equals want) (some value) = value == want

  unfoldable pub bodies_hold : D → RuleRequest → List (Bytes × BodyMatcher) → Bool
  unfolding lookup body_holds
  bodies_hold d req [] = true
  bodies_hold d req ((field, m) ∷ rest) =
      body_holds d req.operation field m (lookup field req.fields) && bodies_hold d req rest

  unfoldable pub states_hold : D → Operation → List (Bytes × StateCond) → Bool
  unfolding state_holds
  states_hold d op [] = true
  states_hold d op ((typ, cond) ∷ rest) = state_holds d typ cond op && states_hold d op rest

  -- `ruleConditionsHold`, after the test of the endpoint
  unfoldable pub rule_conditions_hold : D → RuleRequest → CompiledRule → Bool
  unfolding bodies_hold states_hold
  rule_conditions_hold d req r =
      nat_beq r.endpoint req.endpoint
      && (bodies_hold d req r.body && states_hold d req.operation r.state)

  -- The rule after its window let the request through; `none` where it does not.
  unfoldable pub fire : RuleRequest → CompiledRule → Option CompiledRule
  unfolding consume_window window_key
  fire req r =
      if nat_beq r.times 0
      then some r
      else (let (consumed, ok) =
            consume_window r.consumed r.times
              (window_key r.per req.scope req.idempotency_key req.inner_path) in
          if ok then some (record r { consumed = consumed }) else none)

  -- The loop of `applyRules`: the rules, and the one that fired.
  unfoldable pub apply_rules :
      D → RuleRequest → List CompiledRule → List CompiledRule × Option CompiledRule
  unfolding rule_conditions_hold fire
  apply_rules d req [] = ([], none)
  apply_rules d req (r ∷ rules) =
      let (rest, fired) = apply_rules d req rules in
      if rule_conditions_hold d req r
      then elim (fire req r) [ some r' ↦ (r' ∷ rules, some r') | none ↦ (r ∷ rest, fired) ]
      else (r ∷ rest, fired)

  abbrev set_rule_state : D → Operation → Option RuleSetState → D
  set_rule_state d op none = d
  set_rule_state d op (some ss) = elim (if op.typ == ss.resource then op.key else none) [
    | none ↦ d
    | some key ↦ elim (store.get_one d ss.resource key) [
      | none ↦ d
      | some res ↦ elim (store.update_state d ss.resource key ss.state) [ none ↦ d | some d' ↦ d' ]
    ]
  ]

  abbrev emit_event : D → Option Bytes → D
  emit_event d none = d
  emit_event d (some event) = store.emit_webhook d event

  abbrev respond_body : Option Bytes → Bytes × Map Bytes Bytes
  respond_body none = ([], [])
  respond_body (some body) =
      (body, (codes "content-type", codes "application/json; charset=utf-8") ∷ [])

  -- `ruleResponse`
  unfoldable pub rule_response : D → Operation → CompiledRule → D × RawResponse
  unfolding set_lower_headers insert
  rule_response d op r =
      let (body, headers) = respond_body r.respond.body in
      (
        emit_event (set_rule_state d op r.respond.set_state) r.respond.emit,
        record {
          status = r.respond.status;
          headers = insert response_header r.id (set_lower_headers headers r.respond.headers);
          body = body;
        },
      )
