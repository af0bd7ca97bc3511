-- ===== src/Sandbox/Faults/Evaluate.antt =====
-- internal/sandbox/faults.go, `evaluateFaults` and `armedErrorResponse`: what the armed faults do to
-- a request of a declared endpoint. Sums of delays stay within int64.
pub mod Laws
pub mod Recovery
use pikopod.Base.{
  ℕ, zero, suc, ◌+◌, ◌-◌, Bool, true, false, not, ◌&&◌, ◌||◌, Option, none, some, List, [], ◌∷◌,
  ◌++◌, ◌==◌, nat_beq, ltb, leb, if◌then◌else◌, length, bytes_eq,
}
use pikopod.Base.Int.{ℤ, pos, negsuc, ltb_ℤ, ◌+ℤ◌}
use pikopod.Base.Map.{Map, insert}
use pikopod.Base.Bytes.{Bytes, codes, to_lower}
use pikopod.Sandbox.Windows.{consume_window, window_key}
use pikopod.Sandbox.Faults.{
  FaultKind, FaultRule, error, latency, hang, slow_body, rate_limit, connection_reset,
  malformed_response, empty_response, random_data_then_close, wrong_content_length,
  is_webhook_fault_kind,
}
use pikopod.Sandbox.Faults.Paths.{fault_path_matches}

pub record RawResponse : Type 0 where
  pub status : ℕ
  pub headers : Map Bytes Bytes
  pub body : Option Bytes

pub record FaultOutcome : Type 0 where
  pub delay_ms : ℤ
  pub kinds : List FaultKind
  pub err_resp : Option RawResponse
  pub hang_ms : ℤ
  pub slow_body_ms : ℤ
  pub wallclock : Bool
  pub reset_conn : Bool
  pub malformed : Bool
  pub empty_response : Bool
  pub random_data : Bool
  pub wrong_length : Bool

abbrev pub no_outcome : FaultOutcome
no_outcome = record {
  delay_ms = pos 0;
  kinds = [];
  err_resp = none;
  hang_ms = pos 0;
  slow_body_ms = pos 0;
  wallclock = false;
  reset_conn = false;
  malformed = false;
  empty_response = false;
  random_data = false;
  wrong_length = false;
}

-- The request and the engine as the evaluation reads them. `fires` stands for `faultFires`, which
-- rolls a float; `sample` for a rule's delay distribution, sampled where it has one; `declared` for
-- the spec's example of an error response (`errorResponseDef`, `declaredExample`, `jsonResponse`).
pub record Request : Type 0 where
  pub endpoint_method : Bytes
  pub template : Bytes
  pub inner_path : Bytes
  pub scope : Bytes
  pub idempotency_key : Option Bytes
  pub wallclock_faults : Bool
  pub fires : FaultRule → ℕ → Bool
  pub sample : FaultRule → ℕ → Option ℤ
  pub declared : ℕ → Option RawResponse

abbrev pub max_fault_delay_ms : ℤ
max_fault_delay_ms = pos 60000

abbrev pub json_content_type : Bytes
json_content_type = codes "application/json; charset=utf-8"

-- `for k, v := range f.Headers { resp.Headers[strings.ToLower(k)] = v }`
unfoldable pub set_lower : Map Bytes Bytes → Map Bytes Bytes → Map Bytes Bytes
unfolding insert
set_lower headers [] = headers
set_lower headers ((k, v) ∷ rest) = set_lower (insert (to_lower k) v headers) rest

unfoldable pub armed_error_response : Request → FaultRule → ℕ → RawResponse
unfolding set_lower insert
armed_error_response q f status =
    let bare : RawResponse = record { status = status; headers = []; body = none } in
    let base : RawResponse =
      if not (f.body == [])
      then record {
        status = status;
        headers = insert (codes "content-type") json_content_type [];
        body = some f.body;
      }
      else elim (q.declared status) [ some r ↦ r | none ↦ bare ] in
    record base { headers = set_lower base.headers f.headers }

abbrev pub or_500 : ℕ → ℕ
or_500 status = if nat_beq status 0 then 500 else status

-- The response of an `error` fault, with its `retry-after` on a 429.
unfoldable pub error_response : Request → FaultRule → RawResponse
unfolding armed_error_response insert
error_response q f =
    let status = or_500 f.status in
    let resp = armed_error_response q f status in
    if nat_beq status 429
    then record resp { headers = insert (codes "retry-after") (codes "30") resp.headers }
    else resp

-- The filter at the head of the loop.
unfoldable pub concerns : Request → FaultRule → Bool
unfolding is_webhook_fault_kind fault_path_matches
concerns q f =
    not (is_webhook_fault_kind f.kind)
    && ((f.method == q.endpoint_method) && fault_path_matches f.path q.template q.inner_path)

-- Whether the rule fires: by its window, which counts the request, or by chance.
unfoldable pub gate : Request → FaultRule → ℕ → FaultRule × Bool
unfolding consume_window window_key
gate q f i =
    let key = window_key f.per q.scope q.idempotency_key q.inner_path in
    let (consumed, passed) = consume_window f.consumed f.times key in
    if ltb 0 f.times then (record f { consumed = consumed }, passed) else (f, q.fires f i)

abbrev pub or_default : ℤ → ℤ → ℤ
or_default d v = if ltb_ℤ (pos 0) v then v else d

abbrev pub max_ℤ : ℤ → ℤ → ℤ
max_ℤ a b = if ltb_ℤ a b then b else a

-- The `switch` on the kind.
unfoldable pub apply_kind : Request → FaultRule → FaultKind → FaultOutcome → FaultOutcome
unfolding error_response ◌+ℤ◌
apply_kind q f latency out = record out {
  delay_ms = out.delay_ms +ℤ f.delay_ms;
  kinds = out.kinds ++ latency ∷ [];
}
apply_kind q f error out = elim out.err_resp [
  | some _ ↦ out
  | none ↦ record out {
    err_resp = some (error_response q f);
    kinds = out.kinds ++ error ∷ [];
    delay_ms = out.delay_ms +ℤ f.delay_ms;
  }
]
apply_kind q f hang out = record out {
  hang_ms = max_ℤ out.hang_ms (or_default max_fault_delay_ms f.delay_ms);
  kinds = out.kinds ++ hang ∷ [];
}
apply_kind q f slow_body out = record out {
  slow_body_ms = max_ℤ out.slow_body_ms (or_default (pos 30000) f.delay_ms);
  kinds = out.kinds ++ slow_body ∷ [];
}
apply_kind q f connection_reset out = record out {
  reset_conn = true;
  kinds = out.kinds ++ connection_reset ∷ [];
}
apply_kind q f malformed_response out = record out {
  malformed = true;
  kinds = out.kinds ++ malformed_response ∷ [];
}
apply_kind q f empty_response out = record out {
  empty_response = true;
  kinds = out.kinds ++ empty_response ∷ [];
}
apply_kind q f random_data_then_close out = record out {
  random_data = true;
  kinds = out.kinds ++ random_data_then_close ∷ [];
}
apply_kind q f wrong_content_length out = record out {
  wrong_length = true;
  kinds = out.kinds ++ wrong_content_length ∷ [];
}
apply_kind q f _ out = out

abbrev pub with_wallclock : Bool → FaultOutcome → FaultOutcome
with_wallclock b out = if b then record out { wallclock = true } else out

unfoldable pub with_sample : Option ℤ → FaultOutcome → FaultOutcome
unfolding ◌+ℤ◌
with_sample none out = out
with_sample (some v) out = record out {
  delay_ms = out.delay_ms +ℤ v;
  kinds = out.kinds ++ latency ∷ [];
}

-- What a rule that fires, the `i`-th of those that concern the request, adds to the outcome.
unfoldable pub apply_rule : Request → FaultRule → ℕ → FaultOutcome → FaultOutcome
unfolding apply_kind with_sample
apply_rule q f i out =
    apply_kind q f f.kind
      (with_sample (q.sample f i) (with_wallclock (f.wallclock || q.wallclock_faults) out))

-- The loop: the rules with their windows, and the outcome.
unfoldable pub evaluate_loop :
    Request → ℕ → FaultOutcome → List FaultRule → List FaultRule × FaultOutcome
unfolding concerns gate apply_rule
evaluate_loop q i out [] = ([], out)
evaluate_loop q i out (f ∷ fs) =
    let c = concerns q f in
    let (g, fired) = gate q f i in
    let (gs, end) =
      evaluate_loop q (if c then i + 1 else i) (if c && fired then apply_rule q g i out else out)
        fs in
    ((if c then g else f) ∷ gs, end)

abbrev pub clamp : ℤ → ℤ
clamp v = if ltb_ℤ max_fault_delay_ms v then max_fault_delay_ms else v

unfoldable pub evaluate_faults : Request → List FaultRule → List FaultRule × FaultOutcome
unfolding evaluate_loop
evaluate_faults q faults =
    let (fs, out) = evaluate_loop q 0 no_outcome faults in
    (
      fs,
      record out {
        delay_ms = clamp out.delay_ms;
        hang_ms = clamp out.hang_ms;
        slow_body_ms = clamp out.slow_body_ms;
      },
    )
