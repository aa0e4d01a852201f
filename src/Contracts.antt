-- ===== src/Contracts.antt =====
-- cbrain/contracts.py: the statuses of a governed execution, the record of one with the checks
-- of its `__post_init__`, and the intent that is captured before authorization. Fields that are
-- annotated `str`, `bool` or `bytes` are taken to hold one, so the `isinstance` tests on them pass.
pub mod Validity
use cbrain.Json.{Json, Fields, put}
use cbrain.Prelude.{
  String, Option, none, some, Bool, true, false, ◌&&◌, ◌||◌, not, is_none, is_blank, Result, ok,
  require, refuse, ◌>>◌, or_else, if◌then◌else◌, str_eq,
}

-- Each way in which `ContractError` is raised, with the path that its message names.
pub data ContractError : Type 0 where
  empty_text : String → ContractError
  timestamp_not_finite : ContractError
  not_json_object : String → ContractError
  executed_without_tool : ContractError
  tool_without_execution : ContractError
  indeterminate_with_known_tool : ContractError
  retryable_status : ContractError
  retryable_after_tool : ContractError

unfoldable pub required_text : String → String → Result ContractError (Unit {0})
required_text value path = require (not (is_blank value)) (ContractError.empty_text path)

pub data ExecutionStatus : Type 0 where
  executed blocked review_required control_failure indeterminate : ExecutionStatus

-- `tool_executed` is `None` where it is not known; `output` is any Python value.
pub record GovernedExecution (Out : Type 0) : Type 0 where
  pub status : ExecutionStatus
  pub request_id : String
  pub tool_executed : Option Bool
  pub reason : String
  pub decision_id : Option String
  pub output : Option Out
  pub retryable : Bool

abbrev pub is_executed : ExecutionStatus → Bool
is_executed ExecutionStatus.executed = true
is_executed _ = false

abbrev pub is_control_failure : ExecutionStatus → Bool
is_control_failure ExecutionStatus.control_failure = true
is_control_failure _ = false

abbrev pub is_indeterminate : ExecutionStatus → Bool
is_indeterminate ExecutionStatus.indeterminate = true
is_indeterminate _ = false

-- The set `{BLOCKED, REVIEW_REQUIRED, CONTROL_FAILURE}`.
abbrev pub is_not_run : ExecutionStatus → Bool
is_not_run ExecutionStatus.blocked = true
is_not_run ExecutionStatus.review_required = true
is_not_run ExecutionStatus.control_failure = true
is_not_run _ = false

abbrev pub is_true : Option Bool → Bool
is_true (some true) = true
is_true _ = false

abbrev pub is_false : Option Bool → Bool
is_false (some false) = true
is_false _ = false

-- `GovernedExecution(...)`: the record, if `__post_init__` raises nothing.
unfoldable pub governed_execution :
    {Out : Type 0} → GovernedExecution Out → Result ContractError (GovernedExecution Out)
unfolding required_text
governed_execution g = do
  required_text g.request_id "request_id"
  required_text g.reason "reason"
  refuse (is_executed g.status && not (is_true g.tool_executed)) ContractError.executed_without_tool
  refuse (is_not_run g.status && not (is_false g.tool_executed))
      ContractError.tool_without_execution
  refuse (is_indeterminate g.status && not (is_none g.tool_executed))
      ContractError.indeterminate_with_known_tool
  refuse (g.retryable && not (is_control_failure g.status)) ContractError.retryable_status
  refuse (g.retryable && not (is_false g.tool_executed)) ContractError.retryable_after_tool
  ok g

-- A Python float: finite, by its `repr`, or not finite.
pub data Float : Type 0 where
  finite : String → Float
  infinite nan : Float

abbrev pub is_finite : Float → Bool
is_finite (finite _) = true
is_finite _ = false

-- The three stored JSON byte strings are kept as the objects that they encode.
pub record ActionIntent : Type 0 where
  pub request_id : String
  pub idempotency_key : String
  pub agent_id : String
  pub framework : String
  pub tool_name : String
  pub capability : String
  pub timestamp : Float
  pub arguments : Fields
  pub context : Fields
  pub evidence : Fields

-- `ActionIntent(...)`: the intent, if `__post_init__` raises nothing.
unfoldable pub action_intent : ActionIntent → Result ContractError ActionIntent
unfolding required_text
action_intent a = do
  required_text a.request_id "request_id"
  required_text a.idempotency_key "idempotency_key"
  required_text a.agent_id "agent_id"
  required_text a.framework "framework"
  required_text a.tool_name "tool_name"
  required_text a.capability "capability"
  require (is_finite a.timestamp) ContractError.timestamp_not_finite
  ok a

-- `x or y` on a text that may be missing: an empty text is false too.
abbrev pub or_default : Option String → String → String
or_default none y = y
or_default (some x) y = if str_eq x "" then y else x

-- The keyword arguments of `ActionIntent.capture`.
pub record CaptureRequest : Type 0 where
  pub agent_id : String
  pub framework : String
  pub tool_name : String
  pub capability : String
  pub arguments : Fields
  pub context : Option Fields
  pub evidence : Option Fields
  pub request_id : Option String
  pub idempotency_key : Option String
  pub timestamp : Option Float

-- `ActionIntent.capture`, with the answers of `uuid4` and of the clock.
unfoldable pub capture : String → Float → CaptureRequest → Result ContractError ActionIntent
unfolding action_intent
capture fresh now r =
    let resolved = or_default r.request_id fresh in
    action_intent (record {
      request_id = resolved;
      idempotency_key = or_default r.idempotency_key resolved;
      agent_id = r.agent_id;
      framework = r.framework;
      tool_name = r.tool_name;
      capability = r.capability;
      timestamp = or_else r.timestamp now;
      arguments = r.arguments;
      context = or_else r.context Fields.end;
      evidence = or_else r.evidence Fields.end;
    })

-- A float inside a payload.
unfoldable pub float_json : Float → Json
float_json (finite s) = Json.float s
float_json infinite = Json.non_finite
float_json nan = Json.non_finite

unfoldable pub privatevault_decide_payload : ActionIntent → Fields
unfolding float_json
privatevault_decide_payload a =
    let context =
      put "cbrain"
        (Json.obj (
          Fields.field "framework" (Json.text a.framework) (
            Fields.field "tool_name" (Json.text a.tool_name)
              (Fields.field "idempotency_key" (Json.text a.idempotency_key) Fields.end))))
        a.context in
    Fields.field "agent_id" (Json.text a.agent_id) (
      Fields.field "capability" (Json.text a.capability) (
        Fields.field "timestamp" (float_json a.timestamp) (
          Fields.field "arguments" (Json.obj a.arguments) (
            Fields.field "context" (Json.obj context) (
              Fields.field "evidence" (Json.obj a.evidence)
                (Fields.field "request_id" (Json.text a.request_id) Fields.end))))))
