-- ===== src/Agent.antt =====
-- cbrain/agent/foundation.py: the run of a `FoundationAgent` without a run store. What it calls acts
-- on a world: the clocks, the cancellation, the model's route, the retrieval and the governed
-- runtime with the tool's handler.
pub mod Turn
pub mod Run
pub mod Sound
pub mod Whole
pub mod Bounded
pub mod Counted
use cbrain.Prelude.{
  ℕ, String, Option, none, some, Bool, true, false, ◌&&◌, not, List, [], ◌∷◌, ◌++◌, Result,
  is_blank,
}
use cbrain.Prelude.Lists.{length}
use cbrain.Prelude.Dict.{Dict}
use cbrain.Json.{Json, Fields, get}
use cbrain.Contracts.{ContractError, GovernedExecution, ActionIntent, Float}
use cbrain.Durable.{RunStatus}
use cbrain.Durable.Resume.{RunEventKind, RunEvent, RunInput, RunResult}
use cbrain.Durable.Ending.{metadata_of, closing_event}
use cbrain.Models.{ModelContractError, Message, ModelOutput}

-- `AgentProfile` with its `RunLimits`.
pub record AgentProfile : Type 0 where
  pub agent_id : String
  pub instructions : String
  pub permitted_tools : List String
  pub max_model_turns : ℕ
  pub max_tool_calls : ℕ
  pub timeout_seconds : Float
  pub knowledge_required_for_tools : Bool
  pub max_task_chars : ℕ
  pub max_model_text_chars : ℕ
  pub max_observation_chars : ℕ
  pub max_context_messages : ℕ
  pub max_output_tokens : ℕ

-- What the agent is given: the registry's tools with their capabilities, `definitions_for` the
-- permitted ones by their names, and calls that act on the world. `complete` and `retrieve` answer
-- with the text of what they raise, and with nothing for an exception.
pub record Services (World : Type 0) : Type 0 where
  pub tools : Dict String
  pub definitions : Result String (List String)
  pub cancelled : World → Bool × World
  pub clock : World → Float × World
  pub wall_clock : World → Float × World
  pub complete : List Message → World → Result String ModelOutput × World
  pub execute : ActionIntent → World → Result ContractError (GovernedExecution Json) × World
  pub retrieve : Option (String → String → String → String → World → Option String × World)
  pub request_id : String → ℕ → String
  pub fresh_id : String
  pub after : Float → Float → Bool
  pub reached : Float → Float → Bool
  pub plus : Float → Float → Float
  pub repr : String → String
  pub observation_text : String → GovernedExecution Json → String
  pub model_text : ModelContractError → String
  pub contract_text : ContractError → String

-- What escapes from `run`.
pub data RunError : Type 0 where
  empty_task : RunError
  model_error : ModelContractError → RunError
  contract_error : ContractError → RunError

-- The local variables of the loop.
pub record RunState : Type 0 where
  pub messages : List Message
  pub events : List RunEvent
  pub tool_calls : ℕ
  pub model_turns : ℕ

-- What a turn ends with.
pub data Turned : Type 0 where
  ended : RunResult → Turned
  continues : RunState → Turned
  escapes : RunError → Turned

abbrev pub event : RunEventKind → ℕ → Float → Fields → RunEvent
event kind step timestamp detail = record {
  kind = kind;
  step = step;
  timestamp = timestamp;
  detail = detail;
}

abbrev pub noted : RunState → RunEvent → RunState
noted s e = record s { events = s.events ++ (e ∷ []) }

-- `_terminal` and `_failed`
unfoldable pub terminal : RunInput → String → RunStatus → Option String → RunState → RunResult
unfolding metadata_of closing_event
terminal input run_id status reason s = record {
  run_id = run_id;
  status = status;
  final_text = none;
  tool_calls = s.tool_calls;
  model_turns = s.model_turns;
  events = s.events ++ (closing_event (length s.events) (Float.finite "0.0") run_id status ∷ []);
  metadata = metadata_of input reason;
}

-- `isinstance(value, str) and value.strip()`
abbrev pub filled : Option Json → Option String
filled (some (Json.text s)) = if_filled (is_blank s) s
  where
    if_filled : Bool → String → Option String
    if_filled true s = none
    if_filled false s = some s
filled _ = none
