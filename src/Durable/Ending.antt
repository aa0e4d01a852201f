-- ===== src/Durable/Ending.antt =====
-- cbrain/agent/foundation.py: `_persist_terminal`, with `_metadata` and the event that closes a run.
use cbrain.Prelude.{ℕ, String, Option, none, some, [], ◌∷◌, ◌++◌, Result, ok, err, or_else}
use cbrain.Prelude.Lists.{length}
use cbrain.Json.{Json, Fields, put}
use cbrain.Contracts.{ContractError, ExecutionStatus, GovernedExecution, Float}
use cbrain.Durable.{RunStoreError, RunStatus, StoredRunRecord}
use cbrain.Durable.Readers.{status_text}
use cbrain.Durable.Store.{Records, save}
use cbrain.Durable.Resume.{
  RunEventKind, RunEvent, RunInput, RunResult, or_fields, record_to_run_result, DurableRunContext,
}
use cbrain.Durable.Checkpoint.{finalize_durable_record, terminal_state}

pub data LoopError : Type 0 where
  store : RunStoreError → LoopError
  contract : ContractError → LoopError

-- The context to go on with, or the result of a run that has ended or is in other hands.
pub data ToolResult (Message : Type 0) : Type 0 where
  goes_on : DurableRunContext Message → ToolResult Message
  ends : RunResult → ToolResult Message

-- `ExecutionStatus.value`
unfoldable pub status_value : ExecutionStatus → String
status_value ExecutionStatus.executed = "EXECUTED"
status_value ExecutionStatus.blocked = "BLOCKED"
status_value ExecutionStatus.review_required = "REVIEW_REQUIRED"
status_value ExecutionStatus.control_failure = "CONTROL_FAILURE"
status_value ExecutionStatus.indeterminate = "INDETERMINATE"

-- The status under which a run ends whose tool was not executed.
unfoldable pub failed_status : ExecutionStatus → RunStatus
failed_status ExecutionStatus.blocked = RunStatus.rejected
failed_status ExecutionStatus.review_required = RunStatus.rejected
failed_status _ = RunStatus.tool_failure

-- `_metadata`
unfoldable pub metadata_of : RunInput → Option String → Fields
metadata_of i none = or_else i.metadata Fields.end
metadata_of i (some reason) = put "reason" (Json.text reason) (or_else i.metadata Fields.end)

-- The last event of a run.
unfoldable pub closing_event : ℕ → Float → String → RunStatus → RunEvent
closing_event step now run_id RunStatus.completed = record {
  kind = RunEventKind.run_completed;
  step = step;
  timestamp = now;
  detail = Fields.field "run_id" (Json.text run_id) Fields.end;
}
closing_event step now run_id status = record {
  kind = RunEventKind.run_failed;
  step = step;
  timestamp = Float.finite "0.0";
  detail = Fields.field "status" (Json.text (status_text status)) Fields.end;
}

-- What the loop takes from elsewhere: how a message is stored and a number converted, the message
-- and the text of an observation, the profile's limit on that text, and the clock.
pub record Loop (Message : Type 0) : Type 0 where
  pub serialize_message : Message → Fields
  pub to_float : Json → Float
  pub tool_message : String → Message
  pub observation_text : GovernedExecution Json → String
  pub max_observation_chars : ℕ
  pub clock : Float

module _ {Message : Type 0} (loop : Loop Message) where
  open loop use {
    serialize_message, to_float, tool_message, observation_text, max_observation_chars, clock,
  }

  -- `_persist_terminal`: the run is finalized and saved, and reported. The save may fail, and so may
  -- the report of a record that is saved.
  unfoldable pub reported :
      Records
      → Result RunStoreError (StoredRunRecord × Records)
      → Result LoopError (ToolResult Message) × Records
  reported s (err e) = (err (LoopError.store e), s)
  reported s (ok (saved, s')) = (
    elim (record_to_run_result to_float saved) [
      | err e ↦ err (LoopError.store e)
      | ok result ↦ ok (ToolResult.ends result)
    ],
    s',
  )

  unfoldable pub terminal_record :
      DurableRunContext Message → RunStatus → Option String → Option Fields → StoredRunRecord
  terminal_record ctx status final_text metadata =
      let events = ctx.events ++ (closing_event (length ctx.events) clock ctx.run_id status ∷ []) in
      finalize_durable_record serialize_message ctx.stored (terminal_state status) status final_text
        (some (or_fields metadata (metadata_of ctx.run_input none))) (some events)
        (some ctx.messages) (some ctx.tool_calls) (some ctx.model_turns)

  unfoldable pub persist_terminal :
      Records
      → DurableRunContext Message
      → RunStatus
      → Option String
      → Option Fields
      → Result LoopError (ToolResult Message) × Records
  unfolding reported
  persist_terminal s ctx status final_text metadata =
      reported s (save s (terminal_record ctx status final_text metadata) ctx.stored.version)
