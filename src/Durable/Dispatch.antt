-- ===== src/Durable/Dispatch.antt =====
-- cbrain/agent/foundation.py: the second half of `_execute_durable_tool`, from the claim of a prepared
-- tool call on. The runtime with the action and its handler is a parameter; what it does to the
-- world is passed along.
pub mod Once
pub mod Continues
pub mod Keeps
use cbrain.Durable.Ending.{
  LoopError, ToolResult, status_value, failed_status, metadata_of, closing_event, Loop, reported,
  terminal_record, persist_terminal,
}
use cbrain.Prelude.{
  ℕ, ◌+◌, String, Option, none, some, List, [], ◌∷◌, ◌++◌, Result, ok, err, map_err, ltb, codes,
  if◌then◌else◌, or_else,
}
use cbrain.Prelude.Lists.{length}
use cbrain.Json.{Json, Fields, put}
use cbrain.Contracts.{ContractError, ExecutionStatus, GovernedExecution, Float}
use cbrain.Durable.{RunStoreError, RunStatus, StoredRunRecord}
use cbrain.Durable.Readers.{status_text}
use cbrain.Durable.Payload.{or_null}
use cbrain.Durable.Store.{Records, save, claim_tool_dispatch}
use cbrain.Durable.Resume.{
  RunEventKind, RunEvent, RunInput, RunResult, or_fields, record_to_run_result,
  resolve_claim_conflict, DurableRunContext,
}
use cbrain.Durable.Checkpoint.{change, finalize_durable_record, terminal_state, complete_changes}

module _ {Message : Type 0} (loop : Loop Message) where
  open loop use {
    serialize_message, to_float, tool_message, observation_text, max_observation_chars, clock,
  }

  -- The observation of an executed tool, if it is not too long.
  unfoldable pub observe :
      Records
      → DurableRunContext Message
      → ℕ
      → String
      → GovernedExecution Json
      → Result LoopError (ToolResult Message) × Records
  unfolding persist_terminal
  observe s ctx step request_id g =
      if ltb max_observation_chars (length (codes (observation_text g)))
      then persist_terminal loop s ctx RunStatus.limit_reached none
          (some (metadata_of ctx.run_input (some "tool observation exceeds max_observation_chars")))
      else (
        ok (
            ToolResult.goes_on (record ctx {
              events =
                  ctx.events
                  ++ (record {
                    kind = RunEventKind.tool_completed;
                    step = step;
                    timestamp = clock;
                    detail =
                        Fields.field "execution_status" (Json.text (status_value g.status))
                          (Fields.field "request_id" (Json.text request_id) Fields.end);
                  }
                      ∷ []);
              messages = ctx.messages ++ (tool_message (observation_text g) ∷ []);
            })),
        s,
      )

  -- A tool that was not executed ends the run.
  unfoldable pub reject :
      Records
      → DurableRunContext Message
      → ℕ
      → String
      → GovernedExecution Json
      → Result LoopError (ToolResult Message) × Records
  unfolding persist_terminal
  reject s ctx step request_id g =
      let ctx' = record ctx {
        events =
            ctx.events
            ++ (record {
              kind = RunEventKind.tool_rejected;
              step = step;
              timestamp = clock;
              detail = Fields.field "execution_status" (Json.text (status_value g.status)) (
                  Fields.field "reason" (Json.text g.reason)
                    (Fields.field "request_id" (Json.text request_id) Fields.end));
            }
                ∷ []);
      } in
      persist_terminal loop s ctx' (failed_status g.status) none
        (some (metadata_of ctx.run_input (some g.reason)))

  unfoldable pub by_status :
      Records
      → DurableRunContext Message
      → ℕ
      → String
      → GovernedExecution Json
      → ExecutionStatus
      → Result LoopError (ToolResult Message) × Records
  unfolding observe reject
  by_status s ctx step request_id g ExecutionStatus.executed = observe s ctx step request_id g
  by_status s ctx step request_id g _ = reject s ctx step request_id g

  -- What follows the save of the completed call.
  unfoldable pub follow_save :
      Records
      → DurableRunContext Message
      → ℕ
      → String
      → GovernedExecution Json
      → Result RunStoreError (StoredRunRecord × Records)
      → Result LoopError (ToolResult Message) × Records
  unfolding by_status
  follow_save s ctx step request_id g (err e) = (err (LoopError.store e), s)
  follow_save s ctx step request_id g (ok (r, s')) =
      by_status s' (record ctx { tool_calls = ctx.tool_calls + 1; stored = r }) step request_id g
        g.status

  unfoldable pub completed_record :
      DurableRunContext Message → ℕ → GovernedExecution Json → StoredRunRecord
  completed_record ctx step g = change serialize_message ctx.stored (
      complete_changes ctx.events ctx.messages (ctx.tool_calls + 1) ctx.model_turns step
        (status_value g.status) (or_null g.output) g.reason)

  unfoldable pub complete :
      Records
      → DurableRunContext Message
      → ℕ
      → String
      → GovernedExecution Json
      → Result LoopError (ToolResult Message) × Records
  unfolding follow_save
  complete s ctx step request_id g =
      follow_save s ctx step request_id g (save s (completed_record ctx step g) ctx.stored.version)

  unfoldable pub follow_execution :
      {World : Type 0}
      → Records
      → DurableRunContext Message
      → ℕ
      → String
      → Result ContractError (GovernedExecution Json) × World
      → Result LoopError (ToolResult Message) × Records × World
  unfolding complete
  follow_execution s ctx step request_id (err e, w) = (err (LoopError.contract e), s, w)
  follow_execution s ctx step request_id (ok g, w) =
      let (r, s') = complete s ctx step request_id g in (r, s', w)

  -- From the claim on. A worker that does not get the claim does not execute.
  unfoldable pub follow_claim :
      {World : Type 0}
      → (World → Result ContractError (GovernedExecution Json) × World)
      → Records
      → DurableRunContext Message
      → ℕ
      → String
      → Result RunStoreError (Option StoredRunRecord × Records)
      → World
      → Result LoopError (ToolResult Message) × Records × World
  unfolding follow_execution
  follow_claim runtime s ctx step request_id (err e) w = (err (LoopError.store e), s, w)
  follow_claim runtime s ctx step request_id (ok (none, s')) w = (
    elim (resolve_claim_conflict to_float s' ctx.run_id) [
      | err e ↦ err (LoopError.store e)
      | ok result ↦ ok (ToolResult.ends result)
    ],
    s',
    w,
  )
  follow_claim runtime s ctx step request_id (ok (some claimed, s')) w =
      follow_execution s' (record ctx { stored = claimed }) step request_id (runtime w)

  unfoldable pub dispatch_prepared :
      {World : Type 0}
      → (World → Result ContractError (GovernedExecution Json) × World)
      → Records
      → DurableRunContext Message
      → ℕ
      → String
      → World
      → Result LoopError (ToolResult Message) × Records × World
  unfolding follow_claim
  dispatch_prepared runtime s ctx step request_id w =
      follow_claim runtime s ctx step request_id
        (claim_tool_dispatch s ctx.run_id ctx.stored.version) w
