-- ===== src/Tests/Dispatches.antt =====
-- Two workers with one prepared tool call.
use cbrain.Prelude.{
  ℕ, suc, String, none, some, [], ◌∷◌, Result, ok, ◌≡◌, ◌≢◌, refl, arith, true, false, is_blank,
}
use cbrain.Prelude.Dict.{lookup, insert}
use cbrain.Json.{Json, Fields}
use cbrain.Contracts.{ContractError, ExecutionStatus, GovernedExecution, Float}
use cbrain.Durable.{DurableRunState}
use cbrain.Durable.Store.{save, claim_tool_dispatch, apply_all}
use cbrain.Durable.Checkpoint.{change, complete_changes}
use cbrain.Durable.Resume.{RunEventKind, DurableRunContext}
use cbrain.Durable.Ending.{Loop, ToolResult, status_value}
use cbrain.Durable.Dispatch.{
  completed_record, observe, by_status, follow_save, complete, follow_execution, follow_claim,
  dispatch_prepared,
}
use cbrain.Durable.Checkpoint.Lifecycle.{AllConsistent}
use cbrain.Durable.Dispatch.Keeps.{dispatch_prepared-AllConsistent}
use cbrain.Durable.Dispatch.Once.{dispatch_prepared_once}
use cbrain.Durable.Dispatch.Continues.{Continued, dispatch_prepared-Continued}
use cbrain.Durable.Restore.{restore_execution, kept, restore_execution-completed_record}
use cbrain.Contracts.Validity.{IsWellFormed}
use cbrain.Tests.Runs.{records-AllConsistent, prepared, records, to_float, again, other_worker}

abbrev context : DurableRunContext Fields
context = record {
  run_input = again;
  run_id = "run-1";
  started_at_utc = Float.finite "1700000000.0";
  events = [];
  messages = Fields.end ∷ [];
  tool_calls = 1;
  model_turns = 1;
  next_step = 2;
  stored = prepared;
  merge_completed_tool = false;
}

abbrev refunded : GovernedExecution Json
refunded = record {
  status = ExecutionStatus.executed;
  request_id = "req-1";
  tool_executed = some true;
  reason = "execution_closed";
  decision_id = none;
  output = some (Json.int 7);
  retryable = false;
}

-- The world counts the refunds.
abbrev refund_runtime : ℕ → Result ContractError (GovernedExecution Json) × ℕ
refund_runtime w = (ok refunded, suc w)

abbrev same_fields : Fields → Fields
same_fields d = d

abbrev message_of : String → Fields
message_of s = Fields.field "content" (Json.text s) Fields.end

abbrev text_of : GovernedExecution Json → String
text_of _ = "7"

abbrev now : Float
now = Float.finite "1700000005.0"

abbrev loop : Loop Fields
loop = record {
  serialize_message = same_fields;
  to_float = to_float;
  tool_message = message_of;
  observation_text = text_of;
  max_observation_chars = 100;
  clock = now;
}

first_refund : (dispatch_prepared loop refund_runtime records context 2 "req-1" 0).2 ≡ 1
unfolding dispatch_prepared follow_claim follow_execution complete claim_tool_dispatch lookup insert
first_refund = refl

first_refund_moves : (dispatch_prepared loop refund_runtime records context 2 "req-1" 0).2 ≢ 0
first_refund_moves e = omega (arith, first_refund, e)

-- The second worker would refund twice.
abbrev other_runtime : ℕ → Result ContractError (GovernedExecution Json) × ℕ
other_runtime w = (ok refunded, suc (suc w))

dispatch_prepared_once_example :
    (dispatch_prepared loop other_runtime
      (apply_all (dispatch_prepared loop refund_runtime records context 2 "req-1" 0).1 other_worker)
      context
      2
      "req-1"
      1).2
    ≡ 1
dispatch_prepared_once_example =
    dispatch_prepared_once loop loop refund_runtime other_runtime records context context 2 2
      "req-1" "req-1" 0 1 other_worker refl refl first_refund_moves

abbrev continued : DurableRunContext Fields
continued = record context {
  events =
      record {
        kind = RunEventKind.tool_completed;
        step = 2;
        timestamp = now;
        detail =
            Fields.field "execution_status" (Json.text "EXECUTED")
              (Fields.field "request_id" (Json.text "req-1") Fields.end);
      }
      ∷ [];
  messages = Fields.end ∷ message_of "7" ∷ [];
  tool_calls = 2;
  stored = record prepared {
    version = 5;
    durable_state = DurableRunState.tool_completed;
    tool_calls = 2;
    pending_execution_status = some "EXECUTED";
    pending_execution_output = Json.int 7;
    pending_execution_reason = some "execution_closed";
  };
}

refund_continues :
    (dispatch_prepared loop refund_runtime records context 2 "req-1" 0).0
    ≡ ok (ToolResult.goes_on continued)
unfolding dispatch_prepared follow_claim follow_execution complete completed_record follow_save
    by_status observe change complete_changes status_value save claim_tool_dispatch lookup insert
refund_continues = refl

dispatch_prepared-AllConsistent_example :
    AllConsistent (dispatch_prepared loop refund_runtime records context 2 "req-1" 0).1
dispatch_prepared-AllConsistent_example =
    dispatch_prepared-AllConsistent loop refund_runtime records context 2 "req-1" 0
      records-AllConsistent

dispatch_prepared-Continued_example :
    (g : GovernedExecution Json) × ((refund_runtime 0).0 ≡ ok g)
    × Continued g 1 (dispatch_prepared loop refund_runtime records context 2 "req-1" 0).1 continued
dispatch_prepared-Continued_example =
    dispatch_prepared-Continued loop refund_runtime records context 2 "req-1" 0 continued
      refund_continues

refunded-IsWellFormed : IsWellFormed refunded
unfolding is_blank
refunded-IsWellFormed = record {
  named = refl;
  explained = refl;
  consistent = refl;
  retry = λ e. absurd (cc);
}

restore_execution-completed_record_example :
    restore_execution (completed_record loop context 2 refunded) ≡ ok (kept refunded)
restore_execution-completed_record_example =
    restore_execution-completed_record loop context 2 refunded refunded-IsWellFormed refl refl
