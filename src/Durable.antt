-- ===== src/Durable.antt =====
-- cbrain/agent/durable.py, cbrain/agent/durable_loop.py and cbrain/agent/store_memory.py: the
-- stored record of a run, its states, the checks on its fields, and the store of records.
pub mod Store
pub mod Readers
pub mod Payload
pub mod Claims
pub mod RoundTrip
pub mod Resume
pub mod Checkpoint
pub mod Ending
pub mod Dispatch
pub mod Restore
pub mod Sqlite
use cbrain.Prelude.{
  ℕ, String, Option, none, some, Bool, true, false, List, Result, ok, err, require, refuse, ◌>>◌,
  ◌&&◌, not, is_none, if◌then◌else◌,
}
use cbrain.Json.{Json, Fields}
use cbrain.Contracts.{Float}

-- `RunStoreError`, by the check that raises it, with the field that its message names.
pub data RunStoreError : Type 0 where
  already_exists unknown_run version_conflict : RunStoreError
  wrong_schema wrong_state wrong_status : RunStoreError
  not_text not_mapping not_list not_number not_integer too_small : String → RunStoreError
  terminal_without_status status_before_end : RunStoreError
  missing_pending : String → RunStoreError
  missing_execution_status : RunStoreError
  fingerprint_mismatch task_mismatch : RunStoreError
  not_terminal not_observable : RunStoreError
  bad_event bad_message : RunStoreError
  corrupted not_json not_object : RunStoreError
  column_mismatch : String → RunStoreError

pub data DurableRunState : Type 0 where
  running tool_prepared tool_in_flight tool_completed recovery_required : DurableRunState
  completed failed cancelled : DurableRunState

-- cbrain/agent/contracts.py
pub data RunStatus : Type 0 where
  completed rejected invalid_model_response model_failure tool_failure : RunStatus
  limit_reached timed_out cancelled recovery_required execution_in_flight : RunStatus

-- `_TERMINAL_DURABLE`
abbrev pub is_terminal : DurableRunState → Bool
is_terminal DurableRunState.completed = true
is_terminal DurableRunState.failed = true
is_terminal DurableRunState.cancelled = true
is_terminal DurableRunState.recovery_required = true
is_terminal _ = false

-- `_PENDING_TOOL_STATES`
abbrev pub is_pending_tool : DurableRunState → Bool
is_pending_tool DurableRunState.tool_prepared = true
is_pending_tool DurableRunState.tool_in_flight = true
is_pending_tool DurableRunState.tool_completed = true
is_pending_tool _ = false

abbrev pub is_prepared : DurableRunState → Bool
is_prepared DurableRunState.tool_prepared = true
is_prepared _ = false

abbrev pub is_in_flight : DurableRunState → Bool
is_in_flight DurableRunState.tool_in_flight = true
is_in_flight _ = false

abbrev pub is_completed_tool : DurableRunState → Bool
is_completed_tool DurableRunState.tool_completed = true
is_completed_tool _ = false

-- Messages and events are stored as JSON objects. The stored output is a JSON value, and `None`
-- is `null`.
pub record StoredRunRecord : Type 0 where
  pub schema_version : ℕ
  pub version : ℕ
  pub run_id : String
  pub durable_state : DurableRunState
  pub profile_fingerprint : String
  pub task : String
  pub run_metadata : Fields
  pub started_at_utc : Float
  pub expires_at_utc : Float
  pub next_step : ℕ
  pub tool_calls : ℕ
  pub model_turns : ℕ
  pub messages : List Fields
  pub events : List Fields
  pub pending_request_id : Option String
  pub pending_idempotency_key : Option String
  pub pending_action : Option Fields
  pub pending_tool_call_id : Option String
  pub pending_tool_name : Option String
  pub pending_execution_status : Option String
  pub pending_execution_output : Json
  pub pending_execution_reason : Option String
  pub terminal_status : Option RunStatus
  pub final_text : Option String
  pub terminal_metadata : Option Fields

-- The loop over the five field names.
unfoldable pub require_pending : StoredRunRecord → Result RunStoreError (Unit {0})
require_pending r = do
  refuse (is_none r.pending_request_id) (RunStoreError.missing_pending "pending_request_id")
  refuse (is_none r.pending_idempotency_key)
      (RunStoreError.missing_pending "pending_idempotency_key")
  refuse (is_none r.pending_action) (RunStoreError.missing_pending "pending_action")
  refuse (is_none r.pending_tool_call_id) (RunStoreError.missing_pending "pending_tool_call_id")
  refuse (is_none r.pending_tool_name) (RunStoreError.missing_pending "pending_tool_name")

-- `_validate_state_fields`
unfoldable pub validate_state_fields : StoredRunRecord → Result RunStoreError (Unit {0})
unfolding require_pending
validate_state_fields r =
    if is_terminal r.durable_state
    then refuse (is_none r.terminal_status) RunStoreError.terminal_without_status
    else (refuse (not (is_none r.terminal_status)) RunStoreError.status_before_end
        >> (if is_pending_tool r.durable_state then require_pending r else ok tt)
        >> refuse (is_completed_tool r.durable_state && is_none r.pending_execution_status)
            RunStoreError.missing_execution_status)
