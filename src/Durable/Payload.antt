-- ===== src/Durable/Payload.antt =====
-- `StoredRunRecord.to_json` and `from_mapping`: a record as a JSON object, and the checks when it
-- is read back. The text of the JSON object is Python's `json`, and is not modelled.

use cbrain.Prelude.{
  ℕ, String, Option, none, some, List, [], ◌∷◌, Result, ok, err, ◌>>=◌, ◌>>◌, str_eq, ◌==◌,
  if◌then◌else◌,
}
use cbrain.Json.{Json, Items, Fields, get}
use cbrain.Contracts.{Float, float_json}
use cbrain.Durable.{RunStoreError, RunStatus, StoredRunRecord, validate_state_fields}
use cbrain.Durable.Readers.{
  required_text, optional_str, non_negative_int, finite_number, mapping, optional_mapping, list_of,
  validate_list, durable_state, terminal_status, state_text, status_text,
}

abbrev pub text_json : Option String → Json
text_json none = Json.null
text_json (some s) = Json.text s

abbrev pub object_json : Option Fields → Json
object_json none = Json.null
object_json (some d) = Json.obj d

unfoldable pub status_json : Option RunStatus → Json
unfolding status_text
status_json none = Json.null
status_json (some s) = Json.text (status_text s)

unfoldable pub items : List Fields → Items
items [] = Items.nil
items (d ∷ ds) = Items.cons (Json.obj d) (items ds)

-- The part of the object from `pending_request_id` on.
unfoldable pub pending_payload : StoredRunRecord → Fields
pending_payload r = Fields.field "pending_request_id" (text_json r.pending_request_id) (
    Fields.field "pending_idempotency_key" (text_json r.pending_idempotency_key) (
      Fields.field "pending_action" (object_json r.pending_action) (
        Fields.field "pending_tool_call_id" (text_json r.pending_tool_call_id) (
          Fields.field "pending_tool_name" (text_json r.pending_tool_name) (
            Fields.field "pending_execution_status" (text_json r.pending_execution_status) (
              Fields.field "pending_execution_output" r.pending_execution_output (
                Fields.field "pending_execution_reason" (text_json r.pending_execution_reason) (
                  Fields.field "terminal_status" (status_json r.terminal_status) (
                    Fields.field "final_text" (text_json r.final_text) (
                      Fields.field "terminal_metadata" (object_json r.terminal_metadata)
                        Fields.end))))))))))

-- The object that `to_json` writes.
unfoldable pub to_payload : StoredRunRecord → Fields
unfolding pending_payload
to_payload r = Fields.field "schema_version" (Json.int r.schema_version) (
    Fields.field "version" (Json.int r.version) (
      Fields.field "run_id" (Json.text r.run_id) (
        Fields.field "durable_state" (Json.text (state_text r.durable_state)) (
          Fields.field "profile_fingerprint" (Json.text r.profile_fingerprint) (
            Fields.field "task" (Json.text r.task) (
              Fields.field "run_metadata" (Json.obj r.run_metadata) (
                Fields.field "started_at_utc" (float_json r.started_at_utc) (
                  Fields.field "expires_at_utc" (float_json r.expires_at_utc) (
                    Fields.field "next_step" (Json.int r.next_step) (
                      Fields.field "tool_calls" (Json.int r.tool_calls) (
                        Fields.field "model_turns" (Json.int r.model_turns) (
                          Fields.field "messages" (Json.arr (items r.messages)) (
                            Fields.field "events" (Json.arr (items r.events))
                              (pending_payload r))))))))))))))

-- `payload.get("schema_version") != STORE_SCHEMA_VERSION`; Python takes 2.0 for 2.
unfoldable pub schema : Option Json → Result RunStoreError ℕ
schema (some (Json.int n)) = if n == 2 then ok n else err RunStoreError.wrong_schema
schema (some (Json.float s)) = if str_eq s "2.0" then ok 2 else err RunStoreError.wrong_schema
schema _ = err RunStoreError.wrong_schema

abbrev pub or_null : Option Json → Json
or_null none = Json.null
or_null (some v) = v

-- `from_mapping`
unfoldable pub from_mapping : (Json → Float) → Fields → Result RunStoreError StoredRunRecord
unfolding get
from_mapping to_float d = do
  schema_version ← schema (get "schema_version" d)
  version ← non_negative_int (get "version" d) "version" 0
  run_id ← required_text (get "run_id" d) "run_id"
  state ← durable_state (get "durable_state" d)
  profile_fp ← required_text (get "profile_fingerprint" d) "profile_fingerprint"
  task ← required_text (get "task" d) "task"
  run_metadata ← mapping (get "run_metadata" d) "run_metadata"
  started_at_utc ← finite_number to_float (get "started_at_utc" d) "started_at_utc"
  expires_at_utc ← finite_number to_float (get "expires_at_utc" d) "expires_at_utc"
  next_step ← non_negative_int (get "next_step" d) "next_step" 1
  tool_calls ← non_negative_int (get "tool_calls" d) "tool_calls" 0
  model_turns ← non_negative_int (get "model_turns" d) "model_turns" 0
  messages_raw ← list_of (get "messages" d) "messages"
  events_raw ← list_of (get "events" d) "events"
  messages ← validate_list messages_raw "message"
  events ← validate_list events_raw "event"
  status ← terminal_status (get "terminal_status" d)
  terminal_metadata ← optional_mapping (get "terminal_metadata" d) "terminal_metadata"
  pending_action ← optional_mapping (get "pending_action" d) "pending_action"
  final_text ← optional_str (get "final_text" d) "final_text"
  pending_request_id ← optional_str (get "pending_request_id" d) "pending_request_id"
  pending_idempotency_key ← optional_str (get "pending_idempotency_key" d) "pending_idempotency_key"
  pending_tool_call_id ← optional_str (get "pending_tool_call_id" d) "pending_tool_call_id"
  pending_tool_name ← optional_str (get "pending_tool_name" d) "pending_tool_name"
  pending_execution_status ←
      optional_str (get "pending_execution_status" d) "pending_execution_status"
  pending_execution_reason ←
      optional_str (get "pending_execution_reason" d) "pending_execution_reason"
  let r : StoredRunRecord = record {
    schema_version = schema_version;
    version = version;
    run_id = run_id;
    durable_state = state;
    profile_fingerprint = profile_fp;
    task = task;
    run_metadata = run_metadata;
    started_at_utc = started_at_utc;
    expires_at_utc = expires_at_utc;
    next_step = next_step;
    tool_calls = tool_calls;
    model_turns = model_turns;
    messages = messages;
    events = events;
    pending_request_id = pending_request_id;
    pending_idempotency_key = pending_idempotency_key;
    pending_action = pending_action;
    pending_tool_call_id = pending_tool_call_id;
    pending_tool_name = pending_tool_name;
    pending_execution_status = pending_execution_status;
    pending_execution_output = or_null (get "pending_execution_output" d);
    pending_execution_reason = pending_execution_reason;
    terminal_status = status;
    final_text = final_text;
    terminal_metadata = terminal_metadata;
  }
  validate_state_fields r
  ok r
