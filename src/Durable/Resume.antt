-- ===== src/Durable/Resume.antt =====
-- cbrain/agent/durable.py and cbrain/agent/durable_loop.py: starting or resuming a durable run.
pub mod Outcomes
use cbrain.Prelude.{
  ℕ, suc, String, Option, none, some, Bool, true, false, ◌||◌, not, List, [], ◌∷◌, Result, ok, err,
  ◌>>=◌, ◌>>◌, refuse, str_eq, if◌then◌else◌, codes, codes_eq, strip, or_else,
}
use cbrain.Json.{Json, Items, Fields, get, put}
use cbrain.Contracts.{Float, float_json}
use cbrain.Durable.{
  RunStoreError, DurableRunState, RunStatus, StoredRunRecord, is_terminal, is_in_flight,
  is_completed_tool,
}
use cbrain.Durable.Readers.{non_negative_int, finite_number, mapping, find_member}
use cbrain.Durable.Store.{Records, create, load}

-- cbrain/agent/contracts.py
pub data RunEventKind : Type 0 where
  run_started model_turn model_response tool_requested tool_completed : RunEventKind
  tool_rejected run_completed run_failed : RunEventKind

pub record RunEvent : Type 0 where
  pub kind : RunEventKind
  pub step : ℕ
  pub timestamp : Float
  pub detail : Fields

pub record RunInput : Type 0 where
  pub task : String
  pub run_id : Option String
  pub metadata : Option Fields

pub record RunResult : Type 0 where
  pub run_id : String
  pub status : RunStatus
  pub final_text : Option String
  pub tool_calls : ℕ
  pub model_turns : ℕ
  pub events : List RunEvent
  pub metadata : Fields

-- `RunEventKind.value`
unfoldable pub kind_text : RunEventKind → String
kind_text RunEventKind.run_started = "run_started"
kind_text RunEventKind.model_turn = "model_turn"
kind_text RunEventKind.model_response = "model_response"
kind_text RunEventKind.tool_requested = "tool_requested"
kind_text RunEventKind.tool_completed = "tool_completed"
kind_text RunEventKind.tool_rejected = "tool_rejected"
kind_text RunEventKind.run_completed = "run_completed"
kind_text RunEventKind.run_failed = "run_failed"

abbrev pub kinds : List RunEventKind
kinds =
    RunEventKind.run_started ∷ RunEventKind.model_turn ∷ RunEventKind.model_response
    ∷ RunEventKind.tool_requested ∷ RunEventKind.tool_completed ∷ RunEventKind.tool_rejected
    ∷ RunEventKind.run_completed ∷ RunEventKind.run_failed ∷ []

unfoldable pub serialize_event : RunEvent → Fields
unfolding kind_text float_json
serialize_event e = Fields.field "kind" (Json.text (kind_text e.kind)) (
    Fields.field "step" (Json.int e.step) (
      Fields.field "timestamp" (float_json e.timestamp)
        (Fields.field "detail" (Json.obj e.detail) Fields.end)))

-- The text of an event's kind, and the member that it names.
unfoldable pub text_of_kind : Option Json → Result RunStoreError String
text_of_kind (some (Json.text s)) = ok s
text_of_kind _ = err RunStoreError.bad_event

unfoldable pub kind_of : String → Result RunStoreError RunEventKind
unfolding find_member kind_text
kind_of s = elim (find_member kind_text kinds s) [
  | none ↦ err RunStoreError.bad_event
  | some kind ↦ ok kind
]

unfoldable pub deserialize_event : (Json → Float) → Fields → Result RunStoreError RunEvent
unfolding get text_of_kind non_negative_int finite_number mapping kind_of
deserialize_event to_float d = do
  kind ← text_of_kind (get "kind" d)
  step ← non_negative_int (get "step" d) "event step" 0
  timestamp ← finite_number to_float (get "timestamp" d) "event timestamp"
  detail ← mapping (get "detail" d) "event detail"
  event_kind ← kind_of kind
  ok (record { kind = event_kind; step = step; timestamp = timestamp; detail = detail })

-- `tuple(f(item) for item in l)`, which raises at the first item that raises.
unfoldable pub traverse {ℓ κ} :
    {A : Type ℓ} {B : Type κ}
    → (A → Result RunStoreError B)
    → List A
    → Result RunStoreError (List B)
traverse f [] = ok []
traverse f (a ∷ l) = let rest = traverse f l in f a >>= λ b. rest >>= λ bs. ok (b ∷ bs)

-- `a or b` on dicts: an empty one is false.
abbrev pub or_fields : Option Fields → Fields → Fields
or_fields none b = b
or_fields (some Fields.end) b = b
or_fields (some d) b = d

abbrev pub or_status : Option RunStatus → Result RunStoreError RunStatus
or_status none = err RunStoreError.not_terminal
or_status (some s) = ok s

module _ (to_float : Json → Float) where
  unfoldable pub record_to_run_result : StoredRunRecord → Result RunStoreError RunResult
  record_to_run_result r = do
    status ← or_status r.terminal_status
    events ← traverse (deserialize_event to_float) r.events
    ok (record {
      run_id = r.run_id;
      status = status;
      final_text = r.final_text;
      tool_calls = r.tool_calls;
      model_turns = r.model_turns;
      events = events;
      metadata = or_fields r.terminal_metadata r.run_metadata;
    })

  unfoldable pub in_flight_run_result : StoredRunRecord → String → Result RunStoreError RunResult
  in_flight_run_result r reason = do
    events ← traverse (deserialize_event to_float) r.events
    ok (record {
      run_id = r.run_id;
      status = RunStatus.execution_in_flight;
      final_text = none;
      tool_calls = r.tool_calls;
      model_turns = r.model_turns;
      events = events;
      metadata = put "reason" (Json.text reason) r.run_metadata;
    })

  abbrev pub default_reason : String
  default_reason = "tool execution is in flight or its outcome is unknown"

  unfoldable pub observe_loaded_run : StoredRunRecord → Result RunStoreError RunResult
  unfolding record_to_run_result in_flight_run_result
  observe_loaded_run r =
      if is_terminal r.durable_state
      then record_to_run_result r
      else if is_in_flight r.durable_state
      then in_flight_run_result r default_reason
      else err RunStoreError.not_observable

  -- A worker that lost the claim looks the run up again.
  unfoldable pub resolve_claim_conflict : Records → String → Result RunStoreError RunResult
  unfolding load record_to_run_result in_flight_run_result
  resolve_claim_conflict s run_id = do
    current ← load s run_id
    if is_terminal current.durable_state
        then record_to_run_result current
        else if is_in_flight current.durable_state
        then in_flight_run_result current "another worker claimed tool dispatch"
        else in_flight_run_result current "tool dispatch claim conflict"

-- `DurableRunContext`, without the deadline, which is a moment of the process's own clock.
pub record DurableRunContext (Message : Type 0) : Type 0 where
  pub run_input : RunInput
  pub run_id : String
  pub started_at_utc : Float
  pub events : List RunEvent
  pub messages : List Message
  pub tool_calls : ℕ
  pub model_turns : ℕ
  pub next_step : ℕ
  pub stored : StoredRunRecord
  pub merge_completed_tool : Bool

-- A context to go on from, or the result of a run that is over or in other hands.
pub data Resumed (Message : Type 0) : Type 0 where
  context : DurableRunContext Message → Resumed Message
  result : RunResult → Resumed Message

-- The profile enters by its fingerprint; messages by the function that reads one back.
module _ {Message : Type 0} (to_float : Json → Float)
    (deserialize_message : Fields → Result RunStoreError Message) where
  unfoldable pub continue_run : RunInput → StoredRunRecord → Result RunStoreError (Resumed Message)
  continue_run run_input r = do
    events ← traverse (deserialize_event to_float) r.events
    messages ← traverse deserialize_message r.messages
    ok (
        Resumed.context (record {
          run_input = run_input;
          run_id = r.run_id;
          started_at_utc = r.started_at_utc;
          events = events;
          messages = messages;
          tool_calls = r.tool_calls;
          model_turns = r.model_turns;
          next_step = r.next_step;
          stored = r;
          merge_completed_tool = is_completed_tool r.durable_state;
        }))

  unfoldable pub resume_durable_run :
      String → RunInput → StoredRunRecord → Result RunStoreError (Resumed Message)
  resume_durable_run profile_fingerprint run_input r = do
    refuse (not (str_eq profile_fingerprint r.profile_fingerprint))
        RunStoreError.fingerprint_mismatch
    refuse (not (codes_eq (strip (codes run_input.task)) (strip (codes r.task))))
        RunStoreError.task_mismatch
    if is_terminal r.durable_state
        then (record_to_run_result to_float r >>= λ x. ok (Resumed.result x))
        else if is_in_flight r.durable_state
        then (in_flight_run_result to_float r (default_reason to_float) >>= λ x.
            ok (Resumed.result x))
        else continue_run run_input r
