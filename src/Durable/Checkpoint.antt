-- ===== src/Durable/Checkpoint.antt =====
-- cbrain/agent/durable_loop.py: `persist_record` and `finalize_durable_record`, with the
-- checkpoints that the agent loop of cbrain/agent/foundation.py writes around one tool call.
pub mod Lifecycle
use cbrain.Prelude.{
  ℕ, suc, ◌+◌, String, Option, none, some, Bool, true, false, List, map, Result, ok, err, ◌>>=◌,
  if◌then◌else◌, or_else, or_keep,
}
use cbrain.Json.{Json, Fields}
use cbrain.Durable.{DurableRunState, RunStatus, StoredRunRecord, RunStoreError}
use cbrain.Durable.Store.{Records, save, claim_tool_dispatch}
use cbrain.Durable.Resume.{RunEvent, serialize_event, or_fields}

-- The keyword arguments of `persist_record`; an output of `None` is `null`.
pub record Changes (Message : Type 0) : Type 0 where
  pub durable_state : Option DurableRunState
  pub events : Option (List RunEvent)
  pub messages : Option (List Message)
  pub tool_calls : Option ℕ
  pub model_turns : Option ℕ
  pub next_step : Option ℕ
  pub pending_request_id : Option String
  pub pending_idempotency_key : Option String
  pub pending_action : Option Fields
  pub pending_tool_call_id : Option String
  pub pending_tool_name : Option String
  pub pending_execution_status : Option String
  pub pending_execution_output : Json
  pub pending_execution_reason : Option String
  pub clear_pending : Bool
  pub terminal_status : Option RunStatus
  pub final_text : Option String
  pub terminal_metadata : Option Fields

-- The defaults of the keyword arguments.
abbrev pub unchanged : {Message : Type 0} → Changes Message
unchanged = record {
  durable_state = none;
  events = none;
  messages = none;
  tool_calls = none;
  model_turns = none;
  next_step = none;
  pending_request_id = none;
  pending_idempotency_key = none;
  pending_action = none;
  pending_tool_call_id = none;
  pending_tool_name = none;
  pending_execution_status = none;
  pending_execution_output = Json.null;
  pending_execution_reason = none;
  clear_pending = false;
  terminal_status = none;
  final_text = none;
  terminal_metadata = none;
}

abbrev pub or_json : Json → Json → Json
or_json Json.null old = old
or_json new old = new

-- `None if clear_pending else (new if new is not None else old)`
abbrev pub pending {ℓ} : {A : Type ℓ} → Bool → Option A → Option A → Option A
pending clear new old = if clear then none else or_keep new old

-- The durable state of a terminal status, in `_persist_terminal`.
unfoldable pub terminal_state : RunStatus → DurableRunState
terminal_state RunStatus.completed = DurableRunState.completed
terminal_state RunStatus.cancelled = DurableRunState.cancelled
terminal_state RunStatus.recovery_required = DurableRunState.recovery_required
terminal_state _ = DurableRunState.failed

module _ {Message : Type 0} (serialize_message : Message → Fields) where
  abbrev pub stored_messages : Option (List Message) → List Fields → List Fields
  stored_messages none old = old
  stored_messages (some l) old = map serialize_message l

  abbrev pub stored_events : Option (List RunEvent) → List Fields → List Fields
  stored_events none old = old
  stored_events (some l) old = map serialize_event l

  -- The record that `persist_record` builds.
  unfoldable pub change : StoredRunRecord → Changes Message → StoredRunRecord
  change r c = record r {
    durable_state = or_else c.durable_state r.durable_state;
    next_step = or_else c.next_step r.next_step;
    tool_calls = or_else c.tool_calls r.tool_calls;
    model_turns = or_else c.model_turns r.model_turns;
    messages = stored_messages c.messages r.messages;
    events = stored_events c.events r.events;
    pending_request_id = pending c.clear_pending c.pending_request_id r.pending_request_id;
    pending_idempotency_key =
        pending c.clear_pending c.pending_idempotency_key r.pending_idempotency_key;
    pending_action = pending c.clear_pending c.pending_action r.pending_action;
    pending_tool_call_id = pending c.clear_pending c.pending_tool_call_id r.pending_tool_call_id;
    pending_tool_name = pending c.clear_pending c.pending_tool_name r.pending_tool_name;
    pending_execution_status =
        pending c.clear_pending c.pending_execution_status r.pending_execution_status;
    pending_execution_output =
        if c.clear_pending
        then Json.null
        else or_json c.pending_execution_output r.pending_execution_output;
    pending_execution_reason =
        pending c.clear_pending c.pending_execution_reason r.pending_execution_reason;
    terminal_status = or_keep c.terminal_status r.terminal_status;
    final_text = or_keep c.final_text r.final_text;
    terminal_metadata = or_keep c.terminal_metadata r.terminal_metadata;
  }

  unfoldable pub persist_record :
      Records → StoredRunRecord → Changes Message → Result RunStoreError (StoredRunRecord × Records)
  unfolding change
  persist_record s r c = save s (change r c) r.version

  -- `finalize_durable_record`: the pending fields are left out, so they are `None`.
  unfoldable pub finalize_durable_record :
      StoredRunRecord
      → DurableRunState
      → RunStatus
      → Option String
      → Option Fields
      → Option (List RunEvent)
      → Option (List Message)
      → Option ℕ
      → Option ℕ
      → StoredRunRecord
  finalize_durable_record r state status final_text metadata events messages tool_calls turns =
      record r {
        durable_state = state;
        tool_calls = or_else tool_calls r.tool_calls;
        model_turns = or_else turns r.model_turns;
        messages = stored_messages messages r.messages;
        events = stored_events events r.events;
        pending_request_id = none;
        pending_idempotency_key = none;
        pending_action = none;
        pending_tool_call_id = none;
        pending_tool_name = none;
        pending_execution_status = none;
        pending_execution_output = Json.null;
        pending_execution_reason = none;
        terminal_status = some status;
        final_text = final_text;
        terminal_metadata = some (or_fields metadata r.run_metadata);
      }

module _ {Message : Type 0} where
  -- The checkpoint before a tool is dispatched.
  unfoldable pub prepare_changes :
      List RunEvent → List Message → ℕ → ℕ → String → Fields → String → String → Changes Message
  prepare_changes events messages model_turns step request_id action call_id name =
      record unchanged {
        durable_state = some DurableRunState.tool_prepared;
        events = some events;
        messages = some messages;
        model_turns = some model_turns;
        next_step = some step;
        pending_request_id = some request_id;
        pending_idempotency_key = some request_id;
        pending_action = some action;
        pending_tool_call_id = some call_id;
        pending_tool_name = some name;
      }

  -- The checkpoint after the governed execution has returned.
  unfoldable pub complete_changes :
      List RunEvent → List Message → ℕ → ℕ → ℕ → String → Json → String → Changes Message
  complete_changes events messages tool_calls model_turns step status output reason =
      record unchanged {
        durable_state = some DurableRunState.tool_completed;
        events = some events;
        messages = some messages;
        tool_calls = some tool_calls;
        model_turns = some model_turns;
        next_step = some step;
        pending_execution_status = some status;
        pending_execution_output = output;
        pending_execution_reason = some reason;
      }

  -- The checkpoint once the observation has been merged into the messages.
  unfoldable pub merge_changes : List RunEvent → List Message → ℕ → ℕ → ℕ → Changes Message
  merge_changes events messages tool_calls model_turns step = record unchanged {
    durable_state = some DurableRunState.running;
    events = some events;
    messages = some messages;
    tool_calls = some tool_calls;
    model_turns = some model_turns;
    next_step = some (step + 1);
    clear_pending = true;
  }
