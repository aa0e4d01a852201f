-- ===== src/Agent/Turn.antt =====
-- cbrain/agent/foundation.py: one turn of the loop of `_run_ephemeral`, stage by stage.
use cbrain.Prelude.{
  ℕ, ◌+◌, String, Option, none, some, Bool, true, not, List, [], ◌∷◌, ◌++◌, Result, ok, err, ltb,
  leb, codes, if◌then◌else◌,
}
use Prim.Native.String.{◌++◌ as append}
use cbrain.Prelude.Lists.{length}
use cbrain.Prelude.Dict.{lookup}
use cbrain.Json.{Json, Fields}
use cbrain.Contracts.{ContractError, GovernedExecution, ActionIntent, Float, capture, is_executed}
use cbrain.Durable.{RunStatus}
use cbrain.Durable.Resume.{RunEventKind, RunInput}
use cbrain.Durable.Ending.{status_value, failed_status, metadata_of}
use cbrain.Models.{
  ModelContractError, MessageRole, Message, ToolCall, ModelOutput, message, as_message, in_list,
}
use cbrain.Models.History.{validate_history, completion_request}
use cbrain.Agent.{AgentProfile, Services, RunError, RunState, Turned, event, noted, terminal}

-- What a turn does not change.
pub record RunContext : Type 0 where
  pub input : RunInput
  pub run_id : String
  pub deadline : Float
  pub tool_names : List String
  pub knowledge_tools_blocked : Bool

module _ {World : Type 0} (p : AgentProfile) (v : Services World) (c : RunContext) where
  abbrev pub fails : RunStatus → Option String → RunState → World → Turned × World
  fails status reason s w = (Turned.ended (terminal c.input c.run_id status reason s), w)

  -- The observation's message is built and added.
  abbrev pub answered : RunState → World → Result ModelContractError Message → Turned × World
  answered s w (err e) = (Turned.escapes (RunError.model_error e), w)
  answered s w (ok m) = (Turned.continues (record s { messages = s.messages ++ (m ∷ []) }), w)

  -- The tool was executed: its observation is added to the messages.
  unfoldable pub observed :
      ℕ → ToolCall → String → RunState → GovernedExecution Json → World → Turned × World
  unfolding terminal message status_value
  observed step call request_id s g w =
      let text = v.observation_text request_id g in
      if ltb p.max_observation_chars (length (codes text))
      then fails RunStatus.limit_reached (some "tool observation exceeds max_observation_chars") s w
      else let (now, w') = v.clock w in
        let result : Message = record {
          role = MessageRole.tool;
          content = text;
          tool_call_id = some call.call_id;
          tool_name = some call.name;
          tool_call = none;
        } in
        let detail =
          Fields.field "execution_status" (Json.text (status_value g.status))
            (Fields.field "request_id" (Json.text request_id) Fields.end) in
        answered (noted s (event RunEventKind.tool_completed step now detail)) w' (message result)

  -- The tool was not executed, or it is not known whether it was: the run ends.
  unfoldable pub rejected : ℕ → String → RunState → GovernedExecution Json → World → Turned × World
  unfolding terminal status_value failed_status
  rejected step request_id s g w =
      let (now, w') = v.clock w in
      let detail = Fields.field "execution_status" (Json.text (status_value g.status)) (
        Fields.field "reason" (Json.text g.reason)
          (Fields.field "request_id" (Json.text request_id) Fields.end)) in
      fails (failed_status g.status) (some g.reason)
        (noted s (event RunEventKind.tool_rejected step now detail)) w'

  unfoldable pub executed :
      ℕ
      → ToolCall
      → String
      → RunState
      → Result ContractError (GovernedExecution Json) × World
      → Turned × World
  unfolding observed rejected
  executed step call request_id s (err e, w) = (Turned.escapes (RunError.contract_error e), w)
  executed step call request_id s (ok g, w) =
      let s' = record s { tool_calls = s.tool_calls + 1 } in
      if is_executed g.status
      then observed step call request_id s' g w
      else rejected step request_id s' g w

  unfoldable pub sent :
      ℕ
      → ToolCall
      → String
      → ActionIntent
      → List Message
      → RunState
      → World
      → Result ModelContractError (Unit {0})
      → Turned × World
  unfolding terminal executed
  sent step call request_id action asked s w (err e) =
      fails RunStatus.invalid_model_response (some (v.model_text e)) s w
  sent step call request_id action asked s w (ok _) =
      executed step call request_id (record s { messages = asked }) (v.execute action w)

  -- The action is captured: the history with the call is checked, and the runtime executes it.
  unfoldable pub requested :
      ℕ → Float → ToolCall → String → String → ActionIntent → RunState → World → Turned × World
  unfolding validate_history sent
  requested step now call capability request_id action s w =
      let detail = Fields.field "capability" (Json.text capability) (
        Fields.field "request_id" (Json.text request_id)
          (Fields.field "tool_name" (Json.text call.name) Fields.end)) in
      let s' = noted s (event RunEventKind.tool_requested step now detail) in
      let asked = s.messages ++ (as_message call ∷ []) in
      sent step call request_id action asked s' w (validate_history asked true)

  -- The intent of a call.
  unfoldable pub action_of : ToolCall → String → String → Float → Result ContractError ActionIntent
  unfolding capture
  action_of call capability request_id wall = capture v.fresh_id wall (record {
    agent_id = p.agent_id;
    framework = "cbrain-foundation";
    tool_name = call.name;
    capability = capability;
    arguments = call.arguments;
    context = some (
        Fields.field "run_id" (Json.text c.run_id)
          (Fields.field "tool_call_id" (Json.text call.call_id) Fields.end));
    evidence = none;
    request_id = some request_id;
    idempotency_key = some request_id;
    timestamp = some wall;
  })

  unfoldable pub captured :
      ℕ
      → Float
      → ToolCall
      → String
      → String
      → RunState
      → World
      → Result ContractError ActionIntent
      → Turned × World
  unfolding terminal requested
  captured step now call capability request_id s w (err e) =
      fails RunStatus.invalid_model_response (some (v.contract_text e)) s w
  captured step now call capability request_id s w (ok action) =
      requested step now call capability request_id action s w

  -- A permitted call of a registered tool.
  unfoldable pub allowed_call : ℕ → Float → ToolCall → String → RunState → World → Turned × World
  unfolding terminal action_of captured
  allowed_call step now call capability s w =
      let request_id = v.request_id c.run_id step in
      if leb p.max_tool_calls s.tool_calls
      then fails RunStatus.limit_reached none s w
      else if c.knowledge_tools_blocked
      then fails RunStatus.tool_failure (some "KNOWLEDGE_UNAVAILABLE") s w
      else let (wall, w') = v.wall_clock w in
        captured step now call capability request_id s w'
          (action_of call capability request_id wall)

  unfoldable pub by_registry :
      ℕ → Float → ToolCall → Option String → RunState → World → Turned × World
  unfolding terminal allowed_call
  by_registry step now call none s w =
      fails RunStatus.invalid_model_response
        (some (append "tool " (append (v.repr call.name) " is not registered"))) s w
  by_registry step now call (some capability) s w = allowed_call step now call capability s w

  unfoldable pub by_output : ℕ → Float → ModelOutput → RunState → World → Turned × World
  unfolding terminal by_registry metadata_of lookup
  by_output step now (ModelOutput.text text) s w =
      if ltb p.max_model_text_chars (length (codes text))
      then fails RunStatus.invalid_model_response (some "model text exceeds max_model_text_chars") s
          w
      else let (t, w') = v.clock w in
        let (t', w'') = v.clock w' in
        let answered =
          event RunEventKind.model_response step t
            (Fields.field "kind" (Json.text "text") Fields.end) in
        let completed =
          event RunEventKind.run_completed step t'
            (Fields.field "run_id" (Json.text c.run_id) Fields.end) in
        (
          Turned.ended (record {
            run_id = c.run_id;
            status = RunStatus.completed;
            final_text = some text;
            tool_calls = s.tool_calls;
            model_turns = s.model_turns;
            events = s.events ++ (answered ∷ completed ∷ []);
            metadata = metadata_of c.input none;
          }),
          w'',
        )
  by_output step now ModelOutput.other s w =
      fails RunStatus.invalid_model_response (some "model returned an unsupported output type") s w
  by_output step now (ModelOutput.call call) s w =
      if not (in_list call.name p.permitted_tools)
      then fails RunStatus.invalid_model_response
          (some (append "tool " (append (v.repr call.name) " is not permitted for this agent"))) s w
      else by_registry step now call (lookup call.name v.tools) s w

  -- The model has answered: the run may have been cancelled or have run out meanwhile.
  unfoldable pub after_model :
      ℕ → Float → RunState → Result String ModelOutput × World → Turned × World
  unfolding terminal by_output
  after_model step now s (err reason, w) = fails RunStatus.model_failure (some reason) s w
  after_model step now s (ok output, w) =
      let s' = record s { model_turns = s.model_turns + 1 } in
      let (stop, w1) = v.cancelled w in
      if stop
      then fails RunStatus.cancelled none s' w1
      else let (t, w2) = v.clock w1 in
        if v.reached t c.deadline
        then fails RunStatus.timed_out none s' w2
        else by_output step now output s' w2

  unfoldable pub asked_model :
      ℕ → Float → RunState → World → Result ModelContractError (Unit {0}) → Turned × World
  unfolding terminal after_model
  asked_model step now s w (err e) = fails RunStatus.model_failure (some (v.model_text e)) s w
  asked_model step now s w (ok _) = after_model step now s (v.complete s.messages w)

  unfoldable pub model_turn : ℕ → Float → RunState → World → Turned × World
  unfolding completion_request asked_model
  model_turn step now s w =
      let s' = noted s (
        event RunEventKind.model_turn step now
          (Fields.field "run_id" (Json.text c.run_id) Fields.end)) in
      asked_model step now s' w (completion_request s.messages c.tool_names p.max_output_tokens)

  -- One round of the loop.
  unfoldable pub turn : ℕ → RunState → World → Turned × World
  unfolding terminal model_turn
  turn step s w =
      let (stop, w1) = v.cancelled w in
      if stop
      then fails RunStatus.cancelled none s w1
      else let (now, w2) = v.clock w1 in
        if v.after now c.deadline
        then fails RunStatus.timed_out none s w2
        else if ltb p.max_context_messages (length s.messages)
        then fails RunStatus.limit_reached (some "context message limit reached") s w2
        else model_turn step now s w2
