-- ===== src/Tests/Agents.antt =====
-- A run that refunds an order and then answers. The world counts the model's turns and keeps the
-- names of the tools that were run.
use cbrain.Prelude.{
  arith, ℕ, zero, suc, String, none, some, true, false, List, [], ◌∷◌, Result, ok, err, ◌≡◌, ◌↔◌,
  refl, is_blank,
}
use cbrain.Prelude.Lists.{All, length}
use cbrain.Prelude.Dict.{lookup}
use cbrain.Json.{Fields}
use cbrain.Contracts.{
  ContractError, ExecutionStatus, GovernedExecution, ActionIntent, Float, capture, action_intent,
}
use cbrain.Contracts as Contracts
use cbrain.Durable.{RunStatus}
use cbrain.Durable.Resume.{RunInput, RunResult}
use cbrain.Models.{
  MessageRole, Message, ToolCall, ModelOutput, as_message, in_list, message, required_text,
  tool_name, checked_content, is_tool_name, all_name_chars, is_name_char,
}
use cbrain.Models.History.{
  Paired, history, validate_history, validate_history-ok_iff, completion_request,
}
use cbrain.Agent.{AgentProfile, Services, RunError, terminal}
use cbrain.Agent.Turn.{
  observed, executed, sent, requested, action_of, captured, allowed_call, by_registry, by_output,
  after_model, asked_model, model_turn, turn,
}
use cbrain.Agent.Run.{
  plain, by_retrieval, knowledge_context, loop, started_loop, with_definitions, with_knowledge,
  start_messages, with_messages, run_ephemeral,
}
use cbrain.Agent.Sound.{Respects}
use cbrain.Agent.Bounded.{run_ephemeral-Respects}
use cbrain.Agent.Counted.{Counts, Limited, run_ephemeral-Limited}

abbrev World : Type 0
World = ℕ × List String

abbrev refund_call : ToolCall
refund_call = record { call_id = "call-1"; name = "refund"; arguments = Fields.end }

abbrev profile : AgentProfile
profile = record {
  agent_id = "agent-1";
  instructions = "Help.";
  permitted_tools = "refund" ∷ [];
  max_model_turns = 3;
  max_tool_calls = 1;
  timeout_seconds = Float.finite "60.0";
  knowledge_required_for_tools = false;
  max_task_chars = 100;
  max_model_text_chars = 100;
  max_observation_chars = 100;
  max_context_messages = 8;
  max_output_tokens = 64;
}

abbrev scripted : ℕ → ModelOutput
scripted zero = ModelOutput.call refund_call
scripted (suc _) = ModelOutput.text "refunded"

abbrev services : Services World
services = record {
  tools = ("refund", "payments.refund") ∷ [];
  definitions = ok ("refund" ∷ []);
  cancelled = λ w. (false, w);
  clock = λ w. (Float.finite "0.0", w);
  wall_clock = λ w. (Float.finite "1700000000.0", w);
  complete = λ ms w. (ok (scripted w.0), (suc w.0, w.1));
  execute = λ a w. (
    ok (record {
      status = ExecutionStatus.executed;
      request_id = a.request_id;
      tool_executed = some true;
      reason = "execution_closed";
      decision_id = none;
      output = none;
      retryable = false;
    }),
    (w.0, a.tool_name ∷ w.1),
  );
  retrieve = none;
  request_id = λ run_id step. "req-1";
  fresh_id = "run-1";
  after = λ a b. false;
  reached = λ a b. false;
  plus = λ a b. a;
  repr = λ s. s;
  observation_text = λ id g. "{}";
  model_text = λ e. "model";
  contract_text = λ e. "contract";
}

abbrev task : RunInput
task = record { task = "Refund order 7."; run_id = none; metadata = none }

abbrev result_of : Result RunError RunResult → RunResult
result_of (ok r) = r
result_of (err e) = record {
  run_id = "";
  status = RunStatus.cancelled;
  final_text = none;
  tool_calls = 0;
  model_turns = 0;
  events = [];
  metadata = Fields.end;
}

returned :
    (run_ephemeral profile services task (0, [])).0
    ≡ ok (result_of (run_ephemeral profile services task (0, [])).0)
unfolding run_ephemeral with_messages start_messages message required_text tool_name checked_content
    with_knowledge knowledge_context by_retrieval with_definitions started_loop loop turn model_turn
    completion_request validate_history history asked_model after_model by_output by_registry
    allowed_call action_of capture action_intent captured requested sent executed observed terminal
    lookup is_blank is_tool_name all_name_chars is_name_char Contracts.required_text
returned = refl

completed : (result_of (run_ephemeral profile services task (0, [])).0).final_text ≡ some "refunded"
unfolding run_ephemeral with_messages start_messages message required_text tool_name checked_content
    with_knowledge knowledge_context by_retrieval with_definitions started_loop loop turn model_turn
    completion_request validate_history history asked_model after_model by_output by_registry
    allowed_call action_of capture action_intent captured requested sent executed observed terminal
    lookup is_blank is_tool_name all_name_chars is_name_char Contracts.required_text
completed = refl

services-Counts : Counts profile services (λ w. w.0) (λ w. length w.1)
services-Counts = record {
  cancelled = λ w. (refl, refl);
  clock = λ w. (refl, refl);
  wall_clock = λ w. (refl, refl);
  complete = λ ms w. (omega arith, refl);
  execute = λ a w. (refl, omega arith);
  retrieve = λ f e a b c d w. absurd (cc);
}

run_ephemeral-Limited_example :
    Limited profile services
      (λ w. w.0)
      (λ w. length w.1)
      (0, [])
      (run_ephemeral profile services task (0, []))
run_ephemeral-Limited_example =
    run_ephemeral-Limited profile services (λ w. w.0) (λ w. length w.1) task (0, []) services-Counts

abbrev AllListed : World → Type 0
AllListed w = All (λ n. in_list n ("refund" ∷ []) ≡ true) w.1

listed_kept : Respects profile services AllListed
listed_kept = record {
  cancelled = λ w q. q;
  clock = λ w q. q;
  wall_clock = λ w q. q;
  complete = λ ms w q. q;
  execute = λ a w permitted q. (permitted.listed, q);
  retrieve = λ f e a b c d w q. absurd (cc);
}

run_ephemeral-Respects_example : AllListed (run_ephemeral profile services task (0, [])).1
run_ephemeral-Respects_example =
    run_ephemeral-Respects profile services AllListed task (0, []) listed_kept tt

abbrev a_history : List Message
a_history = plain MessageRole.user "Refund order 7." ∷ as_message refund_call ∷ []

validate_history-ok_iff_example :
    (validate_history a_history true ≡ ok tt) ↔ Paired true [] a_history
validate_history-ok_iff_example = validate_history-ok_iff a_history true
