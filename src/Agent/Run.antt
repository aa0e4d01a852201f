-- ===== src/Agent/Run.antt =====
-- cbrain/agent/foundation.py: `_run_ephemeral`, with `_knowledge_context`.
use cbrain.Prelude.{
  ℕ, zero, suc, ◌+◌, String, Option, none, some, Bool, false, List, [], ◌∷◌, ◌++◌, Result, ok, err,
  ◌>>=◌, ltb, codes, is_blank, or_else, if◌then◌else◌,
}
use cbrain.Prelude.Lists.{length}
use cbrain.Json.{Json, Fields, get}
use cbrain.Contracts.{Float, or_default}
use cbrain.Durable.{RunStatus}
use cbrain.Durable.Resume.{RunEventKind, RunInput, RunResult}
use cbrain.Models.{ModelContractError, MessageRole, Message, message}
use cbrain.Agent.{AgentProfile, Services, RunError, RunState, Turned, event, terminal, filled}
use cbrain.Agent.Turn.{RunContext, turn}

abbrev pub plain : MessageRole → String → Message
plain role content = record {
  role = role;
  content = content;
  tool_call_id = none;
  tool_name = none;
  tool_call = none;
}

-- `list.append` of a message that may be missing.
abbrev pub with_evidence : List Message → Option Message → List Message
with_evidence ms none = ms
with_evidence ms (some m) = ms ++ (m ∷ [])

module _ {World : Type 0} (p : AgentProfile) (v : Services World) where
  -- The evidence as a message, and whether the tools are blocked.
  unfoldable pub evidence_message :
      Option String × World → Result ModelContractError (Option Message × Bool) × World
  unfolding message
  evidence_message (none, w) = (ok (none, p.knowledge_required_for_tools), w)
  evidence_message (some quoted, w) =
      (message (plain MessageRole.user quoted) >>= λ m. ok (some m, false), w)

  unfoldable pub retrieved :
      (String → String → String → String → World → Option String × World)
      → Option String
      → Option String
      → Option String
      → String
      → World
      → Result ModelContractError (Option Message × Bool) × World
  unfolding evidence_message
  retrieved retrieve (some tenant) (some collection) (some principal) task w =
      evidence_message (retrieve tenant collection principal task w)
  retrieved retrieve _ _ _ task w = (ok (none, p.knowledge_required_for_tools), w)

  unfoldable pub by_retrieval :
      RunInput
      → World
      → Option (String → String → String → String → World → Option String × World)
      → Result ModelContractError (Option Message × Bool) × World
  unfolding retrieved get
  by_retrieval input w none = (ok (none, p.knowledge_required_for_tools), w)
  by_retrieval input w (some retrieve) =
      let metadata = or_else input.metadata Fields.end in
      retrieved retrieve (filled (get "tenant_id" metadata)) (filled (get "collection_id" metadata))
        (filled (get "principal_id" metadata)) input.task w

  -- `_knowledge_context`
  unfoldable pub knowledge_context :
      RunInput → World → Result ModelContractError (Option Message × Bool) × World
  unfolding by_retrieval
  knowledge_context input w = by_retrieval input w v.retrieve

  -- `for step in range(1, max_model_turns + 1)` with the rounds that are left, and what follows it.
  unfoldable pub loop : RunContext → ℕ → ℕ → RunState → World → Result RunError RunResult × World
  unfolding turn terminal
  loop c zero step s w = (ok (terminal c.input c.run_id RunStatus.limit_reached none s), w)
  loop c (suc rounds) step s w =
      let (x, w') = turn p v c step s w in
      elim x [
        | Turned.ended r ↦ (ok r, w')
        | Turned.escapes e ↦ (err e, w')
        | Turned.continues s' ↦ loop c rounds (step + 1) s' w'
      ]

  unfoldable pub started_loop :
      RunInput
      → String
      → Float
      → Bool
      → RunState
      → World
      → Result String (List String)
      → Result RunError RunResult × World
  unfolding loop terminal
  started_loop input run_id deadline blocked s w (err reason) =
      (ok (terminal input run_id RunStatus.model_failure (some reason) s), w)
  started_loop input run_id deadline blocked s w (ok names) =
      let c : RunContext = record {
        input = input;
        run_id = run_id;
        deadline = deadline;
        tool_names = names;
        knowledge_tools_blocked = blocked;
      } in
      loop c p.max_model_turns 1 s w

  unfoldable pub with_definitions :
      RunInput
      → String
      → Float
      → Float
      → List Message
      → Bool
      → World
      → Result String (List String)
      → Result RunError RunResult × World
  unfolding started_loop
  with_definitions input run_id started deadline messages blocked w defs =
      let s : RunState = record {
        messages = messages;
        events =
            event RunEventKind.run_started 0 started
              (Fields.field "run_id" (Json.text run_id) Fields.end)
            ∷ [];
        tool_calls = 0;
        model_turns = 0;
      } in
      started_loop input run_id deadline blocked s w defs

  unfoldable pub with_knowledge :
      RunInput
      → String
      → Float
      → Float
      → List Message
      → Result ModelContractError (Option Message × Bool) × World
      → Result RunError RunResult × World
  unfolding with_definitions
  with_knowledge input run_id started deadline messages (err e, w) =
      (err (RunError.model_error e), w)
  with_knowledge input run_id started deadline messages (ok (evidence, blocked), w) =
      with_definitions input run_id started deadline (with_evidence messages evidence) blocked w
        v.definitions

  unfoldable pub start_messages : RunInput → Result ModelContractError (List Message)
  unfolding message
  start_messages input = do
    system ← message (plain MessageRole.system p.instructions)
    user ← message (plain MessageRole.user input.task)
    ok (system ∷ user ∷ [])

  unfoldable pub with_messages :
      RunInput
      → String
      → Float
      → Result ModelContractError (List Message)
      → World
      → Result RunError RunResult × World
  unfolding with_knowledge knowledge_context
  with_messages input run_id started (err e) w = (err (RunError.model_error e), w)
  with_messages input run_id started (ok messages) w =
      with_knowledge input run_id started (v.plus started p.timeout_seconds) messages
        (knowledge_context input w)

  -- `_run_ephemeral`
  unfoldable pub run_ephemeral : RunInput → World → Result RunError RunResult × World
  unfolding with_messages start_messages terminal
  run_ephemeral input w =
      let run_id = or_default input.run_id v.fresh_id in
      if is_blank input.task
      then (err RunError.empty_task, w)
      else if ltb p.max_task_chars (length (codes input.task))
      then (
        ok (
            terminal input run_id RunStatus.invalid_model_response
              (some "task exceeds max_task_chars")
              (record { messages = []; events = []; tool_calls = 0; model_turns = 0 })),
        w,
      )
      else let (started, w') = v.clock w in
        with_messages input run_id started (start_messages input) w'
