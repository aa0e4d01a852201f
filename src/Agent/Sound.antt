-- ===== src/Agent/Sound.antt =====
-- What one turn of the loop does to the counts of the run, and to the world.
use cbrain.Prelude.{
  ℕ, ◌+◌, ◌≤◌, ◌<◌, String, Option, none, some, Bool, true, false, List, [], ◌∷◌, ◌++◌, Result, ok,
  err, ltb, leb, codes, ◌≡◌, refl, ◌⊎◌, inr, arith, if◌then◌else◌,
}
use mathlib.Core.Path.{subst}
use cbrain.Prelude.Lists.{length}
use cbrain.Prelude.Dict.{lookup}
use cbrain.Json.{Json, Fields}
use cbrain.Contracts.{
  ContractError, ExecutionStatus, GovernedExecution, ActionIntent, Float, action_intent, capture,
  is_executed,
}
use cbrain.Durable.{RunStatus}
use cbrain.Durable.Resume.{RunEventKind, RunResult}
use cbrain.Durable.Ending.{failed_status}
use cbrain.Models.{ModelContractError, Message, ToolCall, as_message, in_list}
use cbrain.Models.History.{validate_history}
use cbrain.Agent.{AgentProfile, Services, RunState, Turned, event, noted, terminal}
use cbrain.Agent.Turn.{
  RunContext, fails, answered, sent, captured, observed, rejected, executed, requested, action_of,
  allowed_call,
}

abbrev pub is_completed : RunStatus → Bool
is_completed RunStatus.completed = true
is_completed _ = false

failed_status-is_completed : (e : ExecutionStatus) → is_completed (failed_status e) ≡ false
unfolding failed_status
failed_status-is_completed ExecutionStatus.blocked = refl
failed_status-is_completed ExecutionStatus.review_required = refl
failed_status-is_completed ExecutionStatus.executed = refl
failed_status-is_completed ExecutionStatus.control_failure = refl
failed_status-is_completed ExecutionStatus.indeterminate = refl

-- What `capture` returns has the fields that it was given.
action_intent-eq : (a a' : ActionIntent) → action_intent a ≡ ok a' → a ≡ a'
unfolding action_intent
action_intent-eq a a' h = ground arith

module _ {World : Type 0} (p : AgentProfile) (v : Services World) where
  -- An action that the profile permits, with the capability that the registry has for its tool.
  pub record Permitted (action : ActionIntent) : Type 0 where
    pub agent : action.agent_id ≡ p.agent_id
    pub listed : in_list action.tool_name p.permitted_tools ≡ true
    pub registered : lookup action.tool_name v.tools ≡ some action.capability

  -- A property of the world that everything but a permitted action keeps, and each of these too.
  pub record Respects (P : World → Type 0) : Type 0 where
    pub cancelled : (w : World) → P w → P (v.cancelled w).1
    pub clock : (w : World) → P w → P (v.clock w).1
    pub wall_clock : (w : World) → P w → P (v.wall_clock w).1
    pub complete : (ms : List Message) (w : World) → P w → P (v.complete ms w).1
    pub execute :
        (action : ActionIntent) (w : World) → Permitted action → P w → P (v.execute action w).1
    pub retrieve :
        (f : String → String → String → String → World → Option String × World)
        → v.retrieve ≡ some f
        → (tenant collection principal task : String) (w : World) → P w
        → P (f tenant collection principal task w).1

  -- A property of the world, and of how often the model was asked and an action was executed, that
  -- everything but a permitted action keeps, and each of these too.
  pub record Tracks (P : ℕ → ℕ → World → Type 0) : Type 0 where
    pub cancelled : {m n : ℕ} (w : World) → P m n w → P m n (v.cancelled w).1
    pub clock : {m n : ℕ} (w : World) → P m n w → P m n (v.clock w).1
    pub wall_clock : {m n : ℕ} (w : World) → P m n w → P m n (v.wall_clock w).1
    pub complete :
        {m n : ℕ} (ms : List Message) (w : World) → P m n w → P (m + 1) n (v.complete ms w).1
    pub execute :
        {m n : ℕ} (action : ActionIntent) (w : World)
        → Permitted action
        → P m n w
        → P m (n + 1) (v.execute action w).1
    pub retrieve :
        {m n : ℕ} (f : String → String → String → String → World → Option String × World)
        → v.retrieve ≡ some f
        → (tenant collection principal task : String) (w : World) → P m n w
        → P m n (f tenant collection principal task w).1

  -- The counts of a run are within the profile's limits; turns are counted up to the given number.
  abbrev pub Within : ℕ → ℕ → ℕ → Type 0
  Within turns model_turns tool_calls =
      (model_turns ≤ turns) × (tool_calls ≤ model_turns) × (tool_calls ≤ p.max_tool_calls)

  -- A run has a final text exactly if it is completed, and it is not too long.
  abbrev pub Told : RunResult → Type 0
  Told r =
      ((r.status ≡ RunStatus.completed)
        × (text : String) × (r.final_text ≡ some text)
        × (length (codes text) ≤ p.max_model_text_chars))
      ⊎ ((is_completed r.status ≡ false) × (r.final_text ≡ none))

  module _ (P : ℕ → ℕ → World → Type 0) (keep : Tracks P) (c : RunContext) (step : ℕ) where
    -- What holds of a turn's end.
    abbrev pub Good : Turned × World → Type 0
    Good (Turned.ended r, w) =
        Within step r.model_turns r.tool_calls × Told r × (m : ℕ) × (m ≤ step) × P m r.tool_calls w
    Good (Turned.continues s, w) =
        (s.model_turns ≡ step)
        × (s.tool_calls ≤ s.model_turns)
        × (s.tool_calls ≤ p.max_tool_calls)
        × P s.model_turns s.tool_calls w
    Good (Turned.escapes e, w) = (m : ℕ) × (n : ℕ) × (m ≤ step) × (n ≤ p.max_tool_calls) × P m n w

    pub Good-if :
        (b : Bool) (x y : Turned × World)
        → (b ≡ true → Good x)
        → (b ≡ false → Good y)
        → Good (if b then x else y)
    Good-if true x y f g = f refl
    Good-if false x y f g = g refl

    -- A run fails after the model was asked once more than its turns say, or as often.
    pub fails_asked-Good :
        (status : RunStatus) (reason : Option String) (s : RunState) (w : World)
        → is_completed status ≡ false
        → Within step s.model_turns s.tool_calls
        → (m : ℕ) → m ≤ step
        → P m s.tool_calls w
        → Good (fails p v c status reason s w)
    unfolding terminal
    fails_asked-Good status reason s w n k m less q = (k, inr (n, refl), m, less, q)

    pub fails-Good :
        (status : RunStatus) (reason : Option String) (s : RunState) (w : World)
        → is_completed status ≡ false
        → Within step s.model_turns s.tool_calls
        → P s.model_turns s.tool_calls w
        → Good (fails p v c status reason s w)
    fails-Good status reason s w n k q = fails_asked-Good status reason s w n k s.model_turns k.0 q

    answered-Good :
        (s : RunState) (w : World) (m : Result ModelContractError Message)
        → s.model_turns ≡ step
        → Within step s.model_turns s.tool_calls
        → P s.model_turns s.tool_calls w
        → Good (answered p v c s w m)
    answered-Good s w (err e) t (a, b, d) q = (s.model_turns, s.tool_calls, a, d, q)
    answered-Good s w (ok m) t (a, b, d) q = (t, b, d, q)

    observed-Good :
        (call : ToolCall) (request_id : String) (s : RunState) (g : GovernedExecution Json)
        (w : World)
        → s.model_turns ≡ step
        → Within step s.model_turns s.tool_calls
        → P s.model_turns s.tool_calls w
        → Good (observed p v c step call request_id s g w)
    unfolding observed
    observed-Good call request_id s g w e k q =
        Good-if (ltb p.max_observation_chars (length (codes (v.observation_text request_id g)))) _ _
          (λ _.
            fails-Good RunStatus.limit_reached
              (some "tool observation exceeds max_observation_chars") s w refl k q)
          (λ _. answered-Good (noted s _) (v.clock w).1 _ e k (keep.clock w q))

    rejected-Good :
        (request_id : String) (s : RunState) (g : GovernedExecution Json) (w : World)
        → Within step s.model_turns s.tool_calls
        → P s.model_turns s.tool_calls w
        → Good (rejected p v c step request_id s g w)
    unfolding rejected terminal
    rejected-Good request_id s g w k q =
        (k, inr (failed_status-is_completed g.status, refl), s.model_turns, k.0, keep.clock w q)

    executed-Good :
        (call : ToolCall) (request_id : String) (s : RunState)
        (x : Result ContractError (GovernedExecution Json) × World)
        → s.model_turns ≡ step
        → s.tool_calls < s.model_turns
        → s.tool_calls < p.max_tool_calls
        → P s.model_turns (s.tool_calls + 1) x.1
        → Good (executed p v c step call request_id s x)
    unfolding executed
    executed-Good call request_id s (err e, w) t less room q =
        (s.model_turns, s.tool_calls + 1, omega (arith, t), omega arith, q)
    executed-Good call request_id s (ok g, w) t less room q =
        let s' = record s { tool_calls = s.tool_calls + 1 } in
        Good-if (is_executed g.status) _ _
          (λ _.
            observed-Good call request_id s' g w t (omega (arith, t), omega arith, omega arith) q)
          (λ _. rejected-Good request_id s' g w (omega (arith, t), omega arith, omega arith) q)

    sent-Good :
        (call : ToolCall) (request_id : String) (action : ActionIntent) (asked : List Message)
        (s : RunState) (w : World) (r : Result ModelContractError (Unit {0}))
        → Permitted action
        → s.model_turns ≡ step
        → s.tool_calls < s.model_turns
        → s.tool_calls < p.max_tool_calls
        → P s.model_turns s.tool_calls w
        → Good (sent p v c step call request_id action asked s w r)
    unfolding sent
    sent-Good call request_id action asked s w (err e) ok_action t less room q =
        fails-Good RunStatus.invalid_model_response (some (v.model_text e)) s w refl
          (omega (arith, t), omega arith, omega arith) q
    sent-Good call request_id action asked s w (ok u) ok_action t less room q =
        executed-Good call request_id (record s { messages = asked }) (v.execute action w) t less
          room (keep.execute action w ok_action q)

    captured-Good :
        (now : Float) (call : ToolCall) (capability request_id : String) (s : RunState) (w : World)
        (r : Result ContractError ActionIntent)
        → ((action : ActionIntent) → r ≡ ok action → Permitted action)
        → s.model_turns ≡ step
        → s.tool_calls < s.model_turns
        → s.tool_calls < p.max_tool_calls
        → P s.model_turns s.tool_calls w
        → Good (captured p v c step now call capability request_id s w r)
    unfolding captured requested
    captured-Good now call capability request_id s w (err e) all t less room q =
        fails-Good RunStatus.invalid_model_response (some (v.contract_text e)) s w refl
          (omega (arith, t), omega arith, omega arith) q
    captured-Good now call capability request_id s w (ok action) all t less room q =
        let detail = Fields.field "capability" (Json.text capability) (
          Fields.field "request_id" (Json.text request_id)
            (Fields.field "tool_name" (Json.text call.name) Fields.end)) in
        let asked = s.messages ++ (as_message call ∷ []) in
        sent-Good call request_id action asked
          (noted s (event RunEventKind.tool_requested step now detail)) w
          (validate_history asked true) (all action refl) t less room q

    action_of-Permitted :
        (call : ToolCall) (capability request_id : String) (wall : Float) (action : ActionIntent)
        → in_list call.name p.permitted_tools ≡ true
        → lookup call.name v.tools ≡ some capability
        → action_of p v c call capability request_id wall ≡ ok action
        → Permitted action
    unfolding action_of capture
    action_of-Permitted call capability request_id wall action l r h =
        let e = action_intent-eq _ action h in
        subst Permitted e (record { agent = refl; listed = l; registered = r })

    pub allowed_call-Good :
        (now : Float) (call : ToolCall) (capability : String) (s : RunState) (w : World)
        → in_list call.name p.permitted_tools ≡ true
        → lookup call.name v.tools ≡ some capability
        → s.model_turns ≡ step
        → s.tool_calls < s.model_turns
        → s.tool_calls ≤ p.max_tool_calls
        → P s.model_turns s.tool_calls w
        → Good (allowed_call p v c step now call capability s w)
    unfolding allowed_call
    allowed_call-Good now call capability s w l r t less room q =
        Good-if (leb p.max_tool_calls s.tool_calls) _ _
          (λ _.
            fails-Good RunStatus.limit_reached none s w refl
              (omega (arith, t), omega arith, omega arith) q)
          (λ free.
            Good-if c.knowledge_tools_blocked _ _
              (λ _.
                fails-Good RunStatus.tool_failure (some "KNOWLEDGE_UNAVAILABLE") s w refl
                  (omega (arith, t), omega arith, omega arith) q)
              (λ _.
                let request_id = v.request_id c.run_id step in
                captured-Good now call capability request_id s (v.wall_clock w).1
                  (action_of p v c call capability request_id (v.wall_clock w).0)
                  (λ action h.
                    action_of-Permitted call capability request_id (v.wall_clock w).0 action l r h)
                  t less (ground arith) (keep.wall_clock w q)))
