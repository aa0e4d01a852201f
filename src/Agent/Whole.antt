-- ===== src/Agent/Whole.antt =====
-- One whole turn, from the model's answer back to the loop.
use cbrain.Prelude.{
  ℕ, ◌+◌, ◌≤◌, ◌<◌, String, Option, none, some, true, not, Result, ok, err, ltb, codes, ◌≡◌, refl,
  inl, arith,
}
use Prim.Native.String.{◌++◌ as append}
use cbrain.Prelude.Lists.{length}
use cbrain.Prelude.Dict.{lookup}
use cbrain.Json.{Json, Fields}
use cbrain.Contracts.{Float}
use cbrain.Durable.{RunStatus}
use cbrain.Durable.Resume.{RunEventKind}
use cbrain.Models.{ModelContractError, ToolCall, ModelOutput, in_list}
use cbrain.Models.History.{completion_request}
use cbrain.Agent.{AgentProfile, Services, RunState, event, noted}
use cbrain.Agent.Turn.{
  RunContext, asked_model, by_registry, by_output, after_model, model_turn, turn,
}
use cbrain.Agent.Sound.{Tracks, Good, Good-if, fails-Good, fails_asked-Good, allowed_call-Good}

module _ {World : Type 0} (p : AgentProfile) (v : Services World) (P : ℕ → ℕ → World → Type 0)
    (keep : Tracks p v P) (c : RunContext) (step : ℕ) where
  by_registry-Good :
      (now : Float) (call : ToolCall) (o : Option String) (s : RunState) (w : World)
      → lookup call.name v.tools ≡ o
      → in_list call.name p.permitted_tools ≡ true
      → s.model_turns ≡ step
      → s.tool_calls < s.model_turns
      → s.tool_calls ≤ p.max_tool_calls
      → P s.model_turns s.tool_calls w
      → Good p v P keep c step (by_registry p v c step now call o s w)
  unfolding by_registry
  by_registry-Good now call none s w e l t less room q =
      fails-Good p v P keep c step RunStatus.invalid_model_response
        (some (append "tool " (append (v.repr call.name) " is not registered"))) s w refl
        (omega (arith, t), omega arith, room) q
  by_registry-Good now call (some capability) s w e l t less room q =
      allowed_call-Good p v P keep c step now call capability s w l e t less room q

  by_output-Good :
      (now : Float) (o : ModelOutput) (s : RunState) (w : World)
      → s.model_turns ≡ step
      → s.tool_calls < s.model_turns
      → s.tool_calls ≤ p.max_tool_calls
      → P s.model_turns s.tool_calls w
      → Good p v P keep c step (by_output p v c step now o s w)
  unfolding by_output
  by_output-Good now (ModelOutput.text text) s w t less room q =
      Good-if p v P keep c step (ltb p.max_model_text_chars (length (codes text))) _ _
        (λ _.
          fails-Good p v P keep c step RunStatus.invalid_model_response
            (some "model text exceeds max_model_text_chars") s w refl
            (omega (arith, t), omega arith, room) q)
        (λ short. (
          (omega (arith, t), omega arith, room),
          inl (refl, text, refl, ground arith),
          s.model_turns,
          omega (arith, t),
          keep.clock (v.clock w).1 (keep.clock w q),
        ))
  by_output-Good now ModelOutput.other s w t less room q =
      fails-Good p v P keep c step RunStatus.invalid_model_response
        (some "model returned an unsupported output type") s w refl
        (omega (arith, t), omega arith, room) q
  by_output-Good now (ModelOutput.call call) s w t less room q =
      Good-if p v P keep c step (not (in_list call.name p.permitted_tools)) _ _
        (λ _.
          fails-Good p v P keep c step RunStatus.invalid_model_response
            (some (append "tool " (append (v.repr call.name) " is not permitted for this agent"))) s
            w refl (omega (arith, t), omega arith, room) q)
        (λ l.
          by_registry-Good now call (lookup call.name v.tools) s w refl (ground arith) t less room
            q)

  -- A model's answer is counted as a turn.
  after_model-Good :
      (now : Float) (s : RunState) (x : Result String ModelOutput × World)
      → s.model_turns + 1 ≡ step
      → s.tool_calls ≤ s.model_turns
      → s.tool_calls ≤ p.max_tool_calls
      → P (s.model_turns + 1) s.tool_calls x.1
      → Good p v P keep c step (after_model p v c step now s x)
  unfolding after_model
  after_model-Good now s (err reason, w) t less room q =
      fails_asked-Good p v P keep c step RunStatus.model_failure (some reason) s w refl
        (omega (arith, t), less, room) (s.model_turns + 1) (omega (arith, t)) q
  after_model-Good now s (ok output, w) t less room q =
      let s' = record s { model_turns = s.model_turns + 1 } in
      let w1 = (v.cancelled w).1 in
      let w2 = (v.clock w1).1 in
      let q1 = keep.cancelled w q in
      let q2 = keep.clock w1 q1 in
      Good-if p v P keep c step (v.cancelled w).0 _ _
        (λ _.
          fails-Good p v P keep c step RunStatus.cancelled none s' w1 refl
            (omega (arith, t), omega arith, room) q1)
        (λ _.
          Good-if p v P keep c step (v.reached (v.clock w1).0 c.deadline) _ _
            (λ _.
              fails-Good p v P keep c step RunStatus.timed_out none s' w2 refl
                (omega (arith, t), omega arith, room) q2)
            (λ _. by_output-Good now output s' w2 t (omega arith) room q2))

  asked_model-Good :
      (now : Float) (s : RunState) (w : World) (r : Result ModelContractError (Unit {0}))
      → s.model_turns + 1 ≡ step
      → s.tool_calls ≤ s.model_turns
      → s.tool_calls ≤ p.max_tool_calls
      → P s.model_turns s.tool_calls w
      → Good p v P keep c step (asked_model p v c step now s w r)
  unfolding asked_model
  asked_model-Good now s w (err e) t less room q =
      fails-Good p v P keep c step RunStatus.model_failure (some (v.model_text e)) s w refl
        (omega (arith, t), less, room) q
  asked_model-Good now s w (ok u) t less room q =
      after_model-Good now s (v.complete s.messages w) t less room (keep.complete s.messages w q)

  -- One round of the loop: what it ends with, or what it goes on with, is within the limits.
  pub turn-Good :
      (s : RunState) (w : World)
      → s.model_turns + 1 ≡ step
      → s.tool_calls ≤ s.model_turns
      → s.tool_calls ≤ p.max_tool_calls
      → P s.model_turns s.tool_calls w
      → Good p v P keep c step (turn p v c step s w)
  unfolding turn model_turn
  turn-Good s w t less room q =
      let w1 = (v.cancelled w).1 in
      let now = (v.clock w1).0 in
      let w2 = (v.clock w1).1 in
      let q1 = keep.cancelled w q in
      let q2 = keep.clock w1 q1 in
      let count : (s.model_turns ≤ step)
          × (s.tool_calls ≤ s.model_turns)
          × (s.tool_calls ≤ p.max_tool_calls) =
        (omega (arith, t), less, room) in
      Good-if p v P keep c step (v.cancelled w).0 _ _
        (λ _. fails-Good p v P keep c step RunStatus.cancelled none s w1 refl count q1)
        (λ _.
          Good-if p v P keep c step (v.after now c.deadline) _ _
            (λ _. fails-Good p v P keep c step RunStatus.timed_out none s w2 refl count q2)
            (λ _.
              Good-if p v P keep c step (ltb p.max_context_messages (length s.messages)) _ _
                (λ _.
                  fails-Good p v P keep c step RunStatus.limit_reached
                    (some "context message limit reached") s w2 refl count q2)
                (λ _.
                  let started =
                    event RunEventKind.model_turn step now
                      (Fields.field "run_id" (Json.text c.run_id) Fields.end) in
                  asked_model-Good now (noted s started) w2
                    (completion_request s.messages c.tool_names p.max_output_tokens) t less room
                    q2)))
