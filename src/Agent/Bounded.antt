-- ===== src/Agent/Bounded.antt =====
-- Whole runs: the limits that they keep, what they report, and what they do to the world.
use cbrain.Prelude.{
  ℕ, zero, suc, ◌+◌, ◌≤◌, String, Option, none, some, Bool, true, false, List, [], ◌∷◌, Result, ok,
  err, ltb, codes, is_blank, or_else, ◌≡◌, refl, inr, arith, if◌then◌else◌,
}
use cbrain.Prelude.Lists.{length}
use cbrain.Json.{Json, Fields, get}
use cbrain.Contracts.{Float, or_default}
use cbrain.Durable.Resume.{RunEventKind, RunInput, RunResult}
use cbrain.Models.{ModelContractError, Message}
use cbrain.Agent.{AgentProfile, Services, RunError, RunState, Turned, event, terminal, filled}
use cbrain.Agent.Turn.{RunContext, turn}
use cbrain.Agent.Run.{
  evidence_message, retrieved, by_retrieval, knowledge_context, loop, started_loop,
  with_definitions, with_knowledge, start_messages, with_messages, run_ephemeral, with_evidence,
}
use cbrain.Agent.Sound.{Respects, Tracks, Within, Told, Good}
use cbrain.Agent.Whole.{turn-Good}

module _ {World : Type 0} (p : AgentProfile) (v : Services World) where
  -- What holds of a run's end.
  abbrev pub Ended : (ℕ → ℕ → World → Type 0) → Result RunError RunResult × World → Type 0
  Ended P (ok r, w) =
      Within p v p.max_model_turns r.model_turns r.tool_calls
      × Told p v r
      × (m : ℕ) × (m ≤ p.max_model_turns)
      × P m r.tool_calls w
  Ended P (err e, w) =
      (m : ℕ) × (n : ℕ) × (m ≤ p.max_model_turns) × (n ≤ p.max_tool_calls) × P m n w

  module _ (P : ℕ → ℕ → World → Type 0) (keep : Tracks p v P) where
    loop-Ended :
        (c : RunContext) (rounds step : ℕ) (s : RunState) (w : World)
        → step + rounds ≡ p.max_model_turns + 1
        → s.model_turns + 1 ≡ step
        → s.tool_calls ≤ s.model_turns
        → s.tool_calls ≤ p.max_tool_calls
        → P s.model_turns s.tool_calls w
        → Ended P (loop p v c rounds step s w)
    unfolding loop terminal
    loop-Ended c zero step s w e t less room q =
        ((omega (arith, e, t), less, room), inr (refl, refl), s.model_turns, omega (arith, e, t), q)
    loop-Ended c (suc rounds) step s w e t less room q =
        after (turn p v c step s w).0 (turn p v c step s w).1
          (turn-Good p v P keep c step s w t less room q)
          (λ s' w' t' less' room' q'.
            loop-Ended c rounds (step + 1) s' w' (omega (arith, e)) (omega (arith, t')) less' room'
              q')
      where
        after :
            (x : Turned) (w' : World)
            → Good p v P keep c step (x, w')
            → ((s' : RunState) (w' : World)
                → s'.model_turns ≡ step
                → s'.tool_calls ≤ s'.model_turns
                → s'.tool_calls ≤ p.max_tool_calls
                → P s'.model_turns s'.tool_calls w'
                → Ended P (loop p v c rounds (step + 1) s' w'))
            → Ended P (elim x [
              | Turned.ended r ↦ (ok r, w')
              | Turned.escapes e ↦ (err e, w')
              | Turned.continues s' ↦ loop p v c rounds (step + 1) s' w'
            ])
        after (Turned.ended r) w' ((a, b, d), told, m, few, q') rest =
            ((omega (arith, e), b, d), told, m, omega (arith, e, few), q')
        after (Turned.escapes x) w' (m, n, few, less', q') rest =
            (m, n, omega (arith, e, few), less', q')
        after (Turned.continues s') w' (t', less', room', q') rest = rest s' w' t' less' room' q'

    started_loop-Ended :
        (input : RunInput) (run_id : String) (deadline : Float) (blocked : Bool) (s : RunState)
        (w : World) (d : Result String (List String))
        → s.model_turns ≡ 0
        → s.tool_calls ≡ 0
        → P s.model_turns s.tool_calls w
        → Ended P (started_loop p v input run_id deadline blocked s w d)
    unfolding started_loop terminal
    started_loop-Ended input run_id deadline blocked s w (err reason) t k q = (
      (omega (arith, t), omega (arith, t, k), omega (arith, k)),
      inr (refl, refl),
      s.model_turns,
      omega (arith, t),
      q,
    )
    started_loop-Ended input run_id deadline blocked s w (ok names) t k q =
        let c : RunContext = record {
          input = input;
          run_id = run_id;
          deadline = deadline;
          tool_names = names;
          knowledge_tools_blocked = blocked;
        } in
        loop-Ended c p.max_model_turns 1 s w (omega arith) (omega (arith, t)) (omega (arith, t, k))
          (omega (arith, k)) q

    with_knowledge-Ended :
        (input : RunInput) (run_id : String) (started deadline : Float) (messages : List Message)
        (x : Result ModelContractError (Option Message × Bool) × World)
        → P 0 0 x.1
        → Ended P (with_knowledge p v input run_id started deadline messages x)
    unfolding with_knowledge with_definitions
    with_knowledge-Ended input run_id started deadline messages (err e, w) q =
        (0, 0, omega arith, omega arith, q)
    with_knowledge-Ended input run_id started deadline messages (ok (evidence, blocked), w) q =
        let s : RunState = record {
          messages = with_evidence messages evidence;
          events =
              event RunEventKind.run_started 0 started
                (Fields.field "run_id" (Json.text run_id) Fields.end)
              ∷ [];
          tool_calls = 0;
          model_turns = 0;
        } in
        started_loop-Ended input run_id deadline blocked s w v.definitions refl refl q

    evidence-kept : (x : Option String × World) → P 0 0 x.1 → P 0 0 (evidence_message p v x).1
    unfolding evidence_message
    evidence-kept (none, w) q = q
    evidence-kept (some quoted, w) q = q

    retrieved-kept :
        (f : String → String → String → String → World → Option String × World)
        → v.retrieve ≡ some f
        → (tenant collection principal : Option String) (task : String) (w : World) → P 0 0 w
        → P 0 0 (retrieved p v f tenant collection principal task w).1
    unfolding retrieved
    retrieved-kept f e none collection principal task w q = q
    retrieved-kept f e (some tenant) none principal task w q = q
    retrieved-kept f e (some tenant) (some collection) none task w q = q
    retrieved-kept f e (some tenant) (some collection) (some principal) task w q =
        evidence-kept (f tenant collection principal task w)
          (keep.retrieve f e tenant collection principal task w q)

    by_retrieval-kept :
        (input : RunInput) (w : World)
        (o : Option (String → String → String → String → World → Option String × World))
        → v.retrieve ≡ o
        → P 0 0 w
        → P 0 0 (by_retrieval p v input w o).1
    unfolding by_retrieval
    by_retrieval-kept input w none e q = q
    by_retrieval-kept input w (some f) e q =
        let metadata = or_else input.metadata Fields.end in
        retrieved-kept f e (filled (get "tenant_id" metadata))
          (filled (get "collection_id" metadata)) (filled (get "principal_id" metadata)) input.task
          w q

    with_messages-Ended :
        (input : RunInput) (run_id : String) (started : Float)
        (ms : Result ModelContractError (List Message)) (w : World)
        → P 0 0 w
        → Ended P (with_messages p v input run_id started ms w)
    unfolding with_messages knowledge_context
    with_messages-Ended input run_id started (err e) w q = (0, 0, omega arith, omega arith, q)
    with_messages-Ended input run_id started (ok ms) w q =
        with_knowledge-Ended input run_id started (v.plus started p.timeout_seconds) ms
          (by_retrieval p v input w v.retrieve) (by_retrieval-kept input w v.retrieve refl q)

    Ended-if :
        (b : Bool) (x y : Result RunError RunResult × World)
        → Ended P x
        → Ended P y
        → Ended P (if b then x else y)
    Ended-if true x y f g = f
    Ended-if false x y f g = g

    pub run_ephemeral-Ended :
        (input : RunInput) (w : World) → P 0 0 w → Ended P (run_ephemeral p v input w)
    unfolding run_ephemeral terminal
    run_ephemeral-Ended input w q =
        Ended-if (is_blank input.task) _ _ (0, 0, omega arith, omega arith, q)
          (Ended-if (ltb p.max_task_chars (length (codes input.task))) _ _
            ((omega arith, omega arith, omega arith), inr (refl, refl), 0, omega arith, q)
            (with_messages-Ended input (or_default input.run_id v.fresh_id) (v.clock w).0
              (start_messages p v input) (v.clock w).1 (keep.clock w q)))

  tracked : (P : World → Type 0) → Respects p v P → Tracks p v (λ m n w. P w)
  tracked P keep = record {
    cancelled = λ w q. keep.cancelled w q;
    clock = λ w q. keep.clock w q;
    wall_clock = λ w q. keep.wall_clock w q;
    complete = λ ms w q. keep.complete ms w q;
    execute = λ a w permitted q. keep.execute a w permitted q;
    retrieve = λ f e a b c d w q. keep.retrieve f e a b c d w q;
  }

  -- Whatever the model answers, a run acts on the world by actions of this agent only that are calls
  -- of permitted tools with the capability that the registry has for them: a property of the world
  -- that each such action and all the other calls keep holds after the run, however it ends.
  pub run_ephemeral-Respects :
      (P : World → Type 0) (input : RunInput) (w : World)
      → Respects p v P
      → P w
      → P (run_ephemeral p v input w).1
  run_ephemeral-Respects P input w keep q =
      from (run_ephemeral p v input w)
        (run_ephemeral-Ended (λ m n w. P w) (tracked P keep) input w q)
    where
      from : (x : Result RunError RunResult × World) → Ended (λ m n w. P w) x → P x.1
      from (ok r, w') (_, _, _, _, q') = q'
      from (err e, w') (_, _, _, _, q') = q'
