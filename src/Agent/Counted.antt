-- ===== src/Agent/Counted.antt =====
-- The calls that a whole run makes, of the model and of the runtime, against the profile's limits.
use cbrain.Prelude.{ℕ, ◌+◌, ◌≤◌, String, List, Option, some, Result, ok, err, ◌≡◌, ◌∙◌, arith}
use cbrain.Contracts.{ActionIntent}
use cbrain.Durable.Resume.{RunInput, RunResult}
use cbrain.Models.{Message}
use cbrain.Agent.{AgentProfile, Services, RunError}
use cbrain.Agent.Run.{run_ephemeral}
use cbrain.Agent.Sound.{Tracks, Within, Told}
use cbrain.Agent.Bounded.{Ended, run_ephemeral-Ended}

module _ {World : Type 0} (p : AgentProfile) (v : Services World) where
  -- How often the world says that the model was asked and that an action was executed.
  pub record Counts (asked executions : World → ℕ) : Type 0 where
    pub cancelled :
        (w : World)
        → (asked (v.cancelled w).1 ≡ asked w) × (executions (v.cancelled w).1 ≡ executions w)
    pub clock :
        (w : World) → (asked (v.clock w).1 ≡ asked w) × (executions (v.clock w).1 ≡ executions w)
    pub wall_clock :
        (w : World)
        → (asked (v.wall_clock w).1 ≡ asked w) × (executions (v.wall_clock w).1 ≡ executions w)
    pub complete :
        (ms : List Message) (w : World)
        → (asked (v.complete ms w).1 ≡ asked w + 1)
          × (executions (v.complete ms w).1 ≡ executions w)
    pub execute :
        (action : ActionIntent) (w : World)
        → (asked (v.execute action w).1 ≡ asked w)
          × (executions (v.execute action w).1 ≡ executions w + 1)
    pub retrieve :
        (f : String → String → String → String → World → Option String × World)
        → v.retrieve ≡ some f
        → (tenant collection principal task : String) (w : World)
        → (asked (f tenant collection principal task w).1 ≡ asked w)
          × (executions (f tenant collection principal task w).1 ≡ executions w)

  module _ (asked executions : World → ℕ) where
    -- The calls that a run has made are within the limits, and are what its result reports.
    abbrev pub Limited : World → Result RunError RunResult × World → Type 0
    Limited w (ok r, w') =
        Within p v p.max_model_turns r.model_turns r.tool_calls
        × Told p v r
        × (executions w' ≡ executions w + r.tool_calls)
        × (asked w' ≤ asked w + p.max_model_turns)
    Limited w (err e, w') =
        (executions w' ≤ executions w + p.max_tool_calls) × (asked w' ≤ asked w + p.max_model_turns)

    -- Since a run began, so many calls have been made.
    abbrev Since : World → ℕ → ℕ → World → Type 0
    Since w m n w' = (asked w' ≡ asked w + m) × (executions w' ≡ executions w + n)

    stayed :
        (x y w : World) (m n : ℕ)
        → (asked y ≡ asked x) × (executions y ≡ executions x)
        → Since w m n x
        → Since w m n y
    stayed x y w m n (e, f) (q, r) = (e ∙ q, f ∙ r)

    counted : (w : World) → Counts asked executions → Tracks p v (Since w)
    counted w k = record {
      cancelled = λ x q. stayed x _ w _ _ (k.cancelled x) q;
      clock = λ x q. stayed x _ w _ _ (k.clock x) q;
      wall_clock = λ x q. stayed x _ w _ _ (k.wall_clock x) q;
      complete = λ ms x q. (omega (arith, (k.complete ms x).0, q.0), (k.complete ms x).1 ∙ q.1);
      execute = λ a x permitted q. ((k.execute a x).0 ∙ q.0, omega (arith, (k.execute a x).1, q.1));
      retrieve = λ f e a b c d x q. stayed x _ w _ _ (k.retrieve f e a b c d x) q;
    }

    -- However a run ends, it has asked the model no more often and has executed no more actions than
    -- the profile allows. A run that returns reports as tool calls exactly the actions that it has
    -- executed, at most as many as the model turns, which are within their limit too; it has a final
    -- text exactly if its status is COMPLETED, and then that text is within the profile's limit.
    pub run_ephemeral-Limited :
        (input : RunInput) (w : World)
        → Counts asked executions
        → Limited w (run_ephemeral p v input w)
    run_ephemeral-Limited input w k =
        from (run_ephemeral p v input w)
          (run_ephemeral-Ended p v (Since w) (counted w k) input w (omega arith, omega arith))
      where
        from : (x : Result RunError RunResult × World) → Ended p v (Since w) x → Limited w x
        from (ok r, w') (within, told, m, few, (q, e)) = (within, told, e, omega (arith, q, few))
        from (err _, w') (m, n, few, less, (q, e)) = (omega (arith, e, less), omega (arith, q, few))
