-- ===== src/Durable/Dispatch/Once.antt =====
-- A prepared tool call is executed by one worker.
use cbrain.Prelude.{
  ℕ, ◌+◌, String, Option, none, some, List, Result, ok, err, ◌≡◌, ◌≢◌, refl, arith, if◌then◌else◌,
  ltb, codes, Bool, true, false,
}
use cbrain.Prelude.Lists.{length}
use mathlib.Core.Path.{subst}
use cbrain.Json.{Json, Fields}
use cbrain.Contracts.{ContractError, ExecutionStatus, GovernedExecution}
use cbrain.Durable.{RunStoreError, RunStatus, StoredRunRecord}
use cbrain.Durable.Store.{Records, Operation, save, claim_tool_dispatch, apply, apply_all}
use cbrain.Durable.Claims.{IsPast, apply-IsPast, apply_all-IsPast, claim-wins, claim-past}
use cbrain.Durable.Resume.{DurableRunContext}
use cbrain.Durable.Ending.{Loop, ToolResult, LoopError, reported, terminal_record, persist_terminal}
use cbrain.Durable.Dispatch.{
  completed_record, observe, reject, by_status, follow_save, complete, follow_execution,
  follow_claim, dispatch_prepared,
}

-- The records after a save.
abbrev after_save : Records → Result RunStoreError (StoredRunRecord × Records) → Records
after_save s (err _) = s
after_save s (ok (_, s')) = s'

apply-saves :
    (s : Records) (r : StoredRunRecord) (v : ℕ)
    → apply s (Operation.saves r v) ≡ after_save s (save s r v)
unfolding apply
apply-saves s r v = go (save s r v) refl
  where
    go :
        (x : Result RunStoreError (StoredRunRecord × Records))
        → save s r v ≡ x
        → apply s (Operation.saves r v) ≡ after_save s x
    go (err e) h = ground arith
    go (ok (r', s')) h = ground arith

save-IsPast :
    (run_id : String) (n : ℕ) (s : Records) (r : StoredRunRecord) (v : ℕ)
    → IsPast run_id n s
    → IsPast run_id n (after_save s (save s r v))
save-IsPast run_id n s r v h =
    subst (IsPast run_id n) (apply-saves s r v) (apply-IsPast run_id n s (Operation.saves r v) h)

module _ {Message : Type 0} (loop : Loop Message) (run_id : String) (n : ℕ) where
  reported-IsPast :
      (s : Records) (x : Result RunStoreError (StoredRunRecord × Records))
      → IsPast run_id n (after_save s x)
      → IsPast run_id n (reported loop s x).1
  unfolding reported
  reported-IsPast s (err e) h = h
  reported-IsPast s (ok (r, s')) h = h

  persist_terminal-IsPast :
      (s : Records) (ctx : DurableRunContext Message) (status : RunStatus) (text : Option String)
      (metadata : Option Fields)
      → IsPast run_id n s
      → IsPast run_id n (persist_terminal loop s ctx status text metadata).1
  unfolding persist_terminal
  persist_terminal-IsPast s ctx status text metadata h =
      let r = terminal_record loop ctx status text metadata in
      reported-IsPast s (save s r ctx.stored.version)
        (save-IsPast run_id n s r ctx.stored.version h)

  observe-IsPast :
      (s : Records) (ctx : DurableRunContext Message) (step : ℕ) (request_id : String)
      (g : GovernedExecution Json)
      → IsPast run_id n s
      → IsPast run_id n (observe loop s ctx step request_id g).1
  unfolding observe
  observe-IsPast s ctx step request_id g h =
      ends_well (ltb loop.max_observation_chars (length (codes (loop.observation_text g)))) _ _
        (persist_terminal-IsPast s ctx _ _ _ h) h
    where
      ends_well :
          (long : Bool) (x y : Result LoopError (ToolResult Message) × Records)
          → IsPast run_id n x.1
          → IsPast run_id n y.1
          → IsPast run_id n (if long then x else y).1
      ends_well true x y hx hy = hx
      ends_well false x y hx hy = hy

  by_status-IsPast :
      (s : Records) (ctx : DurableRunContext Message) (step : ℕ) (request_id : String)
      (g : GovernedExecution Json) (status : ExecutionStatus)
      → IsPast run_id n s
      → IsPast run_id n (by_status loop s ctx step request_id g status).1
  unfolding by_status reject
  by_status-IsPast s ctx step request_id g ExecutionStatus.executed h =
      observe-IsPast s ctx step request_id g h
  by_status-IsPast s ctx step request_id g ExecutionStatus.blocked h =
      persist_terminal-IsPast s _ _ _ _ h
  by_status-IsPast s ctx step request_id g ExecutionStatus.review_required h =
      persist_terminal-IsPast s _ _ _ _ h
  by_status-IsPast s ctx step request_id g ExecutionStatus.control_failure h =
      persist_terminal-IsPast s _ _ _ _ h
  by_status-IsPast s ctx step request_id g ExecutionStatus.indeterminate h =
      persist_terminal-IsPast s _ _ _ _ h

  follow_save-IsPast :
      (s : Records) (ctx : DurableRunContext Message) (step : ℕ) (request_id : String)
      (g : GovernedExecution Json) (x : Result RunStoreError (StoredRunRecord × Records))
      → IsPast run_id n (after_save s x)
      → IsPast run_id n (follow_save loop s ctx step request_id g x).1
  unfolding follow_save
  follow_save-IsPast s ctx step request_id g (err e) h = h
  follow_save-IsPast s ctx step request_id g (ok (r, s')) h =
      by_status-IsPast s' _ step request_id g g.status h

  follow_execution-IsPast :
      {World : Type 0} (s : Records) (ctx : DurableRunContext Message) (step : ℕ)
      (request_id : String) (x : Result ContractError (GovernedExecution Json) × World)
      → IsPast run_id n s
      → IsPast run_id n (follow_execution loop s ctx step request_id x).1
  unfolding follow_execution complete
  follow_execution-IsPast s ctx step request_id (err e, w) h = h
  follow_execution-IsPast s ctx step request_id (ok g, w) h =
      let r = completed_record loop ctx step g in
      follow_save-IsPast s ctx step request_id g (save s r ctx.stored.version)
        (save-IsPast run_id n s r ctx.stored.version h)

module _ {Message World : Type 0} (loop : Loop Message)
    (runtime : World → Result ContractError (GovernedExecution Json) × World) where
  -- A worker whose dispatch moved the world had the claim, and leaves the run past its version.
  moved-IsPast :
      (s : Records) (ctx : DurableRunContext Message) (step : ℕ) (request_id : String) (w : World)
      (x : Result RunStoreError (Option StoredRunRecord × Records))
      → claim_tool_dispatch s ctx.run_id ctx.stored.version ≡ x
      → (follow_claim loop runtime s ctx step request_id x w).2 ≢ w
      → IsPast ctx.run_id
          (ctx.stored.version + 1)
          (follow_claim loop runtime s ctx step request_id x w).1
  unfolding follow_claim
  moved-IsPast s ctx step request_id w (err e) h moved = absurd (moved refl)
  moved-IsPast s ctx step request_id w (ok (none, s')) h moved = absurd (moved refl)
  moved-IsPast s ctx step request_id w (ok (some r, s')) h moved =
      follow_execution-IsPast loop ctx.run_id (ctx.stored.version + 1) s' _ step request_id
        (runtime w) (claim-wins s s' ctx.run_id ctx.stored.version r h)

  -- A worker that comes too late does not execute.
  late-unmoved :
      (s : Records) (ctx : DurableRunContext Message) (step : ℕ) (request_id : String) (w : World)
      → IsPast ctx.run_id (ctx.stored.version + 1) s
      → (dispatch_prepared loop runtime s ctx step request_id w).2 ≡ w
  unfolding dispatch_prepared follow_claim
  late-unmoved s ctx step request_id w past =
      rw (claim-past s ctx.run_id ctx.stored.version past) refl

-- If a worker's dispatch of a prepared tool call changed the world, then after any operations of any
-- workers no worker's dispatch of this run at the same version changes the world again, whatever
-- loop, runtime, step and request id that worker has.
pub dispatch_prepared_once :
    {Message World : Type 0} (loop loop' : Loop Message)
    (runtime runtime' : World → Result ContractError (GovernedExecution Json) × World) (s : Records)
    (ctx ctx' : DurableRunContext Message) (step step' : ℕ) (request_id request_id' : String)
    (w w' : World) (ops : List Operation)
    → ctx'.run_id ≡ ctx.run_id
    → ctx'.stored.version ≡ ctx.stored.version
    → (dispatch_prepared loop runtime s ctx step request_id w).2 ≢ w
    → (dispatch_prepared loop' runtime'
        (apply_all (dispatch_prepared loop runtime s ctx step request_id w).1 ops)
        ctx'
        step'
        request_id'
        w').2
      ≡ w'
unfolding dispatch_prepared
dispatch_prepared_once loop loop' runtime runtime' s ctx ctx' step step' request_id request_id' w w'
      ops same_run same_version moved =
    let past = moved-IsPast loop runtime s ctx step request_id w _ refl moved in
    let later = apply_all-IsPast ctx.run_id (ctx.stored.version + 1) _ ops past in
    late-unmoved loop' runtime' _ ctx' step' request_id' w' (rw (same_run, same_version) later)
