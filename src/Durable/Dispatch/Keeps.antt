-- ===== src/Durable/Dispatch/Keeps.antt =====
-- A dispatch leaves the stored records consistent, however it ends.
use cbrain.Prelude.{
  ℕ, String, Option, none, some, Bool, true, false, Result, ok, err, ltb, codes, ◌≡◌, refl, arith,
  if◌then◌else◌,
}
use cbrain.Prelude.Lists.{length}
use cbrain.Json.{Json, Fields}
use cbrain.Contracts.{ContractError, ExecutionStatus, GovernedExecution}
use cbrain.Durable.{
  RunStoreError, RunStatus, DurableRunState, StoredRunRecord, validate_state_fields,
}
use cbrain.Durable.Store.{Records, save, claim_tool_dispatch}
use cbrain.Durable.Checkpoint.{change, complete_changes}
use cbrain.Durable.Checkpoint.Lifecycle.{
  IsConsistent, AllConsistent, save-AllConsistent, claim-AllConsistent, claimed_record,
  finalize-IsConsistent,
}
use cbrain.Durable.Resume.{DurableRunContext}
use cbrain.Durable.Ending.{Loop, ToolResult, LoopError, reported, terminal_record, persist_terminal}
use cbrain.Durable.Dispatch.{
  completed_record, observe, reject, by_status, follow_save, complete, follow_execution,
  follow_claim, dispatch_prepared,
}

module _ {Message : Type 0} (loop : Loop Message) where
  -- The records that are left.
  abbrev Leaves : Result LoopError (ToolResult Message) × Records → Type 0
  Leaves x = AllConsistent x.1

  reported-keeps :
      (s : Records) (r : StoredRunRecord) (v : ℕ)
      (x : Result RunStoreError (StoredRunRecord × Records))
      → save s r v ≡ x
      → AllConsistent s
      → IsConsistent r
      → Leaves (reported loop s x)
  unfolding reported
  reported-keeps s r v (err e) h all c = all
  reported-keeps s r v (ok (saved, s')) h all c = save-AllConsistent s s' r saved v h all c

  persist_terminal-keeps :
      (s : Records) (ctx : DurableRunContext Message) (status : RunStatus) (text : Option String)
      (metadata : Option Fields)
      → AllConsistent s
      → Leaves (persist_terminal loop s ctx status text metadata)
  unfolding persist_terminal terminal_record
  persist_terminal-keeps s ctx status text metadata all =
      reported-keeps s (terminal_record loop ctx status text metadata) ctx.stored.version _ refl all
        (finalize-IsConsistent loop.serialize_message ctx.stored status text _ _ _ _ _)

  Leaves-if :
      (b : Bool) (x y : Result LoopError (ToolResult Message) × Records)
      → Leaves x
      → Leaves y
      → Leaves (if b then x else y)
  Leaves-if true x y h k = h
  Leaves-if false x y h k = k

  by_status-keeps :
      (s : Records) (ctx : DurableRunContext Message) (step : ℕ) (request_id : String)
      (g : GovernedExecution Json) (status : ExecutionStatus)
      → AllConsistent s
      → Leaves (by_status loop s ctx step request_id g status)
  unfolding by_status observe reject
  by_status-keeps s ctx step request_id g ExecutionStatus.executed all =
      Leaves-if (ltb loop.max_observation_chars (length (codes (loop.observation_text g)))) _ _
        (persist_terminal-keeps s ctx _ _ _ all) all
  by_status-keeps s ctx step request_id g ExecutionStatus.blocked all =
      persist_terminal-keeps s _ _ _ _ all
  by_status-keeps s ctx step request_id g ExecutionStatus.review_required all =
      persist_terminal-keeps s _ _ _ _ all
  by_status-keeps s ctx step request_id g ExecutionStatus.control_failure all =
      persist_terminal-keeps s _ _ _ _ all
  by_status-keeps s ctx step request_id g ExecutionStatus.indeterminate all =
      persist_terminal-keeps s _ _ _ _ all

  -- The checkpoint of a completed call keeps the pending fields of the record in flight.
  completed_record-IsConsistent :
      (ctx : DurableRunContext Message) (step : ℕ) (g : GovernedExecution Json)
      → IsConsistent ctx.stored
      → ctx.stored.durable_state ≡ DurableRunState.tool_in_flight
      → IsConsistent (completed_record loop ctx step g)
  unfolding completed_record change complete_changes validate_state_fields
  completed_record-IsConsistent ctx step g c flying = ground arith

  follow_save-keeps :
      (s : Records) (ctx : DurableRunContext Message) (step : ℕ) (request_id : String)
      (g : GovernedExecution Json) (r : StoredRunRecord) (v : ℕ)
      (x : Result RunStoreError (StoredRunRecord × Records))
      → save s r v ≡ x
      → AllConsistent s
      → IsConsistent r
      → Leaves (follow_save loop s ctx step request_id g x)
  unfolding follow_save
  follow_save-keeps s ctx step request_id g r v (err e) h all c = all
  follow_save-keeps s ctx step request_id g r v (ok (saved, s')) h all c =
      by_status-keeps s' _ step request_id g g.status (save-AllConsistent s s' r saved v h all c)

  module _ {World : Type 0}
      (runtime : World → Result ContractError (GovernedExecution Json) × World) where
    follow_execution-keeps :
        (s : Records) (ctx : DurableRunContext Message) (step : ℕ) (request_id : String)
        (x : Result ContractError (GovernedExecution Json) × World)
        → AllConsistent s
        → IsConsistent ctx.stored
        → ctx.stored.durable_state ≡ DurableRunState.tool_in_flight
        → AllConsistent (follow_execution loop s ctx step request_id x).1
    unfolding follow_execution complete
    follow_execution-keeps s ctx step request_id (err e, w) all c flying = all
    follow_execution-keeps s ctx step request_id (ok g, w) all c flying =
        follow_save-keeps s ctx step request_id g (completed_record loop ctx step g)
          ctx.stored.version _ refl all (completed_record-IsConsistent ctx step g c flying)

    follow_claim-keeps :
        (s : Records) (ctx : DurableRunContext Message) (step : ℕ) (request_id : String)
        (x : Result RunStoreError (Option StoredRunRecord × Records)) (w : World)
        → claim_tool_dispatch s ctx.run_id ctx.stored.version ≡ x
        → AllConsistent s
        → AllConsistent (follow_claim loop runtime s ctx step request_id x w).1
    unfolding follow_claim
    follow_claim-keeps s ctx step request_id (err e) w h all = all
    follow_claim-keeps s ctx step request_id (ok (none, s')) w h all =
        claim-AllConsistent s s' ctx.run_id ctx.stored.version none h all
    follow_claim-keeps s ctx step request_id (ok (some q, s')) w h all =
        let (c, flying) = claimed_record s s' ctx.run_id ctx.stored.version q h all in
        follow_execution-keeps s' (record ctx { stored = q }) step request_id (runtime w)
          (claim-AllConsistent s s' ctx.run_id ctx.stored.version (some q) h all) c flying

    -- Where all stored records are consistent with their states, they are so after a worker's dispatch
    -- of a prepared call, however it ends: whether the claim is won, whatever the runtime answers and
    -- the tool reports, and whether the run goes on or is finalized.
    pub dispatch_prepared-AllConsistent :
        (s : Records) (ctx : DurableRunContext Message) (step : ℕ) (request_id : String) (w : World)
        → AllConsistent s
        → AllConsistent (dispatch_prepared loop runtime s ctx step request_id w).1
    unfolding dispatch_prepared
    dispatch_prepared-AllConsistent s ctx step request_id w all =
        follow_claim-keeps s ctx step request_id
          (claim_tool_dispatch s ctx.run_id ctx.stored.version) w refl all
