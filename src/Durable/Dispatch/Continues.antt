-- ===== src/Durable/Dispatch/Continues.antt =====
-- When a run goes on after a tool call.
use cbrain.Prelude.{
  ℕ, ◌+◌, String, Option, none, some, Result, ok, err, ◌≡◌, ◌≢◌, refl, inl, inr, arith, sym,
  if◌then◌else◌, ltb, codes, Bool, true, false, Option-cases, Result-cases, eq_iff, ap, ◌∙◌,
}
use cbrain.Prelude.Dict.{lookup, lookup-insert}
use cbrain.Prelude.Lists.{length}
use cbrain.Json.{Json, Fields}
use cbrain.Contracts.{ContractError, ExecutionStatus, GovernedExecution}
use cbrain.Durable.{RunStoreError, RunStatus, DurableRunState, StoredRunRecord}
use cbrain.Durable.Store.{Records, save, claim_tool_dispatch}
use cbrain.Durable.Checkpoint.{change, complete_changes}
use cbrain.Durable.Resume.{DurableRunContext, record_to_run_result, resolve_claim_conflict}
use cbrain.Durable.Ending.{
  Loop, ToolResult, LoopError, status_value, reported, terminal_record, persist_terminal,
}
use cbrain.Durable.Dispatch.{
  completed_record, observe, reject, by_status, follow_save, complete, follow_execution,
  follow_claim, dispatch_prepared,
}

-- A record that is saved is stored as it is returned, in the state that was written.
save-stores :
    (s s' : Records) (r saved : StoredRunRecord) (v : ℕ)
    → save s r v ≡ ok (saved, s')
    → (lookup r.run_id s' ≡ some saved)
      × (saved.durable_state ≡ r.durable_state)
      × (saved.run_id ≡ r.run_id)
      × (saved.pending_execution_status ≡ r.pending_execution_status)
unfolding save
save-stores s s' r saved v h = elim (Option-cases (lookup r.run_id s)) [
  | inl new ↦ absurd (ground arith)
  | inr (current, e) ↦
      let written = lookup-insert r.run_id r.run_id (record r { version = v + 1 }) s in
      let same = (eq_iff r.run_id r.run_id).1 refl in ground (arith, written, same)
]

stored-moves :
    {s s' : Records} {c r : StoredRunRecord} {k : String}
    → c ≡ r
    → s ≡ s'
    → r.run_id ≡ k
    → lookup k s' ≡ some r
    → lookup c.run_id s ≡ some c
stored-moves {s = s} {s' = s'} {r = r} kept left named found =
    ap (λ y. lookup y.run_id s) kept
    ∙ (ap (lookup r.run_id) left ∙ (ap (λ k. lookup k s') named ∙ (found ∙ ap some (sym kept))))

-- A run that goes on: its execution was EXECUTED, and the completed call is stored.
pub record Continued {Message : Type 0} (g : GovernedExecution Json) (calls : ℕ) (s : Records)
    (ctx : DurableRunContext Message) : Type 0 where
  pub executed : g.status ≡ ExecutionStatus.executed
  pub counted : ctx.tool_calls ≡ calls + 1
  pub checkpoint : ctx.stored.durable_state ≡ DurableRunState.tool_completed
  pub recorded : ctx.stored.pending_execution_status ≡ some (status_value g.status)
  pub stored : lookup ctx.stored.run_id s ≡ some ctx.stored

module _ {Message : Type 0} (loop : Loop Message) where
  reported-ends :
      (s : Records) (x : Result RunStoreError (StoredRunRecord × Records))
      (c : DurableRunContext Message)
      → (reported loop s x).0 ≢ ok (ToolResult.goes_on c)
  unfolding reported
  reported-ends s (err e) c h = cc
  reported-ends s (ok (saved, s')) c h =
      elim (Result-cases (record_to_run_result loop.to_float saved)) [
        | inl (result, e) ↦ ground arith
        | inr (error, e) ↦ ground arith
      ]

  persist_terminal-ends :
      (s : Records) (ctx : DurableRunContext Message) (status : RunStatus) (text : Option String)
      (metadata : Option Fields) (c : DurableRunContext Message)
      → (persist_terminal loop s ctx status text metadata).0 ≢ ok (ToolResult.goes_on c)
  unfolding persist_terminal
  persist_terminal-ends s ctx status text metadata c =
      reported-ends s (save s (terminal_record loop ctx status text metadata) ctx.stored.version) c

  -- What goes on has the record and the counter that it came with, over the same records.
  abbrev Unchanged :
      DurableRunContext Message → Records → Result LoopError (ToolResult Message) × Records → Type 0
  Unchanged ctx s x =
      (c : DurableRunContext Message)
      → x.0 ≡ ok (ToolResult.goes_on c)
      → (c.stored ≡ ctx.stored) × (c.tool_calls ≡ ctx.tool_calls) × (x.1 ≡ s)

  observe-Unchanged :
      (s : Records) (ctx : DurableRunContext Message) (step : ℕ) (request_id : String)
      (g : GovernedExecution Json)
      → Unchanged ctx s (observe loop s ctx step request_id g)
  unfolding observe
  observe-Unchanged s ctx step request_id g =
      either (ltb loop.max_observation_chars (length (codes (loop.observation_text g)))) _ _
        (λ c h. absurd (persist_terminal-ends s ctx _ _ _ c h)) (λ c h. (cc, cc, refl))
    where
      either :
          (long : Bool) (x y : Result LoopError (ToolResult Message) × Records)
          → Unchanged ctx s x
          → Unchanged ctx s y
          → Unchanged ctx s (if long then x else y)
      either true x y hx hy = hx
      either false x y hx hy = hy

  by_status-Unchanged :
      (s : Records) (ctx : DurableRunContext Message) (step : ℕ) (request_id : String)
      (g : GovernedExecution Json) (status : ExecutionStatus) (c : DurableRunContext Message)
      → (by_status loop s ctx step request_id g status).0 ≡ ok (ToolResult.goes_on c)
      → (status ≡ ExecutionStatus.executed)
        × (c.stored ≡ ctx.stored)
        × (c.tool_calls ≡ ctx.tool_calls)
        × ((by_status loop s ctx step request_id g status).1 ≡ s)
  unfolding by_status reject
  by_status-Unchanged s ctx step request_id g ExecutionStatus.executed c h =
      let (kept, calls, left) = observe-Unchanged s ctx step request_id g c h in
      (refl, kept, calls, left)
  by_status-Unchanged s ctx step request_id g ExecutionStatus.blocked c h =
      absurd (persist_terminal-ends s _ _ _ _ c h)
  by_status-Unchanged s ctx step request_id g ExecutionStatus.review_required c h =
      absurd (persist_terminal-ends s _ _ _ _ c h)
  by_status-Unchanged s ctx step request_id g ExecutionStatus.control_failure c h =
      absurd (persist_terminal-ends s _ _ _ _ c h)
  by_status-Unchanged s ctx step request_id g ExecutionStatus.indeterminate c h =
      absurd (persist_terminal-ends s _ _ _ _ c h)

  completed_record-state :
      (ctx : DurableRunContext Message) (step : ℕ) (g : GovernedExecution Json)
      → let r = completed_record loop ctx step g in
        (r.durable_state ≡ DurableRunState.tool_completed)
        × (r.pending_execution_status ≡ some (status_value g.status))
  unfolding completed_record change complete_changes
  completed_record-state ctx step g = (refl, refl)

  follow_save-Continued :
      (s : Records) (ctx : DurableRunContext Message) (step : ℕ) (request_id : String)
      (g : GovernedExecution Json) (x : Result RunStoreError (StoredRunRecord × Records))
      (c : DurableRunContext Message)
      → save s (completed_record loop ctx step g) ctx.stored.version ≡ x
      → (follow_save loop s ctx step request_id g x).0 ≡ ok (ToolResult.goes_on c)
      → Continued g ctx.tool_calls (follow_save loop s ctx step request_id g x).1 c
  unfolding follow_save
  follow_save-Continued s ctx step request_id g (err e) c saved h = absurd (cc)
  follow_save-Continued s ctx step request_id g (ok (r, s')) c saved h =
      let (executed, kept, calls, left) = by_status-Unchanged s' _ step request_id g g.status c h in
      let (found, state, named, status) = save-stores s s' _ r ctx.stored.version saved in
      let (completed, recorded) = completed_record-state ctx step g in
      record {
        executed = executed;
        counted = calls;
        checkpoint = ap (λ y. y.durable_state) kept ∙ (state ∙ completed);
        recorded = ap (λ y. y.pending_execution_status) kept ∙ (status ∙ recorded);
        stored = stored-moves kept left named found;
      }

  follow_execution-Continued :
      {World : Type 0} (s : Records) (ctx : DurableRunContext Message) (step : ℕ)
      (request_id : String) (x : Result ContractError (GovernedExecution Json) × World)
      (c : DurableRunContext Message)
      → (follow_execution loop s ctx step request_id x).0 ≡ ok (ToolResult.goes_on c)
      → (g : GovernedExecution Json) × (x.0 ≡ ok g)
        × Continued g ctx.tool_calls (follow_execution loop s ctx step request_id x).1 c
  unfolding follow_execution complete
  follow_execution-Continued s ctx step request_id (err e, w) c h = absurd (cc)
  follow_execution-Continued s ctx step request_id (ok g, w) c h =
      (g, refl, follow_save-Continued s ctx step request_id g _ c refl h)

  follow_claim-Continued :
      {World : Type 0} (runtime : World → Result ContractError (GovernedExecution Json) × World)
      (s : Records) (ctx : DurableRunContext Message) (step : ℕ) (request_id : String)
      (x : Result RunStoreError (Option StoredRunRecord × Records)) (w : World)
      (c : DurableRunContext Message)
      → (follow_claim loop runtime s ctx step request_id x w).0 ≡ ok (ToolResult.goes_on c)
      → (g : GovernedExecution Json) × ((runtime w).0 ≡ ok g)
        × Continued g ctx.tool_calls (follow_claim loop runtime s ctx step request_id x w).1 c
  unfolding follow_claim
  follow_claim-Continued runtime s ctx step request_id (err e) w c h = absurd (cc)
  follow_claim-Continued runtime s ctx step request_id (ok (none, s')) w c h =
      elim (Result-cases (resolve_claim_conflict loop.to_float s' ctx.run_id)) [
        | inl (result, e) ↦ absurd (ground arith)
        | inr (error, e) ↦ absurd (ground arith)
      ]
  follow_claim-Continued runtime s ctx step request_id (ok (some r, s')) w c h =
      follow_execution-Continued s' _ step request_id (runtime w) c h

  -- A run goes on after a dispatch only if the governed execution returned a result EXECUTED; then
  -- the call is counted, and the record that the run goes on with is stored, in TOOL_COMPLETED and
  -- with the status of the execution.
  pub dispatch_prepared-Continued :
      {World : Type 0} (runtime : World → Result ContractError (GovernedExecution Json) × World)
      (s : Records) (ctx : DurableRunContext Message) (step : ℕ) (request_id : String) (w : World)
      (c : DurableRunContext Message)
      → (dispatch_prepared loop runtime s ctx step request_id w).0 ≡ ok (ToolResult.goes_on c)
      → (g : GovernedExecution Json) × ((runtime w).0 ≡ ok g)
        × Continued g ctx.tool_calls (dispatch_prepared loop runtime s ctx step request_id w).1 c
  unfolding dispatch_prepared
  dispatch_prepared-Continued runtime s ctx step request_id w c h =
      follow_claim-Continued runtime s ctx step request_id
        (claim_tool_dispatch s ctx.run_id ctx.stored.version) w c h
