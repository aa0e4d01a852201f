-- ===== src/Durable/Restore.antt =====
-- cbrain/agent/durable_loop.py: `restore_execution`, which a worker that resumes a run in
-- TOOL_COMPLETED uses in place of executing the tool call again.
use cbrain.Prelude.{
  ℕ, String, Option, none, some, false, List, [], ◌∷◌, Result, ok, err, ◌>>=◌, map_err, ◌≡◌, refl,
  sym, arith, eq_iff,
}
use cbrain.Json.{Json}
use cbrain.Contracts.{ExecutionStatus, GovernedExecution, governed_execution, or_default}
use cbrain.Contracts.Validity.{IsWellFormed, tool_run, IsWellFormed-governed_execution}
use cbrain.Durable.{RunStoreError, StoredRunRecord}
use cbrain.Durable.Readers.{find_member}
use cbrain.Durable.Payload.{or_null}
use cbrain.Durable.Resume.{DurableRunContext}
use cbrain.Durable.Checkpoint.{change, complete_changes, or_json}
use cbrain.Durable.Ending.{LoopError, Loop, status_value}
use cbrain.Durable.Dispatch.{completed_record}

abbrev members : List ExecutionStatus
members =
    ExecutionStatus.executed ∷ ExecutionStatus.blocked ∷ ExecutionStatus.review_required
    ∷ ExecutionStatus.control_failure ∷ ExecutionStatus.indeterminate ∷ []

-- `ExecutionStatus(text)`
unfoldable pub execution_status : String → Result LoopError ExecutionStatus
unfolding find_member status_value
execution_status s = elim (find_member status_value members s) [
  | none ↦ err (LoopError.store RunStoreError.wrong_status)
  | some status ↦ ok status
]

-- `None` is stored as `null`.
abbrev pub output_of : Json → Option Json
output_of Json.null = none
output_of v = some v

abbrev pub needed : Option String → String → Result LoopError String
needed none name = err (LoopError.store (RunStoreError.missing_pending name))
needed (some s) name = ok s

unfoldable pub restore_execution : StoredRunRecord → Result LoopError (GovernedExecution Json)
unfolding execution_status
restore_execution r = do
  text ← needed r.pending_execution_status "pending_execution_status"
  request_id ← needed r.pending_request_id "pending_request_id"
  status ← execution_status text
  map_err LoopError.contract (
      governed_execution (record {
        status = status;
        request_id = request_id;
        tool_executed = tool_run status;
        reason = or_default r.pending_execution_reason "";
        decision_id = none;
        output = output_of r.pending_execution_output;
        retryable = false;
      }))

execution_status_lem : (s : ExecutionStatus) → execution_status (status_value s) ≡ ok s
unfolding execution_status
execution_status_lem ExecutionStatus.executed = refl
execution_status_lem ExecutionStatus.blocked = refl
execution_status_lem ExecutionStatus.review_required = refl
execution_status_lem ExecutionStatus.control_failure = refl
execution_status_lem ExecutionStatus.indeterminate = refl

or_default-empty : (s : String) → or_default (some s) "" ≡ s
or_default-empty s = ground (arith, eq_iff s "")

or_json-null : (v : Json) → or_json v Json.null ≡ v
or_json-null Json.null = refl
or_json-null _ = refl

-- The execution without what a record does not keep.
abbrev pub kept : GovernedExecution Json → GovernedExecution Json
kept g = record g { decision_id = none; output = output_of (or_null g.output); retryable = false }

kept-IsWellFormed : (g : GovernedExecution Json) → IsWellFormed g → IsWellFormed (kept g)
kept-IsWellFormed g h = record {
  named = h.named;
  explained = h.explained;
  consistent = h.consistent;
  retry = λ e. absurd (cc);
}

-- A run that stops right after the checkpoint of a completed call resumes with the execution that
-- took place: for a well-formed execution of the pending request, and no output stored before, the
-- completed record restores to that execution, less its decision id and its retry flag.
pub restore_execution-completed_record :
    {Message : Type 0} (loop : Loop Message) (ctx : DurableRunContext Message) (step : ℕ)
    (g : GovernedExecution Json)
    → IsWellFormed g
    → ctx.stored.pending_request_id ≡ some g.request_id
    → ctx.stored.pending_execution_output ≡ Json.null
    → restore_execution (completed_record loop ctx step g) ≡ ok (kept g)
unfolding restore_execution completed_record change complete_changes
restore_execution-completed_record loop ctx step g h request fresh =
    simp (request, fresh, or_json-null, execution_status_lem, or_default-empty, sym h.consistent)
      (rw (IsWellFormed-governed_execution (kept g) (kept-IsWellFormed g h)) refl)
