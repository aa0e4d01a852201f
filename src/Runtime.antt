-- ===== src/Runtime.antt =====
-- cbrain/runtime.py: `GovernedRuntime.execute` around a gateway that may do anything.
pub mod Calls
pub mod Safety
use cbrain.Prelude.{
  ℕ, suc, ◌+◌, String, Option, none, some, Bool, true, false, ◌&&◌, ◌||◌, not, ltb, ◌==◌, str_eq,
  Result, ok, err, if◌then◌else◌,
}
use Prim.Native.String.{◌++◌}
use cbrain.Contracts.{
  ContractError, ExecutionStatus, GovernedExecution, governed_execution, is_executed, ActionIntent,
}

-- An exception: its type's name, and whether it is a `HandlerNotInvoked`.
pub record Raised : Type 0 where
  pub name : String
  pub not_invoked : Bool

-- What a gateway does with the handler that it is given, as a tree: it returns, it raises, or it
-- calls the handler and goes on with what came back.
pub data Procedure (Args Out A : Type 0) : Type 0 where
  returns : A → Procedure Args Out A
  raises : Raised → Procedure Args Out A
  calls : Args → (Result Raised Out → Procedure Args Out A) → Procedure Args Out A

-- A tool handler acts on the world outside, and returns or raises.
abbrev pub Handler : Type 0 → Type 0 → Type 0 → Type 0
Handler World Args Out = Args → World → Result Raised Out × World

-- A gateway's answer: a `GovernedExecution`, or any other object.
pub data Answer (Out : Type 0) : Type 0 where
  execution : GovernedExecution Out → Answer Out
  other : Answer Out

module _ {World Args Out : Type 0} (handler : Handler World Args Out) where
  -- The closure `invoke_once`, with the count `handler_entries` passed in and out.
  unfoldable pub invoke_once : Args → ℕ → World → Result Raised Out × ℕ × World
  invoke_once args entries w =
      if ltb 1 (suc entries)
      then (err (record { name = "RuntimeError"; not_invoked = false }), suc entries, w)
      else let (r, w') = handler args w in (r, suc entries, w')

  -- A procedure run with `invoke_once` for its handler.
  unfoldable pub run : {A : Type 0} → Procedure Args Out A → ℕ → World → Result Raised A × ℕ × World
  run (returns a) entries w = (ok a, entries, w)
  run (raises e) entries w = (err e, entries, w)
  run (calls args next) entries w =
      let (r, entries', w') = invoke_once args entries w in run (next r) entries' w'

-- `handler_entries > 0 or independent_execution`
abbrev pub possible : ℕ → Bool → Bool
possible entries independent = ltb 0 entries || independent

module _ {Out : Type 0} where
  -- The fields of the result that the runtime builds itself.
  abbrev pub failed_record : ActionIntent → ℕ → String → Bool → GovernedExecution Out
  failed_record action entries reason independent = record {
    status =
        if possible entries independent
        then ExecutionStatus.indeterminate
        else ExecutionStatus.control_failure;
    request_id = action.request_id;
    tool_executed = if possible entries independent then none else some false;
    reason = reason;
    decision_id = none;
    output = none;
    retryable = false;
  }

  -- `_contract_failure`, and the answer where the gateway raised.
  unfoldable pub contract_failure :
      ActionIntent → ℕ → String → Bool → Result ContractError (GovernedExecution Out)
  contract_failure action entries reason independent =
      governed_execution (failed_record action entries reason independent)

  -- What `execute` does once `decide_and_execute` is over.
  unfoldable pub settle :
      ActionIntent
      → Bool
      → ℕ
      → Result Raised (Answer Out)
      → Result ContractError (GovernedExecution Out)
  settle action independent entries (err e) =
      contract_failure action entries ("privatevault_gateway_error:" ++ e.name) independent
  settle action independent entries (ok Answer.other) =
      contract_failure action entries "invalid_gateway_result" independent
  settle action independent entries (ok (Answer.execution g)) =
      if not (str_eq g.request_id action.request_id)
      then contract_failure action entries "request_id_mismatch" independent
      else if is_executed g.status && not (entries == (if independent then 0 else 1))
      then contract_failure action entries "unproven_execution" independent
      else if not (is_executed g.status) && not (entries == 0)
      then contract_failure action entries "tool_called_without_executed_status" independent
      else ok g

-- `GovernedRuntime.execute`: the result, and the world that the handler leaves behind.
unfoldable pub execute :
    {World Args Out : Type 0}
    → Bool
    → Procedure Args Out (Answer Out)
    → ActionIntent
    → Handler World Args Out
    → World
    → Result ContractError (GovernedExecution Out) × World
execute independent gateway action handler w =
    let (r, entries, w') = run handler gateway 0 w in (settle action independent entries r, w')
