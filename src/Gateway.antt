-- ===== src/Gateway.antt =====
-- cbrain/execution/gateway.py: `PrivateVaultExecutionGateway.decide_and_execute`, stage by stage.
pub mod Permit
pub mod Governed
pub mod Evidence
pub mod Entered
pub mod Candid
pub mod InProcess
use cbrain.Collaborators.{
  Verdict, Decision, DispatchResult, DispatchInput, Transport, is_independent, Collaborators,
  raised, give, attempt, decision_id, outcome, control_failure, indeterminate,
}
use Prim.Native.String.{◌++◌}
use cbrain.Prelude.{
  String, Option, none, some, Bool, true, false, ◌&&◌, ◌||◌, not, str_eq, Result, ok, err, ◌>>=◌,
  or_raise, if◌then◌else◌,
}
use cbrain.Json.{Json, Fields, get}
use cbrain.Contracts.{
  ContractError, ExecutionStatus, GovernedExecution, governed_execution, ActionIntent,
}
use cbrain.Runtime.{Raised, Procedure, returns, raises, calls, Answer}

module _ {Args Out : Type 0} (c : Collaborators Args Out) (action : ActionIntent) where
  open c use {
    Plan, DecisionBinding, Issued, Binding, Verified, VerifiedDispatch, Witness, Closure, plan,
    capture_binding, decide, issue, bind, verify_authorization, verify_and_claim, claim_clock,
    witness_id_factory, dispatch_clock, verify_dispatch, verify_closure, transport,
  }

  -- The witness and the closure are verified; a missing closure raises.
  unfoldable pub prove_closure :
      Verified → DispatchResult Witness Closure Out → Result Raised (Unit {0})
  prove_closure verified result = do
    dispatch ← verify_dispatch verified result.witness
    closure ← or_raise result.closure (raised "ExecutionGatewayError")
    verify_closure dispatch closure

  -- From the end of the verification to the result.
  unfoldable pub close :
      Decision
      → Bool
      → DispatchResult Witness Closure Out
      → Result Raised (Unit {0})
      → Result ContractError (GovernedExecution Out)
  close decision entered result (err e) =
      indeterminate action ("closure_unproven:" ++ e.name) (entered || is_independent transport)
        (decision_id decision)
  close decision entered result (ok _) =
      if is_independent transport && entered
      then indeterminate action "independent_dispatch_entered_local_handler" true
          (decision_id decision)
      else if not (is_independent transport) && not entered
      then indeterminate action "closure_without_handler_entry" entered (decision_id decision)
      else governed_execution (
          outcome ExecutionStatus.executed (some true) false action "execution_closed"
            (decision_id decision) result.output)

  -- From the end of the `dispatch` call to the result.
  unfoldable pub conclude :
      Decision
      → Verified
      → Bool
      → Result Raised (DispatchResult Witness Closure Out)
      → Result ContractError (GovernedExecution Out)
  unfolding prove_closure close
  conclude decision verified entered (err e) =
      if e.not_invoked
      then control_failure action ("dispatch_refused:" ++ e.name) (decision_id decision)
      else indeterminate action ("dispatch_failed:" ++ e.name) (entered || is_independent transport)
          (decision_id decision)
  conclude decision verified entered (ok result) =
      close decision entered result (prove_closure verified result)

  -- The arguments of `dispatch`, evaluated inside the `try`.
  unfoldable pub dispatch_input :
      Plan → Issued → Binding → Result Raised (DispatchInput Plan Issued Binding)
  dispatch_input planned issued binding = do
    witness_id ← witness_id_factory action
    observed_at ← dispatch_clock
    ok (record {
      issued = issued;
      plan = planned;
      witness_id = witness_id;
      observed_at = observed_at;
      binding = binding;
    })

  -- The call of `dispatch`, as a procedure.
  unfoldable pub send :
      (DispatchInput Plan Issued Binding → Procedure Args Out (DispatchResult Witness Closure Out))
      → Result Raised (DispatchInput Plan Issued Binding)
      → Procedure Args Out (DispatchResult Witness Closure Out)
  send dispatch (ok input) = dispatch input
  send dispatch (err e) = raises e

  abbrev pub answer : {A : Type 0} → Result Raised A → Procedure Args Out A
  answer (ok a) = returns a
  answer (err e) = raises e

  -- From `_prepare_transport` on. The preparation stands outside every `try`.
  unfoldable pub dispatch_with :
      Transport Args Out (DispatchInput Plan Issued Binding) (DispatchResult Witness Closure Out)
      → Decision
      → Verified
      → Result Raised (DispatchInput Plan Issued Binding)
      → Procedure Args Out (Answer Out)
  unfolding send conclude give attempt
  dispatch_with (Transport.independent dispatch) decision verified input =
      attempt false (send (λ i. answer (dispatch i)) input)
        (λ entered r. give (conclude decision verified entered r))
  dispatch_with (Transport.bindable dispatch) decision verified input =
      attempt false (send dispatch input) (λ entered r. give (conclude decision verified entered r))
  dispatch_with (Transport.binding_fails e) decision verified input = raises e
  dispatch_with Transport.unbindable decision verified input =
      raises (raised "ExecutionGatewayError")

  -- Issuance, binding, and the verification of the permit, which an in-process transport consumes.
  unfoldable pub authorize : Plan → Decision → Result Raised (Issued × Binding × Verified)
  authorize planned decision = do
    issued ← issue action decision planned
    binding ← bind action planned issued
    verified ←
        (if is_independent transport
          then verify_authorization issued binding false
          else (claim_clock >>= verify_and_claim issued binding))
    ok (issued, binding, verified)

  -- After an ALLOW.
  unfoldable pub execute_allowed :
      Plan
      → Decision
      → Result Raised (Issued × Binding × Verified)
      → Procedure Args Out (Answer Out)
  unfolding give dispatch_with dispatch_input
  execute_allowed planned decision (err e) =
      give (control_failure action ("authorization_refused:" ++ e.name) none)
  execute_allowed planned decision (ok (issued, binding, verified)) =
      dispatch_with transport decision verified (dispatch_input planned issued binding)

  -- The verdict decides whether anything is dispatched at all.
  unfoldable pub follow : Plan → Decision → Option Verdict → Procedure Args Out (Answer Out)
  unfolding give execute_allowed authorize
  follow planned decision (some Verdict.block) = give (
      governed_execution (
        outcome ExecutionStatus.blocked (some false) false action
          ("privatevault_block:" ++ decision.triggered_by) (decision_id decision) none))
  follow planned decision (some Verdict.require_approval) = give (
      governed_execution (
        outcome ExecutionStatus.review_required (some false) false action
          ("privatevault_review:" ++ decision.triggered_by) (decision_id decision) none))
  follow planned decision (some Verdict.allow) =
      execute_allowed planned decision (authorize planned decision)
  follow planned decision none = give (control_failure action "unknown_verdict" none)

  unfoldable pub decided : Plan → Result Raised Decision → Procedure Args Out (Answer Out)
  unfolding give follow
  decided planned (err e) = give (control_failure action ("decision_unavailable:" ++ e.name) none)
  decided planned (ok decision) = follow planned decision decision.verdict

  unfoldable pub planned_for :
      Result Raised (Plan × DecisionBinding) → Procedure Args Out (Answer Out)
  unfolding give decided
  planned_for (err e) = give (control_failure action ("dispatch_planning_failed:" ++ e.name) none)
  planned_for (ok (planned, binding)) = decided planned (decide action binding)

  unfoldable pub plan_dispatch : Result Raised (Plan × DecisionBinding)
  plan_dispatch = do
    planned ← plan action
    binding ← capture_binding action planned
    ok (planned, binding)

  unfoldable pub decide_and_execute : Procedure Args Out (Answer Out)
  unfolding planned_for plan_dispatch
  decide_and_execute = planned_for plan_dispatch
