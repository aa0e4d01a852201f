-- ===== src/Collaborators.antt =====
-- cbrain/execution/gateway.py: the collaborators of `PrivateVaultExecutionGateway`, and its helpers
-- `_decision_id`, `_control_failure` and `_indeterminate`. The collaborators answer as they like: each
-- is asked at most once in an execution (the clock twice), so their answers are functions of what
-- they are given. `bind` stands for `_bind`, which reads the issuer's mapping of digests and may
-- raise.
use cbrain.Prelude.{
  String, Option, none, some, Bool, true, false, not, str_eq, Result, ok, err, if◌then◌else◌,
}
use cbrain.Json.{Json, Fields, get}
use cbrain.Contracts.{
  ContractError, ExecutionStatus, GovernedExecution, governed_execution, ActionIntent,
}
use cbrain.Runtime.{Raised, Procedure, returns, raises, calls, Answer}

pub data Verdict : Type 0 where
  allow require_approval block : Verdict

-- `PrivateVaultDecision`. The verdict is `none` for an object outside the enumeration, the record
-- for stored bytes that do not restore to an object.
pub record Decision : Type 0 where
  pub verdict : Option Verdict
  pub triggered_by : String
  pub sealed : Option Fields

-- `DispatchResult`, as far as the gateway reads it.
pub record DispatchResult (Witness Closure Out : Type 0) : Type 0 where
  pub witness : Witness
  pub closure : Option Closure
  pub output : Option Out

-- The arguments of `transport.dispatch`; `attempt` is always 1.
pub record DispatchInput (Plan Issued Binding : Type 0) : Type 0 where
  pub issued : Issued
  pub plan : Plan
  pub witness_id : String
  pub observed_at : String
  pub binding : Binding

-- A transport by what `_prepare_transport` finds: an independent one is used as it is, another is
-- bound to the request's handler by `with_handler`, which may raise or be missing.
pub data Transport (Args Out Input Output : Type 0) : Type 0 where
  independent : (Input → Result Raised Output) → Transport Args Out Input Output
  bindable : (Input → Procedure Args Out Output) → Transport Args Out Input Output
  binding_fails : Raised → Transport Args Out Input Output
  unbindable : Transport Args Out Input Output

abbrev pub is_independent :
    {Args Out Input Output : Type 0} → Transport Args Out Input Output → Bool
is_independent (Transport.independent _) = true
is_independent _ = false

pub record Collaborators (Args Out : Type 0) : Type 1 where
  pub Plan : Type 0
  pub DecisionBinding : Type 0
  pub Issued : Type 0
  pub Binding : Type 0
  pub Verified : Type 0
  pub VerifiedDispatch : Type 0
  pub Witness : Type 0
  pub Closure : Type 0
  pub plan : ActionIntent → Result Raised Plan
  pub capture_binding : ActionIntent → Plan → Result Raised DecisionBinding
  pub decide : ActionIntent → DecisionBinding → Result Raised Decision
  pub issue : ActionIntent → Decision → Plan → Result Raised Issued
  pub bind : ActionIntent → Plan → Issued → Result Raised Binding
  pub verify_authorization : Issued → Binding → Bool → Result Raised Verified
  pub verify_and_claim : Issued → Binding → String → Result Raised Verified
  pub claim_clock : Result Raised String
  pub witness_id_factory : ActionIntent → Result Raised String
  pub dispatch_clock : Result Raised String
  pub verify_dispatch : Verified → Witness → Result Raised VerifiedDispatch
  pub verify_closure : VerifiedDispatch → Closure → Result Raised (Unit {0})
  pub transport :
      Transport Args Out (DispatchInput Plan Issued Binding) (DispatchResult Witness Closure Out)

-- An exception that is no `HandlerNotInvoked`.
abbrev pub raised : String → Raised
raised name = record { name = name; not_invoked = false }

module _ {Args Out : Type 0} where
  -- `return GovernedExecution(...)`, whose constructor may raise.
  unfoldable pub give :
      Result ContractError (GovernedExecution Out) → Procedure Args Out (Answer Out)
  give (ok g) = returns (Answer.execution g)
  give (err _) = raises (raised "ContractError")

  -- `try: p ... except Exception`, with the flag `handler_entered` of `run_handler`.
  unfoldable pub attempt :
      {A B : Type 0}
      → Bool
      → Procedure Args Out A
      → (Bool → Result Raised A → Procedure Args Out B)
      → Procedure Args Out B
  attempt entered (returns a) k = k entered (ok a)
  attempt entered (raises e) k = k entered (err e)
  attempt entered (calls args next) k = calls args (λ r. attempt true (next r) k)

-- `value if isinstance(value, str) and value else None`
abbrev non_empty_text : Option Json → Option String
non_empty_text (some (Json.text s)) = if str_eq s "" then none else some s
non_empty_text _ = none

unfoldable pub decision_id : Decision → Option String
decision_id d = elim d.sealed [
  | none ↦ none
  | some fields ↦ non_empty_text (get "decision_id" fields)
]

module _ {Out : Type 0} where
  abbrev pub outcome :
      ExecutionStatus
      → Option Bool
      → Bool
      → ActionIntent
      → String
      → Option String
      → Option Out
      → GovernedExecution Out
  outcome status tool_executed retryable action reason id output = record {
    status = status;
    request_id = action.request_id;
    tool_executed = tool_executed;
    reason = reason;
    decision_id = id;
    output = output;
    retryable = retryable;
  }

  -- `_control_failure`
  unfoldable pub control_failure :
      ActionIntent → String → Option String → Result ContractError (GovernedExecution Out)
  control_failure action reason id =
      governed_execution
        (outcome ExecutionStatus.control_failure (some false) true action reason id none)

  -- `_indeterminate`
  unfoldable pub indeterminate :
      ActionIntent → String → Bool → Option String → Result ContractError (GovernedExecution Out)
  unfolding control_failure
  indeterminate action reason entered id =
      if not entered
      then control_failure action reason id
      else governed_execution
          (outcome ExecutionStatus.indeterminate none false action reason id none)
