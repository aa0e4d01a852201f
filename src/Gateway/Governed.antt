-- ===== src/Gateway/Governed.antt =====
-- `GovernedRuntime.execute` over the PrivateVault execution gateway: the whole control path.
use cbrain.Prelude.{
  ℕ, String, Option, none, some, ap, Bool, true, false, Result, ok, err, ◌≡◌, refl, ◌⊎◌, inl, inr,
  arith, if◌then◌else◌,
}
use mathlib.Core.Path.{subst}
use Prim.Native.String.{◌++◌}
use cbrain.Contracts.{ContractError, ExecutionStatus, GovernedExecution, is_executed, ActionIntent}
use cbrain.Runtime.{
  Raised, Procedure, returns, raises, calls, Handler, Answer, run, contract_failure, settle,
  execute,
}
use cbrain.Runtime.Calls.{Holds, run-Holds}
use cbrain.Contracts.Validity.{governed_execution-eq}
use cbrain.Collaborators.{Verdict, Decision, Collaborators, is_independent, give}
use cbrain.Gateway.{
  execute_allowed, follow, decided, planned_for, plan_dispatch, authorize, decide_and_execute,
}
use cbrain.Gateway.Permit.{Permit, Evidence, IsAccounted}
use cbrain.Gateway.Evidence.{decide_and_execute-Accounted}

-- `GovernedRuntime(gateway).execute(action, handler)` for a `PrivateVaultExecutionGateway`.
unfoldable pub governed :
    {World Args Out : Type 0}
    → Collaborators Args Out
    → ActionIntent
    → Handler World Args Out
    → World
    → Result ContractError (GovernedExecution Out) × World
governed c action handler w =
    execute (is_independent c.transport) (decide_and_execute c action) action handler w

-- A result EXECUTED of the runtime is the gateway's own.
failure_not_executed :
    {Out : Type 0} (action : ActionIntent) (n : ℕ) (reason : String) (independent : Bool)
    {g : GovernedExecution Out}
    → contract_failure action n reason independent ≡ ok g
    → is_executed g.status ≡ true
    → ⊥
unfolding contract_failure
failure_not_executed action n reason true h e = let same = governed_execution-eq _ h in ground arith
failure_not_executed action n reason false h e =
    let same = governed_execution-eq _ h in ground arith

module _ {Out : Type 0} (action : ActionIntent) (n : ℕ) (independent : Bool) where
  -- If such a result is EXECUTED, the gateway returned it.
  abbrev FromGateway :
      Result Raised (Answer Out) → Result ContractError (GovernedExecution Out) → Type 0
  FromGateway r x =
      (g : GovernedExecution Out)
      → x ≡ ok g
      → is_executed g.status ≡ true
      → r ≡ ok (Answer.execution g)

  failure-FromGateway :
      (r : Result Raised (Answer Out)) (reason : String)
      → FromGateway r (contract_failure action n reason independent)
  failure-FromGateway r reason g h e = absurd (failure_not_executed action n reason independent h e)

  FromGateway-if :
      (r : Result Raised (Answer Out)) (b : Bool) (reason : String)
      (y : Result ContractError (GovernedExecution Out))
      → FromGateway r y
      → FromGateway r (if b then contract_failure action n reason independent else y)
  FromGateway-if r true reason y h = failure-FromGateway r reason
  FromGateway-if r false reason y h = h

  settle-FromGateway :
      (r : Result Raised (Answer Out)) → FromGateway r (settle action independent n r)
  unfolding settle
  settle-FromGateway (err e) = failure-FromGateway _ ("privatevault_gateway_error:" ++ e.name)
  settle-FromGateway (ok Answer.other) = failure-FromGateway _ "invalid_gateway_result"
  settle-FromGateway (ok (Answer.execution g)) = FromGateway-if _ _ "request_id_mismatch" _ (
      FromGateway-if _ _ "unproven_execution" _ (
        FromGateway-if _ _ "tool_called_without_executed_status" _
          (λ x h e. ap (λ y. ok (Answer.execution y)) (ok_inj h))))
    where
      ok_inj :
          {x y : GovernedExecution Out}
          → ◌≡◌ {A = Result ContractError (GovernedExecution Out)} (ok x) (ok y)
          → x ≡ y
      ok_inj h = cc

-- A procedure whose first step is a call of the handler.
abbrev Calls : {Args Out A : Type 0} → Procedure Args Out A → Type 0
Calls (calls _ _) = Unit
Calls _ = ⊥

module _ {Args Out : Type 0} (c : Collaborators Args Out) (action : ActionIntent) where
  give-no_call :
      (r : Result ContractError (GovernedExecution Out)) → Calls {Args = Args} (give r) → ⊥
  unfolding give
  give-no_call (ok g) h = h
  give-no_call (err e) h = h

  -- Only a permit leads to a call of the handler.
  decide_and_execute-Permit : Calls (decide_and_execute c action) → Permit c action
  unfolding decide_and_execute planned_for decided follow execute_allowed
  decide_and_execute-Permit = from_plan (plan_dispatch c action) refl
    where
      from_permit :
          (planned : c.Plan) (b : c.DecisionBinding) (decision : Decision)
          (r : Result Raised (c.Issued × c.Binding × c.Verified))
          → plan_dispatch c action ≡ ok (planned, b)
          → c.decide action b ≡ ok decision
          → decision.verdict ≡ some Verdict.allow
          → authorize c action planned decision ≡ r
          → Calls (execute_allowed c action planned decision r)
          → Permit c action
      from_permit planned b decision (err e) p d v a h = absurd (give-no_call _ h)
      from_permit planned b decision (ok (issued, binding, verified)) p d v a h = record {
        planned = planned;
        decision_binding = b;
        decision = decision;
        issued = issued;
        binding = binding;
        verified = verified;
        is_planned = p;
        is_decided = d;
        is_allowed = v;
        is_authorized = a;
      }

      from_verdict :
          (planned : c.Plan) (b : c.DecisionBinding) (decision : Decision) (v : Option Verdict)
          → plan_dispatch c action ≡ ok (planned, b)
          → c.decide action b ≡ ok decision
          → decision.verdict ≡ v
          → Calls (follow c action planned decision v)
          → Permit c action
      from_verdict planned b decision (some Verdict.block) p d v h = absurd (give-no_call _ h)
      from_verdict planned b decision (some Verdict.require_approval) p d v h =
          absurd (give-no_call _ h)
      from_verdict planned b decision none p d v h = absurd (give-no_call _ h)
      from_verdict planned b decision (some Verdict.allow) p d v h =
          from_permit planned b decision _ p d v refl h

      from_decision :
          (planned : c.Plan) (b : c.DecisionBinding) (r : Result Raised Decision)
          → plan_dispatch c action ≡ ok (planned, b)
          → c.decide action b ≡ r
          → Calls (decided c action planned r)
          → Permit c action
      from_decision planned b (err e) p d h = absurd (give-no_call _ h)
      from_decision planned b (ok decision) p d h = from_verdict planned b decision _ p d refl h

      from_plan :
          (r : Result Raised (c.Plan × c.DecisionBinding))
          → plan_dispatch c action ≡ r
          → Calls (planned_for c action r)
          → Permit c action
      from_plan (err e) p h = absurd (give-no_call _ h)
      from_plan (ok (planned, b)) p h = from_decision planned b _ p refl h

module _ {World Args Out : Type 0} (handler : Handler World Args Out) (w : World) where
  run-Calls : {A : Type 0} (p : Procedure Args Out A) → ((run handler p 0 w).2 ≡ w) ⊎ Calls p
  unfolding run
  run-Calls (returns a) = inl refl
  run-Calls (raises e) = inl refl
  run-Calls (calls args next) = inr tt

  module _ (c : Collaborators Args Out) (action : ActionIntent) where
    -- Unless the action was planned, allowed by PrivateVault, and its permit was verified or
    -- claimed, the world after an execution is the one before.
    pub governed_without_permit : ((governed c action handler w).1 ≡ w) ⊎ Permit c action
    unfolding governed execute
    governed_without_permit = elim (run-Calls (decide_and_execute c action)) [
      | inl h ↦ inl h
      | inr h ↦ inr (decide_and_execute-Permit c action h)
    ]

    -- A result EXECUTED rests on a permit, and on a dispatch of the plan, the authorization and the
    -- binding of that permit whose witness and closure were verified; its output is the one of that
    -- dispatch.
    pub governed-Evidence :
        (g : GovernedExecution Out)
        → (governed c action handler w).0 ≡ ok g
        → g.status ≡ ExecutionStatus.executed
        → Evidence c action g
    unfolding governed execute
    governed-Evidence g h e =
        let leaf =
          settle-FromGateway action _ (is_independent c.transport)
            (run handler (decide_and_execute c action) 0 w).0 g h (rw e) in
        let held =
          run-Holds handler (IsAccounted c action) (decide_and_execute c action) 0 w
            (decide_and_execute-Accounted c action) in
        (subst (Holds (IsAccounted c action)) leaf held).executed e
