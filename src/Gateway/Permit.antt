-- ===== src/Gateway/Permit.antt =====
-- What the gateway has in hand before the handler can run and when it returns, and which of its
-- results need which of it.
use cbrain.Prelude.{
  String, Option, none, some, Bool, true, false, ◌&&◌, ◌||◌, not, Result, ok, err, ◌≡◌, refl,
  if◌then◌else◌, sym,
}
use mathlib.Core.Path.{subst}
use Prim.Native.String.{◌++◌}
use cbrain.Contracts.{
  ContractError, ExecutionStatus, GovernedExecution, governed_execution, ActionIntent,
}
use cbrain.Contracts.Validity.{IsWellFormed, governed_execution-eq, governed_execution-returns}
use cbrain.Runtime.{Raised, Procedure, returns, raises, calls, Answer}
use cbrain.Runtime.Calls.{Leaves, Returned}
use cbrain.Collaborators.{
  Verdict, Decision, DispatchResult, DispatchInput, Transport, is_independent, Collaborators, give,
  attempt, control_failure, indeterminate, decision_id,
}
use cbrain.Gateway.{dispatch_input, prove_closure, close, authorize, plan_dispatch}

-- What a procedure, run under `try`, hands on.
abbrev pub Ends : {Args Out A : Type 0} → Procedure Args Out A → Result Raised A → Type 0
Ends p (ok a) = Returned a p
Ends p (err _) = Unit

module _ {Args Out A B : Type 0} (P : B → Type 0) where
  pub attempt-Leaves :
      (p : Procedure Args Out A) (entered : Bool)
      (k : Bool → Result Raised A → Procedure Args Out B)
      → ((e : Bool) (r : Result Raised A) → Ends p r → Leaves P (k e r))
      → Leaves P (attempt entered p k)
  unfolding attempt
  attempt-Leaves (returns a) entered k h = h entered (ok a) refl
  attempt-Leaves (raises e) entered k h = h entered (err e) tt
  attempt-Leaves (calls args next) entered k h =
      λ r. attempt-Leaves (next r) true k (λ e s ends. h e s (lift r s ends))
    where
      lift :
          (r : Result Raised Out) (s : Result Raised A) → Ends (next r) s → Ends (calls args next) s
      lift r (ok a) ends = (r, ends)
      lift r (err e) ends = tt

module _ {Args Out : Type 0} (c : Collaborators Args Out) (action : ActionIntent) where
  open c use {Plan, DecisionBinding, Issued, Binding, Verified, Witness, Closure, decide, transport}

  -- The action was planned, PrivateVault allowed exactly this plan, and the permit that was issued
  -- for it was verified, or claimed where the transport is not independent.
  pub record Permit : Type 0 where
    pub planned : Plan
    pub decision_binding : DecisionBinding
    pub decision : Decision
    pub issued : Issued
    pub binding : Binding
    pub verified : Verified
    pub is_planned : plan_dispatch c action ≡ ok (planned, decision_binding)
    pub is_decided : decide action decision_binding ≡ ok decision
    pub is_allowed : decision.verdict ≡ some Verdict.allow
    pub is_authorized : authorize c action planned decision ≡ ok (issued, binding, verified)

  -- How the result of a dispatch can come from the transport.
  abbrev pub Sent :
      Transport Args Out (DispatchInput Plan Issued Binding) (DispatchResult Witness Closure Out)
      → DispatchInput Plan Issued Binding
      → DispatchResult Witness Closure Out
      → Type 0
  Sent (Transport.independent dispatch) input result = dispatch input ≡ ok result
  Sent (Transport.bindable dispatch) input result = Returned result (dispatch input)
  Sent _ input result = ⊥

  -- What is known of the end of a dispatch under a permit.
  abbrev pub Sending : Permit → Result Raised (DispatchResult Witness Closure Out) → Type 0
  Sending permit (ok result) =
      (input : DispatchInput Plan Issued Binding) × (dispatch_input c action permit.planned
          permit.issued permit.binding
        ≡ ok input)
      × Sent transport input result
  Sending permit (err _) = Unit

  -- A permit, and a dispatch of its plan, issued authorization and binding whose witness and closure
  -- were verified.
  pub record Evidence (g : GovernedExecution Out) : Type 0 where
    pub permit : Permit
    pub input : DispatchInput Plan Issued Binding
    pub result : DispatchResult Witness Closure Out
    pub is_input : dispatch_input c action permit.planned permit.issued permit.binding ≡ ok input
    pub is_sent : Sent transport input result
    pub is_closed : prove_closure c action permit.verified result ≡ ok tt
    pub same_output : g.output ≡ result.output

  pub record Accounted (g : GovernedExecution Out) : Type 0 where
    pub built : IsWellFormed g
    pub executed : g.status ≡ ExecutionStatus.executed → Evidence g

  abbrev pub IsAccounted : Answer Out → Type 0
  IsAccounted (Answer.execution g) = Accounted g
  IsAccounted Answer.other = ⊥

  pub built-Accounted :
      (x : GovernedExecution Out) {g : GovernedExecution Out}
      → (x.status ≡ ExecutionStatus.executed → Evidence x)
      → governed_execution x ≡ ok g
      → Accounted g
  built-Accounted x proof e =
      let same = governed_execution-eq x e in
      subst Accounted same (record {
        built = subst IsWellFormed (sym same) (governed_execution-returns x e);
        executed = proof;
      })

  -- All that a call of the constructor, if it returns, gives.
  abbrev pub Makes :
      (GovernedExecution Out → Type 0) → Result ContractError (GovernedExecution Out) → Type 0
  Makes P r = (g : GovernedExecution Out) → r ≡ ok g → P g

  pub Makes-if :
      (b : Bool) (x y : Result ContractError (GovernedExecution Out))
      → Makes Accounted x
      → Makes Accounted y
      → Makes Accounted (if b then x else y)
  Makes-if true x y hx hy = hx
  Makes-if false x y hx hy = hy

  pub control_failure-Accounted :
      (reason : String) (id : Option String) → Makes Accounted (control_failure action reason id)
  unfolding control_failure
  control_failure-Accounted reason id g = built-Accounted _ (λ e. cc)

  pub indeterminate-Accounted :
      (reason : String) (entered : Bool) (id : Option String)
      → Makes Accounted (indeterminate action reason entered id)
  unfolding indeterminate
  indeterminate-Accounted reason true id g = built-Accounted _ (λ e. cc)
  indeterminate-Accounted reason false id g = control_failure-Accounted reason id g

  pub give-Leaves :
      (r : Result ContractError (GovernedExecution Out))
      → Makes Accounted r
      → Leaves {Args = Args} IsAccounted (give r)
  unfolding give
  give-Leaves (ok g) h = h g refl
  give-Leaves (err e) h = tt

  pub fails :
      (reason : String)
      → Leaves {Args = Args} IsAccounted (give (control_failure action reason none))
  fails reason = give-Leaves _ (control_failure-Accounted reason none)

  pub close-Accounted :
      (permit : Permit) (entered : Bool) (result : DispatchResult Witness Closure Out)
      (r : Result Raised (Unit {0}))
      → prove_closure c action permit.verified result ≡ r
      → Sending permit (ok result)
      → Makes Accounted (close c action permit.decision entered result r)
  unfolding close
  close-Accounted permit entered result (err e) closed sent =
      indeterminate-Accounted ("closure_unproven:" ++ e.name) (entered || is_independent transport)
        (decision_id permit.decision)
  close-Accounted permit entered result (ok u) closed sent =
      Makes-if (is_independent transport && entered) _ _
        (indeterminate-Accounted "independent_dispatch_entered_local_handler" true
          (decision_id permit.decision))
        (Makes-if (not (is_independent transport) && not entered) _ _
          (indeterminate-Accounted "closure_without_handler_entry" entered
            (decision_id permit.decision))
          (λ g. built-Accounted _ (λ _. record {
            permit = permit;
            input = sent.0;
            result = result;
            is_input = sent.1;
            is_sent = sent.2;
            is_closed = closed;
            same_output = refl;
          })))
