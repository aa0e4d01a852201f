-- ===== src/Gateway/Candid.antt =====
-- What the gateway itself answers of the handler, before the runtime tests it.
use cbrain.Prelude.{
  String, Option, none, some, Bool, true, false, ◌||◌, ◌&&◌, not, Result, ok, err, ◌≡◌, refl, ◌⊎◌,
  inl, inr, arith, if◌then◌else◌, sym,
}
use mathlib.Core.Path.{subst}
use Prim.Native.String.{◌++◌}
use cbrain.Contracts.{
  ContractError, ExecutionStatus, GovernedExecution, governed_execution, ActionIntent,
}
use cbrain.Contracts.Validity.{governed_execution-eq}
use cbrain.Runtime.{Raised, Procedure, Handler, Answer, run}
use cbrain.Gateway.Entered.{
  was_entered, LeavesAfter, HoldsAfter, run-HoldsAfter, Raises, EndsWith, attempt-LeavesAfter,
}
use cbrain.Collaborators.{
  Verdict, Decision, DispatchResult, DispatchInput, Transport, is_independent, Collaborators, give,
  attempt, control_failure, indeterminate,
}
use cbrain.Gateway.{
  send, answer, prove_closure, close, conclude, dispatch_with, dispatch_input, authorize,
  execute_allowed, follow, decided, planned_for, plan_dispatch, decide_and_execute,
}

-- The dispatch raised that it has not called the handler, and the reason says so.
abbrev pub IsRefused : (Raised → Type 0) → String → Type 0
IsRefused FromDispatch reason =
    (e : Raised) × FromDispatch e
    × (e.not_invoked ≡ true)
    × (reason ≡ "dispatch_refused:" ++ e.name)

module _ {Out : Type 0} (action : ActionIntent) (independent : Bool)
    (FromDispatch : Raised → Type 0) where
  -- An answer is candid about whether the handler was called: it denies a run only where it was not
  -- called, or the transport says so; it is EXECUTED only where it was called, or the transport is
  -- independent and it was not; and it leaves the run open only where one of these may have run it.
  pub record Candid (entered : Bool) (g : GovernedExecution Out) : Type 0 where
    pub same_request : g.request_id ≡ action.request_id
    pub denied : g.tool_executed ≡ some false → (entered ≡ false) ⊎ IsRefused FromDispatch g.reason
    pub executed : g.status ≡ ExecutionStatus.executed → entered ≡ not independent
    pub unknown : g.tool_executed ≡ none → (entered || independent) ≡ true

  abbrev pub IsCandid : Bool → Answer Out → Type 0
  IsCandid entered (Answer.execution g) = Candid entered g
  IsCandid entered Answer.other = ⊥

  abbrev Gives : Bool → Result ContractError (GovernedExecution Out) → Type 0
  Gives entered r = (g : GovernedExecution Out) → r ≡ ok g → Candid entered g

  built-Gives :
      (entered : Bool) (x : GovernedExecution Out)
      → Candid entered x
      → Gives entered (governed_execution x)
  built-Gives entered x candid g h = subst (Candid entered) (governed_execution-eq x h) candid

  Gives-if :
      (entered b : Bool) (x y : Result ContractError (GovernedExecution Out))
      → (b ≡ true → Gives entered x)
      → (b ≡ false → Gives entered y)
      → Gives entered (if b then x else y)
  Gives-if entered true x y h k = h refl
  Gives-if entered false x y h k = k refl

  control_failure-Gives :
      (entered : Bool) (reason : String) (id : Option String)
      → (entered ≡ false) ⊎ IsRefused FromDispatch reason
      → Gives entered (control_failure action reason id)
  unfolding control_failure
  control_failure-Gives entered reason id h = built-Gives entered _ (record {
    same_request = refl;
    denied = λ _. h;
    executed = λ e. absurd (cc);
    unknown = λ e. absurd (cc);
  })

  indeterminate-Gives :
      (entered possible : Bool) (reason : String) (id : Option String)
      → (possible ≡ false → entered ≡ false)
      → (possible ≡ true → (entered || independent) ≡ true)
      → Gives entered (indeterminate action reason possible id)
  unfolding indeterminate
  indeterminate-Gives entered false reason id h k =
      control_failure-Gives entered reason id (inl (h refl))
  indeterminate-Gives entered true reason id h k = built-Gives entered _ (record {
    same_request = refl;
    denied = λ e. absurd (cc);
    executed = λ e. absurd (cc);
    unknown = λ _. k refl;
  })

module _ {Args Out : Type 0} (c : Collaborators Args Out) (action : ActionIntent) where
  open c use {Plan, DecisionBinding, Issued, Binding, Verified, Witness, Closure, decide, transport}

  -- An exception that the transport's dispatch of some authorization raises.
  abbrev pub Dispatches :
      Transport Args Out (DispatchInput Plan Issued Binding) (DispatchResult Witness Closure Out)
      → Raised
      → Type 0
  Dispatches (Transport.independent d) e =
      (planned : Plan) × (issued : Issued) × (binding : Binding) × Raises e (
        send c action (λ i. answer c action (d i)) (dispatch_input c action planned issued binding))
  Dispatches (Transport.bindable d) e =
      (planned : Plan) × (issued : Issued) × (binding : Binding) × Raises e
        (send c action d (dispatch_input c action planned issued binding))
  Dispatches _ e = ⊥

  abbrev After : Bool → Procedure Args Out (Answer Out) → Type 0
  After = LeavesAfter (IsCandid action (is_independent transport) (Dispatches transport))

  give-After :
      (entered : Bool) (r : Result ContractError (GovernedExecution Out))
      → Gives action (is_independent transport) (Dispatches transport) entered r
      → After entered (give r)
  unfolding give
  give-After entered (ok g) h = h g refl
  give-After entered (err e) h = tt

  fails : (reason : String) → After false (give (control_failure action reason none))
  fails reason = give-After false _ (
      control_failure-Gives action (is_independent transport) (Dispatches transport) false reason
        none (inl refl))

  ends :
      (x : GovernedExecution Out)
      → Candid action (is_independent transport) (Dispatches transport) false x
      → After false (give (governed_execution x))
  ends x candid =
      give-After false _
        (built-Gives action (is_independent transport) (Dispatches transport) false x candid)

  possible_false : (entered independent : Bool) → (entered || independent) ≡ false → entered ≡ false
  possible_false entered independent h = ground arith

  close-Gives :
      (decision : Decision) (entered : Bool) (result : DispatchResult Witness Closure Out)
      (r : Result Raised (Unit {0}))
      → Gives action
          (is_independent transport)
          (Dispatches transport)
          entered
          (close c action decision entered result r)
  unfolding close
  close-Gives decision entered result (err e) =
      indeterminate-Gives action _ _ entered (entered || is_independent transport) _ _
        (possible_false entered (is_independent transport)) (λ h. h)
  close-Gives decision entered result (ok u) =
      let i = is_independent transport in
      Gives-if action i _ entered (i && entered) _ _
        (λ h.
          indeterminate-Gives action i _ entered true _ _ (λ e. absurd (cc))
            (λ _. both i entered h))
        (λ remote.
          Gives-if action i _ entered (not i && not entered) _ _
            (λ h.
              indeterminate-Gives action i _ entered entered _ _ (λ e. e)
                (λ e. absurd (silent i entered h e)))
            (λ local. built-Gives action i _ entered _ (record {
              same_request = refl;
              denied = λ e. absurd (cc);
              executed = λ _. exactly i entered remote local;
              unknown = λ e. absurd (cc);
            })))
    where
      both : (i e : Bool) → (i && e) ≡ true → (e || i) ≡ true
      both i e h = ground arith

      silent : (i e : Bool) → (not i && not e) ≡ true → e ≡ true → ⊥
      silent i e h k = ground arith

      exactly : (i e : Bool) → (i && e) ≡ false → (not i && not e) ≡ false → e ≡ not i
      exactly i e h k = ground arith

  -- How the dispatch ended.
  abbrev Came : Result Raised (DispatchResult Witness Closure Out) → Type 0
  Came (ok result) = Unit
  Came (err e) = Dispatches transport e

  conclude-Gives :
      (decision : Decision) (verified : Verified) (entered : Bool)
      (r : Result Raised (DispatchResult Witness Closure Out))
      → Came r
      → Gives action
          (is_independent transport)
          (Dispatches transport)
          entered
          (conclude c action decision verified entered r)
  unfolding conclude
  conclude-Gives decision verified entered (err e) came =
      Gives-if action _ _ entered e.not_invoked _ _
        (λ refused. control_failure-Gives action _ _ entered _ _ (inr (e, came, refused, refl)))
        (λ _.
          indeterminate-Gives action _ _ entered (entered || is_independent transport) _ _
            (possible_false entered (is_independent transport)) (λ h. h))
  conclude-Gives decision verified entered (ok result) came =
      close-Gives decision entered result (prove_closure c action verified result)

  attempt-After :
      (decision : Decision) (verified : Verified)
      (p : Procedure Args Out (DispatchResult Witness Closure Out))
      → ((e : Raised) → Raises e p → Dispatches transport e)
      → After false
          (attempt false p (λ entered r. give (conclude c action decision verified entered r)))
  attempt-After decision verified p came =
      attempt-LeavesAfter (IsCandid action (is_independent transport) (Dispatches transport)) p
        false _ (λ e r ends. give-After e _ (conclude-Gives decision verified e r (from r ends)))
    where
      from : (r : Result Raised (DispatchResult Witness Closure Out)) → EndsWith p r → Came r
      from (ok result) ends = tt
      from (err e) ends = came e ends

  dispatch_with-After :
      (t : Transport Args Out
        (DispatchInput Plan Issued Binding)
        (DispatchResult Witness Closure Out))
      → transport ≡ t
      → (decision : Decision) (verified : Verified) (planned : Plan) (issued : Issued)
        (binding : Binding)
      → After false (
          dispatch_with c action t decision verified
            (dispatch_input c action planned issued binding))
  unfolding dispatch_with
  dispatch_with-After (Transport.independent d) same decision verified planned issued binding =
      attempt-After decision verified _
        (λ e h. subst (λ t. Dispatches t e) (sym same) (planned, issued, binding, h))
  dispatch_with-After (Transport.bindable d) same decision verified planned issued binding =
      attempt-After decision verified _
        (λ e h. subst (λ t. Dispatches t e) (sym same) (planned, issued, binding, h))
  dispatch_with-After (Transport.binding_fails e) same decision verified planned issued binding = tt
  dispatch_with-After Transport.unbindable same decision verified planned issued binding = tt

  execute_allowed-After :
      (planned : Plan) (decision : Decision) (r : Result Raised (Issued × Binding × Verified))
      → After false (execute_allowed c action planned decision r)
  unfolding execute_allowed
  execute_allowed-After planned decision (err e) = fails ("authorization_refused:" ++ e.name)
  execute_allowed-After planned decision (ok (issued, binding, verified)) =
      dispatch_with-After transport refl decision verified planned issued binding

  follow-After :
      (planned : Plan) (decision : Decision) (v : Option Verdict)
      → After false (follow c action planned decision v)
  unfolding follow
  follow-After planned decision (some Verdict.block) = ends _ (record {
    same_request = refl;
    denied = λ _. inl refl;
    executed = λ e. absurd (cc);
    unknown = λ e. absurd (cc);
  })
  follow-After planned decision (some Verdict.require_approval) = ends _ (record {
    same_request = refl;
    denied = λ _. inl refl;
    executed = λ e. absurd (cc);
    unknown = λ e. absurd (cc);
  })
  follow-After planned decision (some Verdict.allow) =
      execute_allowed-After planned decision (authorize c action planned decision)
  follow-After planned decision none = fails "unknown_verdict"

  decided-After :
      (planned : Plan) (r : Result Raised Decision) → After false (decided c action planned r)
  unfolding decided
  decided-After planned (err e) = fails ("decision_unavailable:" ++ e.name)
  decided-After planned (ok decision) = follow-After planned decision decision.verdict

  planned_for-After :
      (r : Result Raised (Plan × DecisionBinding)) → After false (planned_for c action r)
  unfolding planned_for
  planned_for-After (err e) = fails ("dispatch_planning_failed:" ++ e.name)
  planned_for-After (ok (planned, b)) = decided-After planned (decide action b)

  -- What the gateway returns is a governed execution of the action's request, and candid about the
  -- handler, also before the runtime tests it: it denies a run only where the handler was not entered,
  -- or the transport's dispatch raised that it had not called it; it is EXECUTED only where a bound
  -- transport has entered the handler, or an independent one has not; and it leaves the run open only
  -- where the handler was entered or the transport is independent.
  pub decide_and_execute-Candid :
      {World : Type 0} (handler : Handler World Args Out) (w : World)
      → HoldsAfter
          (IsCandid action (is_independent transport) (Dispatches transport))
          (was_entered (run handler (decide_and_execute c action) 0 w).1)
          (run handler (decide_and_execute c action) 0 w).0
  unfolding decide_and_execute
  decide_and_execute-Candid handler w =
      run-HoldsAfter handler (IsCandid action (is_independent transport) (Dispatches transport))
        (planned_for c action (plan_dispatch c action)) 0 w
        (planned_for-After (plan_dispatch c action))
