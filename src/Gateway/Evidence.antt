-- ===== src/Gateway/Evidence.antt =====
-- The stages of `decide_and_execute`, from the last to the first: what each returns is accounted for.
use cbrain.Prelude.{Option, none, some, Bool, false, ◌||◌, Result, ok, err, ◌≡◌, refl, sym, ap}
use mathlib.Core.Path.{subst}
use Prim.Native.String.{◌++◌}
use cbrain.Contracts.{ActionIntent}
use cbrain.Runtime.{Raised, Procedure}
use cbrain.Runtime.Calls.{Leaves, Returned}
use cbrain.Gateway.Permit.{
  Ends, attempt-Leaves, Permit, Sent, Sending, Accounted, IsAccounted, built-Accounted, Makes,
  Makes-if, control_failure-Accounted, indeterminate-Accounted, give-Leaves, fails, close-Accounted,
}
use cbrain.Collaborators.{
  Verdict, Decision, DispatchResult, DispatchInput, Transport, is_independent, Collaborators, give,
  attempt, decision_id,
}
use cbrain.Gateway.{
  conclude, send, answer, dispatch_with, dispatch_input, authorize, execute_allowed, follow,
  decided, planned_for, plan_dispatch, decide_and_execute,
}

module _ {Args Out : Type 0} (c : Collaborators Args Out) (action : ActionIntent) where
  open c use {Plan, DecisionBinding, Issued, Binding, Verified, Witness, Closure, decide, transport}

  conclude-Accounted :
      (permit : Permit c action) (entered : Bool)
      (r : Result Raised (DispatchResult Witness Closure Out))
      → Sending c action permit r
      → Makes c action
          (Accounted c action)
          (conclude c action permit.decision permit.verified entered r)
  unfolding conclude
  conclude-Accounted permit entered (err e) sent =
      Makes-if c action e.not_invoked _ _
        (control_failure-Accounted c action ("dispatch_refused:" ++ e.name)
          (decision_id permit.decision))
        (indeterminate-Accounted c action ("dispatch_failed:" ++ e.name)
          (entered || is_independent transport) (decision_id permit.decision))
  conclude-Accounted permit entered (ok result) sent =
      close-Accounted c action permit entered result _ refl sent

  attempt-Accounted :
      (permit : Permit c action) (p : Procedure Args Out (DispatchResult Witness Closure Out))
      → ((r : Result Raised (DispatchResult Witness Closure Out))
          → Ends p r
          → Sending c action permit r)
      → Leaves (IsAccounted c action) (
          attempt false p
            (λ entered r. give (conclude c action permit.decision permit.verified entered r)))
  attempt-Accounted permit p sending =
      attempt-Leaves (IsAccounted c action) p false
        (λ entered r. give (conclude c action permit.decision permit.verified entered r))
        (λ e r ends. give-Leaves c action _ (conclude-Accounted permit e r (sending r ends)))

  answer-Returned :
      {A : Type 0} (r : Result Raised A) (a : A) → Returned a (answer c action r) → r ≡ ok a
  answer-Returned (ok b) a h = ap ok h
  answer-Returned (err e) a h = absurd h

  independent-Sending :
      (d : DispatchInput Plan Issued Binding → Result Raised (DispatchResult Witness Closure Out))
      → transport ≡ Transport.independent d
      → (permit : Permit c action) (input : Result Raised (DispatchInput Plan Issued Binding))
        (r : Result Raised (DispatchResult Witness Closure Out))
      → Ends (send c action (λ i. answer c action (d i)) input) r
      → dispatch_input c action permit.planned permit.issued permit.binding ≡ input
      → Sending c action permit r
  unfolding send
  independent-Sending d same permit input (err e) ends given = tt
  independent-Sending d same permit (err e) (ok result) ends given = absurd ends
  independent-Sending d same permit (ok i) (ok result) ends given = (
    i,
    given,
    subst (λ t. Sent c action t i result) (sym same) (answer-Returned (d i) result ends),
  )

  bindable-Sending :
      (d : DispatchInput Plan Issued Binding
        → Procedure Args Out (DispatchResult Witness Closure Out))
      → transport ≡ Transport.bindable d
      → (permit : Permit c action) (input : Result Raised (DispatchInput Plan Issued Binding))
        (r : Result Raised (DispatchResult Witness Closure Out))
      → Ends (send c action d input) r
      → dispatch_input c action permit.planned permit.issued permit.binding ≡ input
      → Sending c action permit r
  unfolding send
  bindable-Sending d same permit input (err e) ends given = tt
  bindable-Sending d same permit (err e) (ok result) ends given = absurd ends
  bindable-Sending d same permit (ok i) (ok result) ends given =
      (i, given, subst (λ t. Sent c action t i result) (sym same) ends)

  dispatch_with-Accounted :
      (t : Transport Args Out
        (DispatchInput Plan Issued Binding)
        (DispatchResult Witness Closure Out))
      → transport ≡ t
      → (permit : Permit c action) (input : Result Raised (DispatchInput Plan Issued Binding))
      → dispatch_input c action permit.planned permit.issued permit.binding ≡ input
      → Leaves
          (IsAccounted c action)
          (dispatch_with c action t permit.decision permit.verified input)
  unfolding dispatch_with
  dispatch_with-Accounted (Transport.independent d) same permit input given =
      attempt-Accounted permit _ (λ r ends. independent-Sending d same permit input r ends given)
  dispatch_with-Accounted (Transport.bindable d) same permit input given =
      attempt-Accounted permit _ (λ r ends. bindable-Sending d same permit input r ends given)
  dispatch_with-Accounted (Transport.binding_fails e) same permit input given = tt
  dispatch_with-Accounted Transport.unbindable same permit input given = tt

  follow-Accounted :
      (planned : Plan) (b : DecisionBinding) (decision : Decision) (v : Option Verdict)
      → plan_dispatch c action ≡ ok (planned, b)
      → decide action b ≡ ok decision
      → decision.verdict ≡ v
      → Leaves (IsAccounted c action) (follow c action planned decision v)
  unfolding follow execute_allowed
  follow-Accounted planned b decision (some Verdict.block) p d v =
      give-Leaves c action _ (λ g. built-Accounted c action _ (λ e. cc))
  follow-Accounted planned b decision (some Verdict.require_approval) p d v =
      give-Leaves c action _ (λ g. built-Accounted c action _ (λ e. cc))
  follow-Accounted planned b decision none p d v = fails c action "unknown_verdict"
  follow-Accounted planned b decision (some Verdict.allow) p d v =
      allowed (authorize c action planned decision) refl
    where
      allowed :
          (r : Result Raised (Issued × Binding × Verified))
          → authorize c action planned decision ≡ r
          → Leaves (IsAccounted c action) (execute_allowed c action planned decision r)
      allowed (err e) a = fails c action ("authorization_refused:" ++ e.name)
      allowed (ok (issued, binding, verified)) a =
          dispatch_with-Accounted transport refl
            (record {
              planned = planned;
              decision_binding = b;
              decision = decision;
              issued = issued;
              binding = binding;
              verified = verified;
              is_planned = p;
              is_decided = d;
              is_allowed = v;
              is_authorized = a;
            })
            (dispatch_input c action planned issued binding) refl

  decided-Accounted :
      (planned : Plan) (b : DecisionBinding) (r : Result Raised Decision)
      → plan_dispatch c action ≡ ok (planned, b)
      → decide action b ≡ r
      → Leaves (IsAccounted c action) (decided c action planned r)
  unfolding decided
  decided-Accounted planned b (err e) p d = fails c action ("decision_unavailable:" ++ e.name)
  decided-Accounted planned b (ok decision) p d = follow-Accounted planned b decision _ p d refl

  planned_for-Accounted :
      (r : Result Raised (Plan × DecisionBinding))
      → plan_dispatch c action ≡ r
      → Leaves (IsAccounted c action) (planned_for c action r)
  unfolding planned_for
  planned_for-Accounted (err e) p = fails c action ("dispatch_planning_failed:" ++ e.name)
  planned_for-Accounted (ok (planned, b)) p = decided-Accounted planned b (decide action b) p refl

  -- Every governed execution that the gateway can return is well formed, and if its status is
  -- EXECUTED there was a permit for a plan that PrivateVault allowed, a dispatch under it, and a
  -- witness and a closure of this dispatch that were verified.
  pub decide_and_execute-Accounted : Leaves (IsAccounted c action) (decide_and_execute c action)
  unfolding decide_and_execute
  decide_and_execute-Accounted = planned_for-Accounted (plan_dispatch c action) refl
