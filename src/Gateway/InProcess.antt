-- ===== src/Gateway/InProcess.antt =====
-- cbrain/execution/transport.py: `InProcessDispatchTransport.dispatch`, the development transport.
use cbrain.Prelude.{true, arith, ℕ, List, Option, none, some, Result, ok, err, ◌≡◌, ◌≢◌}
use mathlib.Core.Path.{subst}
use cbrain.Contracts.{ExecutionStatus, GovernedExecution, ActionIntent}
use cbrain.Runtime.{Raised, Procedure, returns, raises, calls, Handler}
use cbrain.Runtime.Calls.{Returned}
use cbrain.Collaborators.{Collaborators, Transport, DispatchInput, DispatchResult, raised}
use cbrain.Gateway.{prove_closure}
use cbrain.Gateway.Permit.{Sent}
use cbrain.Gateway.Governed.{governed, governed-Evidence}

-- `HandlerNotInvoked` and its base class.
abbrev handler_not_invoked : Raised
handler_not_invoked = record { name = "HandlerNotInvoked"; not_invoked = true }

abbrev dispatch_transport_error : Raised
dispatch_transport_error = raised "DispatchTransportError"

-- The parts of the transport: `action.get("parameters")`, which may raise and may be no mapping,
-- the encoder of the response, and the signer of the witness.
pub record InProcessDispatchTransport (Args Out Plan Issued Binding Witness : Type 0) : Type 0 where
  pub parameters : Plan → Result Raised (Option Args)
  pub response_encoder : Out → Result Raised (List ℕ)
  pub witness_signer : DispatchInput Plan Issued Binding → Result Raised Witness

module _ {Args Out Plan Issued Binding Witness : Type 0} (Closure : Type 0)
    (t : InProcessDispatchTransport Args Out Plan Issued Binding Witness) where
  -- From the handler's return to the result, which has no closure.
  unfoldable pub sign :
      DispatchInput Plan Issued Binding
      → Out
      → Result Raised (List ℕ)
      → Result Raised Witness
      → Procedure Args Out (DispatchResult Witness Closure Out)
  sign input output (err e) _ = raises dispatch_transport_error
  sign input output (ok _) (err e) = raises dispatch_transport_error
  sign input output (ok _) (ok witness) =
      returns (record { witness = witness; closure = none; output = some output })

  unfoldable pub after_handler :
      DispatchInput Plan Issued Binding
      → Result Raised Out
      → Procedure Args Out (DispatchResult Witness Closure Out)
  unfolding sign
  after_handler input (err e) = raises dispatch_transport_error
  after_handler input (ok output) =
      sign input output (t.response_encoder output) (t.witness_signer input)

  unfoldable pub with_parameters :
      DispatchInput Plan Issued Binding
      → Result Raised (Option Args)
      → Procedure Args Out (DispatchResult Witness Closure Out)
  unfolding after_handler
  with_parameters input (err e) = raises handler_not_invoked
  with_parameters input (ok none) = raises handler_not_invoked
  with_parameters input (ok (some arguments)) = calls arguments (after_handler input)

  unfoldable pub dispatch :
      DispatchInput Plan Issued Binding → Procedure Args Out (DispatchResult Witness Closure Out)
  unfolding with_parameters
  dispatch input = with_parameters input (t.parameters input.plan)

  sign-Returned :
      (input : DispatchInput Plan Issued Binding) (output : Out) (r : Result Raised (List ℕ))
      (s : Result Raised Witness) (result : DispatchResult Witness Closure Out)
      → Returned result (sign input output r s)
      → result.closure ≡ none
  unfolding sign
  sign-Returned input output (err e) s result h = absurd h
  sign-Returned input output (ok b) (err e) result h = absurd h
  sign-Returned input output (ok b) (ok w) result h = cc

  -- The transport never returns a closure.
  dispatch-no_closure :
      (input : DispatchInput Plan Issued Binding) (result : DispatchResult Witness Closure Out)
      → Returned result (dispatch input)
      → result.closure ≡ none
  unfolding dispatch
  dispatch-no_closure input result = from_parameters (t.parameters input.plan)
    where
      from_handler :
          (r : Result Raised Out) → Returned result (after_handler input r) → result.closure ≡ none
      from_handler (err e) h = absurd h
      from_handler (ok output) h =
          sign-Returned input output (t.response_encoder output) (t.witness_signer input) result h

      from_parameters :
          (r : Result Raised (Option Args))
          → Returned result (with_parameters input r)
          → result.closure ≡ none
      from_parameters (err e) h = absurd h
      from_parameters (ok none) h = absurd h
      from_parameters (ok (some a)) h = from_handler h.0 h.1

prove_closure-needs_closure :
    {Args Out : Type 0} (c : Collaborators Args Out) (action : ActionIntent) (v : c.Verified)
    (result : DispatchResult c.Witness c.Closure Out)
    → result.closure ≡ none
    → prove_closure c action v result ≢ ok tt
unfolding prove_closure
prove_closure-needs_closure c action v result missing h = ground arith

-- A gateway over the in-process transport never reports EXECUTED, whatever its other collaborators
-- and the handler do.
pub in_process_never_executed :
    {World Args Out : Type 0} (c : Collaborators Args Out)
    (t : InProcessDispatchTransport Args Out c.Plan c.Issued c.Binding c.Witness)
    (action : ActionIntent) (handler : Handler World Args Out) (w : World)
    (g : GovernedExecution Out)
    → c.transport ≡ Transport.bindable (dispatch c.Closure t)
    → (governed c action handler w).0 ≡ ok g
    → g.status ≢ ExecutionStatus.executed
in_process_never_executed c t action handler w g same h e =
    let evidence = governed-Evidence handler w c action g h e in
    let sent : Returned evidence.result (dispatch c.Closure t evidence.input) =
      subst (λ x. Sent c action x evidence.input evidence.result) same evidence.is_sent in
    prove_closure-needs_closure c action evidence.permit.verified evidence.result
      (dispatch-no_closure c.Closure t evidence.input evidence.result sent) evidence.is_closed
