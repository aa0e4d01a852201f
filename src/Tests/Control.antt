-- ===== src/Tests/Control.antt =====
-- One tool call through the runtime and the gateway.
use cbrain.Prelude.{
  ℕ, suc, String, none, some, true, false, ok, ◌≡◌, ◌≢◌, ◌⊎◌, ◌↔◌, refl, is_blank, ap, [], ◌∷◌,
}
use cbrain.Json.{Fields}
use cbrain.Contracts.{
  Float, ExecutionStatus, GovernedExecution, governed_execution, ActionIntent, required_text,
}
use cbrain.Contracts.Validity.{IsWellFormed, governed_execution-ok_iff}
use cbrain.Runtime.{
  Procedure, returns, calls, Handler, Answer, invoke_once, run, settle, execute, contract_failure,
}
use cbrain.Runtime.Safety.{Truthful, execute_at_most_once, execute-Truthful}
use cbrain.Collaborators.{
  Verdict, DispatchResult, DispatchInput, Transport, Collaborators, give, attempt, decision_id,
  control_failure, indeterminate,
}
use cbrain.Gateway.{
  prove_closure, close, conclude, dispatch_input, send, dispatch_with, authorize, execute_allowed,
  follow, decided, planned_for, plan_dispatch, decide_and_execute,
}
use cbrain.Gateway.Entered.{was_entered, HoldsAfter}
use cbrain.Gateway.Candid.{IsCandid, Dispatches, decide_and_execute-Candid}
use cbrain.Gateway.Permit.{Permit, Evidence}
use cbrain.Gateway.Governed.{governed, governed_without_permit, governed-Evidence}
use cbrain.Gateway.InProcess.{
  InProcessDispatchTransport, sign, after_handler, with_parameters, dispatch,
  in_process_never_executed,
}

abbrev refund : ActionIntent
refund = record {
  request_id = "req-1";
  idempotency_key = "req-1";
  agent_id = "agent-1";
  framework = "native";
  tool_name = "refund";
  capability = "payments.refund";
  timestamp = Float.finite "1700000000.0";
  arguments = Fields.end;
  context = Fields.end;
  evidence = Fields.end;
}

-- The world counts the refunds.
abbrev pay : Handler ℕ (Unit {0}) String
pay _ refunds = (ok "paid", suc refunds)

abbrev Channel : Type 0
Channel =
    Transport (Unit {0}) String (DispatchInput (Unit {0}) (Unit {0}) (Unit {0}))
      (DispatchResult (Unit {0}) (Unit {0}) String)

-- Collaborators of which each accepts, for a verdict and a transport.
abbrev over : Verdict → Channel → Collaborators (Unit {0}) String
over verdict channel = record {
  Plan = Unit {0};
  DecisionBinding = Unit {0};
  Issued = Unit {0};
  Binding = Unit {0};
  Verified = Unit {0};
  VerifiedDispatch = Unit {0};
  Witness = Unit {0};
  Closure = Unit {0};
  plan = λ _. ok tt;
  capture_binding = λ _ _. ok tt;
  decide = λ _ _. ok (record { verdict = some verdict; triggered_by = "policy"; sealed = none });
  issue = λ _ _ _. ok tt;
  bind = λ _ _ _. ok tt;
  verify_authorization = λ _ _ _. ok tt;
  verify_and_claim = λ _ _ _. ok tt;
  claim_clock = ok "2024-01-01T00:00:00Z";
  witness_id_factory = λ _. ok "witness-1";
  dispatch_clock = ok "2024-01-01T00:00:01Z";
  verify_dispatch = λ _ _. ok tt;
  verify_closure = λ _ _. ok tt;
  transport = channel;
}

-- A transport that calls the handler once and closes the execution.
abbrev closing : Channel
closing = Transport.bindable (λ _.
    calls tt (λ _. returns (record { witness = tt; closure = some tt; output = some "paid" })))

abbrev paid : GovernedExecution String
paid = record {
  status = ExecutionStatus.executed;
  request_id = "req-1";
  tool_executed = some true;
  reason = "execution_closed";
  decision_id = none;
  output = some "paid";
  retryable = false;
}

paid_run : governed (over Verdict.allow closing) refund pay 0 ≡ (ok paid, 1)
unfolding governed execute run invoke_once settle give attempt decision_id prove_closure close
    conclude dispatch_input send dispatch_with authorize execute_allowed follow decided planned_for
    plan_dispatch decide_and_execute governed_execution required_text is_blank
paid_run = refl

refund_named : is_blank "req-1" ≡ false
unfolding is_blank
refund_named = refl

decide_and_execute-Candid_example :
    HoldsAfter
      (IsCandid refund false (Dispatches (over Verdict.allow closing) refund closing))
      (was_entered (run pay (decide_and_execute (over Verdict.allow closing) refund) 0 0).1)
      (run pay (decide_and_execute (over Verdict.allow closing) refund) 0 0).0
decide_and_execute-Candid_example =
    decide_and_execute-Candid (over Verdict.allow closing) refund pay 0

governed-Evidence_example : Evidence (over Verdict.allow closing) refund paid
governed-Evidence_example =
    governed-Evidence pay 0 (over Verdict.allow closing) refund paid (ap (λ x. x.0) paid_run) refl

governed_without_permit_example :
    ((governed (over Verdict.require_approval closing) refund pay 0).1 ≡ 0)
    ⊎ Permit (over Verdict.require_approval closing) refund
governed_without_permit_example =
    governed_without_permit pay 0 (over Verdict.require_approval closing) refund

-- A gateway that calls the handler twice and claims success.
abbrev twice : Procedure (Unit {0}) String (Answer String)
twice = calls tt (λ _. calls tt (λ _. returns (Answer.execution paid)))

twice_run : (execute false twice refund pay 0).1 ≡ 1
unfolding execute run invoke_once
twice_run = refl

execute_at_most_once_example :
    ((execute false twice refund pay 0).1 ≡ 0)
    ⊎ ((args : Unit {0}) × ((execute false twice refund pay 0).1 ≡ (pay args 0).1))
execute_at_most_once_example = execute_at_most_once false twice refund pay 0

paid-IsWellFormed : IsWellFormed paid
paid-IsWellFormed =
    (governed_execution-ok_iff paid).0
      (unfold governed_execution in unfold required_text in unfold is_blank in refl)

execute-Truthful_example :
    (g : GovernedExecution String) × ((execute false twice refund pay 0).0 ≡ ok g)
    × Truthful false twice refund pay 0 g (execute false twice refund pay 0).1
execute-Truthful_example =
    execute-Truthful false twice refund pay 0 refund_named (λ _ _. paid-IsWellFormed)

governed_execution-ok_iff_example : (governed_execution paid ≡ ok paid) ↔ IsWellFormed paid
governed_execution-ok_iff_example = governed_execution-ok_iff paid

-- The development transport, whose handler runs and whose execution stays unproven.
abbrev development :
    InProcessDispatchTransport (Unit {0}) String (Unit {0}) (Unit {0}) (Unit {0}) (Unit {0})
development = record {
  parameters = λ _. ok (some tt);
  response_encoder = λ _. ok (b'p' ∷ []);
  witness_signer = λ _. ok tt;
}

abbrev in_process : Channel
in_process = Transport.bindable (dispatch (Unit {0}) development)

abbrev unproven : GovernedExecution String
unproven = record {
  status = ExecutionStatus.indeterminate;
  request_id = "req-1";
  tool_executed = none;
  reason = "tool_called_without_executed_status";
  decision_id = none;
  output = none;
  retryable = false;
}

unproven_run : governed (over Verdict.allow in_process) refund pay 0 ≡ (ok unproven, 1)
unfolding governed execute run invoke_once settle give attempt decision_id prove_closure close
    conclude dispatch_input send dispatch_with authorize execute_allowed follow decided planned_for
    plan_dispatch decide_and_execute governed_execution required_text is_blank indeterminate
    control_failure sign after_handler with_parameters dispatch contract_failure
unproven_run = refl

in_process_never_executed_example : unproven.status ≢ ExecutionStatus.executed
in_process_never_executed_example =
    in_process_never_executed (over Verdict.allow in_process) development refund pay 0 unproven refl
      (ap (λ x. x.0) unproven_run)
