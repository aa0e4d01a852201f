-- ===== src/Tests/Inboxes.antt =====
-- A payment that is reviewed, approved and made once.
use cbrain.Prelude.{
  ℕ, suc, ◌+◌, ltb, leb, String, none, some, Bool, true, false, List, [], ◌∷◌, Result, ok, ◌≡◌, ◌≢◌,
  refl, sym, ap, ◌∙◌, arith, is_blank,
}
use cbrain.Prelude.Dict.{lookup, insert}
use cbrain.Json.{Fields}
use cbrain.Contracts.{ActionIntent, finite, governed_execution, required_text}
use cbrain.Runtime.{Raised, Handler}
use cbrain.Approvals.{ApprovalRole, ApprovalPrincipal}
use cbrain.Approvals.Inbox.{
  Inbox, Settings, is_frozen, park, approve, can_consume, consumed_or_not, consume_if_approved,
  record_for,
}
use cbrain.Approvals.Bounded.{
  ToolRiskLevel, Company, Bounded, decision_for_tool, by_risk, by_validation, risk_gateway, refused,
  consuming, reviewed, after_inner, with_digest, bounded_gateway,
}
use cbrain.Approvals.Once.{Operation, apply, apply_all}
use cbrain.Approvals.Reviewed.{Allowed, Done, bounded_gateway-Done}
use cbrain.Approvals.Single.{inbox_consumption_once, reviewed_request_runs_once}

abbrev actors : ApprovalRole → List String
actors ApprovalRole.controller = "alice" ∷ []
actors _ = []

abbrev settings : Settings ℕ
settings = record {
  allowed_approvers = actors;
  max_ttl_seconds = 3600;
  is_finite = λ t. true;
  not_positive = λ t. leb t 0;
  exceeds = λ a b. ltb b a;
  reached = λ now t. leb t now;
  plus = λ a b. a + b;
}

abbrev payment : ActionIntent
payment = record {
  request_id = "req-1";
  idempotency_key = "req-1";
  agent_id = "accounts";
  framework = "cbrain";
  tool_name = "execute_payment";
  capability = "pay";
  timestamp = finite "0.0";
  arguments = Fields.end;
  context = Fields.end;
  evidence = Fields.end;
}

abbrev company : Company
company = record {
  tool_risks = ("execute_payment", ToolRiskLevel.review) ∷ [];
  validate = λ a. ok (record { is_ok = true; reason = none });
  digest_for = λ a. ok "sha256:aa";
  required_role_for = λ a. ok (some ApprovalRole.controller);
}

-- A handler that counts the payments.
abbrev pay : Handler ℕ Fields String
pay arguments w = (ok "paid", suc w)

abbrev alice : ApprovalPrincipal
alice = record { actor_id = "alice"; role = ApprovalRole.controller }

abbrev empty_inbox : Inbox ℕ
empty_inbox = record { pending = []; approvals = []; frozen_reason = none }

abbrev granted : List (Operation ℕ)
granted =
    Operation.parks "req-1" "sha256:aa" ApprovalRole.controller
    ∷ Operation.approves 10 "req-1" alice 600
    ∷ []

abbrev approved_inbox : Inbox ℕ
approved_inbox = apply_all settings granted empty_inbox

abbrev start : Bounded ℕ
start = record {
  log = record { actions = []; handler_calls = []; last_status = none };
  inbox = approved_inbox;
  handler_calls = [];
}

granted_now :
    (consume_if_approved settings 20 "req-1" "sha256:aa" ApprovalRole.controller approved_inbox).0
    ≡ true
unfolding apply_all apply park approve can_consume consumed_or_not consume_if_approved is_frozen
    lookup insert is_blank
granted_now = refl

inbox_consumption_once_example :
    (consume_if_approved settings 30 "req-1" "sha256:aa" ApprovalRole.controller (
      apply_all settings granted
        (consume_if_approved settings 20 "req-1" "sha256:aa" ApprovalRole.controller
          approved_inbox).1)).0
    ≡ false
inbox_consumption_once_example =
    inbox_consumption_once settings 20 30 "req-1" "sha256:aa" "sha256:aa" ApprovalRole.controller
      ApprovalRole.controller granted approved_inbox granted_now

paid : (bounded_gateway settings 20 pay payment company start 0).2 ≡ 1
unfolding apply_all apply park approve can_consume consumed_or_not consume_if_approved is_frozen
    lookup insert is_blank record_for governed_execution required_text decision_for_tool by_risk
    by_validation risk_gateway refused consuming reviewed after_inner with_digest bounded_gateway
paid = refl

bounded_gateway-Done_example :
    Done settings 20 company pay payment approved_inbox 0
      (bounded_gateway settings 20 pay payment company start 0)
bounded_gateway-Done_example = bounded_gateway-Done settings 20 company pay payment start 0

abbrev is_allow : Result Raised ToolRiskLevel → Bool
is_allow (ok ToolRiskLevel.allow) = true
is_allow _ = false

payment_waits : ¬ (Allowed company payment)
unfolding decision_for_tool lookup
payment_waits a = let e : false ≡ true = ap is_allow a.by_spec in absurd (cc)

changed_world : (bounded_gateway settings 20 pay payment company start 0).2 ≢ 0
changed_world e = absurd (let e' : 1 ≡ 0 = sym paid ∙ e in omega arith)

abbrev later : Bounded ℕ
later = record start {
  inbox =
      apply_all settings granted (bounded_gateway settings 20 pay payment company start 0).1.inbox;
}

reviewed_request_runs_once_example : (bounded_gateway settings 30 pay payment company later 1).2 ≡ 1
reviewed_request_runs_once_example =
    reviewed_request_runs_once settings company 20 30 pay pay payment payment granted start later 0
      1 refl payment_waits payment_waits changed_world refl
