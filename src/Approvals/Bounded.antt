-- ===== src/Approvals/Bounded.antt =====
-- cbrain/evaluation/company_gateway.py: `CompanyRiskGateway`, and cbrain/company/approval.py:
-- `ApprovalBoundedGateway` around it, which lets a reviewed call through once. The validation of a
-- call, the digest and the role of an action, and the handler are arguments.
use cbrain.Prelude.{
  String, Option, none, some, Bool, true, false, not, List, [], ◌∷◌, ◌++◌, Result, ok, err,
  or_raise, if◌then◌else◌,
}
use Prim.Native.String.{◌++◌ as append}
use cbrain.Prelude.Dict.{Dict, lookup}
use cbrain.Contracts.{
  ContractError, ExecutionStatus, GovernedExecution, governed_execution, ActionIntent, or_default,
}
use cbrain.Runtime.{Raised, Handler}
use cbrain.Collaborators.{raised, outcome}
use cbrain.Json.{Fields}
use cbrain.Approvals.{ApprovalRole, ApprovalInboxError}
use cbrain.Approvals.Inbox.{
  Inbox, Settings, ApprovalRecord, is_frozen, consume_if_approved, record_for, park,
}

pub data ToolRiskLevel : Type 0 where
  allow review block : ToolRiskLevel

pub record ArgumentValidationResult : Type 0 where
  pub is_ok : Bool
  pub reason : Option String

-- `actions`, `handler_calls` and `last_status` of `CompanyRiskGateway`.
pub record RiskLog : Type 0 where
  pub actions : List ActionIntent
  pub handler_calls : List String
  pub last_status : Option ExecutionStatus

-- What the deployment gives both gateways.
pub record Company : Type 0 where
  pub tool_risks : Dict ToolRiskLevel
  pub validate : ActionIntent → Result Raised ArgumentValidationResult
  pub digest_for : ActionIntent → Result Raised String
  pub required_role_for : ActionIntent → Result Raised (Option ApprovalRole)

abbrev pub is_review : ExecutionStatus → Bool
is_review ExecutionStatus.review_required = true
is_review _ = false

-- `CompanyAgentSpec.decision_for_tool`
unfoldable pub decision_for_tool : Dict ToolRiskLevel → String → Result Raised ToolRiskLevel
unfolding lookup
decision_for_tool risks tool = or_raise (lookup tool risks) (raised "ValueError")

-- A gateway's call: what it returns or raises, its log, and the world after it.
abbrev pub RiskCall : Type 0 → Type 0 → Type 0
RiskCall World Out = Result Raised (GovernedExecution Out) × RiskLog × World

module _ {World Out : Type 0} where
  -- `execution = GovernedExecution(...)`, `self.last_status = execution.status`.
  abbrev pub concluded :
      Result ContractError (GovernedExecution Out) → RiskLog → World → RiskCall World Out
  concluded (err e) log w = (err (raised "ContractError"), log, w)
  concluded (ok g) log w = (ok g, record log { last_status = some g.status }, w)

  -- The handler's call, and the execution with its output.
  abbrev pub answered :
      ActionIntent → String → RiskLog → Result Raised Out × World → RiskCall World Out
  answered action reason log (err e, w) = (err e, log, w)
  answered action reason log (ok out, w) =
      concluded
        (governed_execution
          (outcome ExecutionStatus.executed (some true) false action reason none (some out)))
        log w

  module _ (handler : Handler World Fields Out) (action : ActionIntent) (w : World) where
    unfoldable pub by_risk : Result Raised ToolRiskLevel → RiskLog → RiskCall World Out
    unfolding governed_execution
    by_risk (err e) log = (err e, log, w)
    by_risk (ok ToolRiskLevel.block) log =
        concluded
          (governed_execution (
            outcome ExecutionStatus.blocked (some false) false action "blocked_by_policy" none
              none))
          log w
    by_risk (ok ToolRiskLevel.review) log =
        concluded
          (governed_execution (
            outcome ExecutionStatus.review_required (some false) false action "review_required" none
              none))
          log w
    by_risk (ok ToolRiskLevel.allow) log =
        answered action "allow"
          (record log { handler_calls = log.handler_calls ++ (action.tool_name ∷ []) })
          (handler action.arguments w)

    unfoldable pub by_validation :
        Company → Result Raised ArgumentValidationResult → RiskLog → RiskCall World Out
    unfolding by_risk decision_for_tool governed_execution
    by_validation company (err e) log = (err e, log, w)
    by_validation company (ok v) log =
        if not v.is_ok
        then concluded
            (governed_execution (
              outcome ExecutionStatus.blocked (some false) false action
                (or_default v.reason "blocked_by_validation") none none))
            log w
        else by_risk (decision_for_tool company.tool_risks action.tool_name) log

    -- `CompanyRiskGateway.decide_and_execute`
    unfoldable pub risk_gateway : Company → RiskLog → RiskCall World Out
    unfolding by_validation
    risk_gateway company log =
        by_validation company (company.validate action)
          (record log { actions = log.actions ++ (action ∷ []) })

-- The state of an `ApprovalBoundedGateway`, with that of its inbox and of the gateway inside.
pub record Bounded (Time : Type 0) : Type 0 where
  pub log : RiskLog
  pub inbox : Inbox Time
  pub handler_calls : List String

abbrev pub BoundedCall : Type 0 → Type 0 → Type 0 → Type 0
BoundedCall Time World Out = Result Raised (GovernedExecution Out) × Bounded Time × World

abbrev pub frozen_text : Option String → String
frozen_text none = "None"
frozen_text (some reason) = reason

module _ {Time World Out : Type 0} where
  -- The execution is built, and its status is noted in the gateway inside.
  abbrev pub noted :
      Result ContractError (GovernedExecution Out)
      → Bounded Time
      → World
      → BoundedCall Time World Out
  noted (err e) s w = (err (raised "ContractError"), s, w)
  noted (ok g) s w = (ok g, record s { log = record s.log { last_status = some g.status } }, w)

  abbrev pub approved_output :
      ActionIntent → Bounded Time → Result Raised Out × World → BoundedCall Time World Out
  approved_output action s (err e, w) = (err e, s, w)
  approved_output action s (ok out, w) =
      noted
        (governed_execution (
          outcome ExecutionStatus.executed (some true) false action "approved_review" none
            (some out)))
        (record s {
          log = record s.log { handler_calls = s.log.handler_calls ++ (action.tool_name ∷ []) };
          handler_calls = s.handler_calls ++ (action.tool_name ∷ []);
        })
        w

  abbrev pub parked :
      GovernedExecution Out
      → Bounded Time
      → World
      → Result ApprovalInboxError (Inbox Time)
      → BoundedCall Time World Out
  parked g s w (err e) = (err (raised "ApprovalInboxError"), s, w)
  parked g s w (ok inbox) = (ok g, record s { inbox = inbox }, w)

  module _ (d : Settings Time) (now : Time) (handler : Handler World Fields Out)
      (action : ActionIntent) where
    -- What a call that was not consumed gets.
    unfoldable pub refused :
        String
        → ApprovalRole
        → GovernedExecution Out
        → Option (ApprovalRecord Time)
        → Bounded Time
        → World
        → BoundedCall Time World Out
    unfolding governed_execution park
    refused digest role g (some r) s w =
        if r.consumed
        then noted
            (governed_execution (
              outcome ExecutionStatus.blocked (some false) false action "approval_already_consumed"
                none none))
            s w
        else noted
            (governed_execution (
              outcome ExecutionStatus.control_failure (some false) false action
                "approval_role_mismatch" none none))
            s w
    refused digest role g none s w = parked g s w (park action.request_id digest role s.inbox)

    -- The approval is used up before the handler is called, so that it is gone also if that raises.
    unfoldable pub consuming :
        String
        → ApprovalRole
        → GovernedExecution Out
        → Bool × Inbox Time
        → Bounded Time
        → World
        → BoundedCall Time World Out
    unfolding refused record_for
    consuming digest role g (true, inbox) s w =
        approved_output action (record s { inbox = inbox }) (handler action.arguments w)
    consuming digest role g (false, inbox) s w =
        refused digest role g (record_for action.request_id inbox) (record s { inbox = inbox }) w

    unfoldable pub reviewed :
        String
        → GovernedExecution Out
        → Result Raised (Option ApprovalRole)
        → Bounded Time
        → World
        → BoundedCall Time World Out
    unfolding consuming consume_if_approved governed_execution
    reviewed digest g (err e) s w = (err e, s, w)
    reviewed digest g (ok none) s w =
        noted
          (governed_execution (
            outcome ExecutionStatus.control_failure (some false) false action
              "approval_role_not_configured" none none))
          s w
    reviewed digest g (ok (some role)) s w =
        consuming digest role g (consume_if_approved d now action.request_id digest role s.inbox) s
          w

    unfoldable pub after_inner :
        Company → String → RiskCall World Out → Bounded Time → BoundedCall Time World Out
    unfolding reviewed
    after_inner company digest (err e, log, w) s = (err e, record s { log = log }, w)
    after_inner company digest (ok g, log, w) s =
        if not (is_review g.status)
        then (ok g, record s { log = log }, w)
        else reviewed digest g (company.required_role_for action) (record s { log = log }) w

    unfoldable pub with_digest :
        Company → Result Raised String → Bounded Time → World → BoundedCall Time World Out
    unfolding after_inner risk_gateway
    with_digest company (err e) s w = (err e, s, w)
    with_digest company (ok digest) s w =
        after_inner company digest (risk_gateway handler action w company s.log) s

    -- `ApprovalBoundedGateway.decide_and_execute`
    unfoldable pub bounded_gateway : Company → Bounded Time → World → BoundedCall Time World Out
    unfolding is_frozen with_digest governed_execution
    bounded_gateway company s w =
        if is_frozen s.inbox
        then noted
            (governed_execution (
              outcome ExecutionStatus.control_failure (some false) false action
                (append "inbox_frozen:" (frozen_text s.inbox.frozen_reason)) none none))
            s w
        else with_digest company (company.digest_for action) s w
