-- ===== src/Approvals/Reviewed.antt =====
-- When a call behind `ApprovalBoundedGateway` reaches its handler.
use cbrain.Prelude.{
  String, Option, none, some, Bool, true, false, [], ◌∷◌, ◌++◌, Result, ok, err, ◌≡◌, refl, sym, ap,
  ◌∙◌, ◌⊎◌, inl, inr, Bool-cases,
}
use mathlib.Core.Path.{subst}
use cbrain.Json.{Fields}
use cbrain.Contracts.{
  ContractError, ExecutionStatus, GovernedExecution, governed_execution, ActionIntent,
}
use cbrain.Contracts.Validity.{governed_execution-eq}
use cbrain.Collaborators.{outcome}
use cbrain.Runtime.{Raised, Handler}
use cbrain.Approvals.{ApprovalRole, ApprovalInboxError}
use cbrain.Approvals.Inbox.{ApprovalRecord, Inbox, Settings, is_frozen, consume_if_approved}
use cbrain.Approvals.Granted.{IsGranted, consume_if_approved-IsGranted}
use cbrain.Approvals.Bounded.{
  ToolRiskLevel, ArgumentValidationResult, Company, RiskLog, RiskCall, concluded, answered, by_risk,
  by_validation, decision_for_tool, risk_gateway, Bounded, BoundedCall, noted, approved_output,
  parked, refused, consuming, reviewed, after_inner, with_digest, bounded_gateway, is_review,
}

-- The validation and the deployment's risks let the call through without a review.
pub record Allowed (company : Company) (action : ActionIntent) : Type 0 where
  pub validation : ArgumentValidationResult
  pub validated : company.validate action ≡ ok validation
  pub is_valid : validation.is_ok ≡ true
  pub by_spec : decision_for_tool company.tool_risks action.tool_name ≡ ok ToolRiskLevel.allow

module _ {Time World Out : Type 0} (d : Settings Time) (now : Time) (company : Company)
    (handler : Handler World Fields Out) (action : ActionIntent) where
  -- The call consumed the approval of this digest and role.
  pub record Approved (before after : Inbox Time) : Type 0 where
    pub digest : String
    pub role : ApprovalRole
    pub of_action : company.digest_for action ≡ ok digest
    pub required : company.required_role_for action ≡ ok (some role)
    pub granted : (consume_if_approved d now action.request_id digest role before).0 ≡ true
    pub approval : IsGranted d now action.request_id digest role before
    pub used_up : after ≡ (consume_if_approved d now action.request_id digest role before).1

  abbrev Quiet : World → RiskCall World Out → Type 0
  Quiet w x = x.2 ≡ w

  concluded-Quiet :
      (r : Result ContractError (GovernedExecution Out)) (log : RiskLog) (w : World)
      → Quiet w (concluded r log w)
  concluded-Quiet (ok g) log w = refl
  concluded-Quiet (err e) log w = refl

  answered_world :
      (reason : String) (log : RiskLog) (x : Result Raised Out × World)
      → (answered action reason log x).2 ≡ x.1
  answered_world reason log (err e, w) = refl
  answered_world reason log (ok out, w) = concluded-Quiet _ _ w

  -- A call that has run ends in no review.
  abbrev NotReviewed : Result Raised (GovernedExecution Out) → Type 0
  NotReviewed (ok g) = is_review g.status ≡ false
  NotReviewed (err e) = Unit

  answered-NotReviewed :
      (reason : String) (log : RiskLog) (x : Result Raised Out × World)
      → NotReviewed (answered action reason log x).0
  answered-NotReviewed reason log (err e, w) = tt
  answered-NotReviewed reason log (ok out, w) = built (governed_execution g) refl
    where
      g : GovernedExecution Out
      g = outcome ExecutionStatus.executed (some true) false action reason none (some out)

      built :
          (r : Result ContractError (GovernedExecution Out))
          → governed_execution g ≡ r
          → NotReviewed (concluded r log w).0
      built (err e) h = tt
      built (ok g') h = ap (λ x. is_review x.status) (sym (governed_execution-eq g h))

  -- What the gateway inside has done to the world.
  abbrev Ran : World → RiskCall World Out → Type 0
  Ran w x =
      (x.2 ≡ w)
      ⊎ (Allowed company action × (x.2 ≡ (handler action.arguments w).1) × NotReviewed x.0)

  by_risk-Ran :
      (v : ArgumentValidationResult) (log : RiskLog) (w : World)
      (risk : Result Raised ToolRiskLevel)
      → company.validate action ≡ ok v
      → v.is_ok ≡ true
      → decision_for_tool company.tool_risks action.tool_name ≡ risk
      → Ran w (by_risk handler action w risk log)
  unfolding by_risk
  by_risk-Ran v log w (err e) h o r = inl refl
  by_risk-Ran v log w (ok ToolRiskLevel.block) h o r = inl (concluded-Quiet _ log w)
  by_risk-Ran v log w (ok ToolRiskLevel.review) h o r = inl (concluded-Quiet _ log w)
  by_risk-Ran v log w (ok ToolRiskLevel.allow) h o r = inr (
    record { validation = v; validated = h; is_valid = o; by_spec = r },
    answered_world "allow" _ (handler action.arguments w),
    answered-NotReviewed "allow" _ (handler action.arguments w),
  )

  by_validation-Ran :
      (log : RiskLog) (w : World) (v : Result Raised ArgumentValidationResult)
      → company.validate action ≡ v
      → Ran w (by_validation handler action w company v log)
  unfolding by_validation
  by_validation-Ran log w (err e) h = inl refl
  by_validation-Ran log w (ok v) h = elim (Bool-cases v.is_ok) [
    | inl valid ↦
        rw valid
          (by_risk-Ran v log w (decision_for_tool company.tool_risks action.tool_name) h valid refl)
    | inr invalid ↦ rw invalid (inl (concluded-Quiet _ log w))
  ]

  -- What the gateway around it has done to the world and to the inbox.
  abbrev pub Done : Inbox Time → World → BoundedCall Time World Out → Type 0
  Done inbox w x =
      (x.2 ≡ w)
      ⊎ ((Allowed company action × (x.2 ≡ (handler action.arguments w).1))
          ⊎ (Approved inbox x.1.inbox × (x.2 ≡ (handler action.arguments w).1)))

  noted_world :
      (r : Result ContractError (GovernedExecution Out)) (s : Bounded Time) (w : World)
      → (noted r s w).2 ≡ w
  noted_world (ok g) s w = refl
  noted_world (err e) s w = refl

  noted_inbox :
      (r : Result ContractError (GovernedExecution Out)) (s : Bounded Time) (w : World)
      → (noted r s w).1.inbox ≡ s.inbox
  noted_inbox (ok g) s w = refl
  noted_inbox (err e) s w = refl

  approved_output_run :
      (s : Bounded Time) (x : Result Raised Out × World)
      → ((approved_output action s x).1.inbox ≡ s.inbox) × ((approved_output action s x).2 ≡ x.1)
  approved_output_run s (err e, w) = (refl, refl)
  approved_output_run s (ok out, w) = (noted_inbox _ _ w, noted_world _ _ w)

  parked_world :
      (g : GovernedExecution Out) (s : Bounded Time) (w : World)
      (p : Result ApprovalInboxError (Inbox Time))
      → (parked g s w p).2 ≡ w
  parked_world g s w (ok inbox) = refl
  parked_world g s w (err e) = refl

  refused_world :
      (digest : String) (role : ApprovalRole) (g : GovernedExecution Out)
      (o : Option (ApprovalRecord Time)) (s : Bounded Time) (w : World)
      → (refused d now handler action digest role g o s w).2 ≡ w
  unfolding refused
  refused_world digest role g none s w = parked_world g s w _
  refused_world digest role g (some r) s w = elim (Bool-cases r.consumed) [
    | inl used ↦ rw used (noted_world _ s w)
    | inr unused ↦ rw unused (noted_world _ s w)
  ]

  consuming-Done :
      (digest : String) (role : ApprovalRole) (g : GovernedExecution Out) (s : Bounded Time)
      (w : World) (c : Bool × Inbox Time)
      → company.digest_for action ≡ ok digest
      → company.required_role_for action ≡ ok (some role)
      → consume_if_approved d now action.request_id digest role s.inbox ≡ c
      → Done s.inbox w (consuming d now handler action digest role g c s w)
  unfolding consuming
  consuming-Done digest role g s w (true, inbox) h r e =
      let (i, ran) =
        approved_output_run (record s { inbox = inbox }) (handler action.arguments w) in
      inr (
        inr (
          record {
            digest = digest;
            role = role;
            of_action = h;
            required = r;
            granted = ap (λ x. x.0) e;
            approval =
                consume_if_approved-IsGranted d now action.request_id digest role s.inbox
                  (ap (λ x. x.0) e);
            used_up = i ∙ ap (λ x. x.1) (sym e);
          },
          ran,
        ))
  consuming-Done digest role g s w (false, inbox) h r e = inl (refused_world digest role g _ _ w)

  reviewed-Done :
      (digest : String) (g : GovernedExecution Out) (s : Bounded Time) (w : World)
      (o : Result Raised (Option ApprovalRole))
      → company.digest_for action ≡ ok digest
      → company.required_role_for action ≡ o
      → Done s.inbox w (reviewed d now handler action digest g o s w)
  unfolding reviewed
  reviewed-Done digest g s w (err e) h r = inl refl
  reviewed-Done digest g s w (ok none) h r = inl (noted_world _ s w)
  reviewed-Done digest g s w (ok (some role)) h r =
      consuming-Done digest role g s w
        (consume_if_approved d now action.request_id digest role s.inbox) h r refl

  after_inner-Done :
      (digest : String) (s : Bounded Time) (w : World) (x : RiskCall World Out)
      → company.digest_for action ≡ ok digest
      → Ran w x
      → Done s.inbox w (after_inner d now handler action company digest x s)
  unfolding after_inner
  after_inner-Done digest s w (err e, log, w') h (inl same) = inl same
  after_inner-Done digest s w (err e, log, w') h (inr (a, ran, _)) = inr (inl (a, ran))
  after_inner-Done digest s w (ok g, log, w') h (inl same) =
      elim (Bool-cases (is_review g.status)) [
        | inl review ↦ rw review (
            subst
              (λ u. Done s.inbox u (
                reviewed d now handler action digest g (company.required_role_for action)
                  (record s { log = log }) w'))
              same
              (reviewed-Done digest g (record s { log = log }) w' (company.required_role_for action)
                h refl))
        | inr final ↦ rw final (inl same)
      ]
  after_inner-Done digest s w (ok g, log, w') h (inr (a, ran, final)) =
      rw final (inr (inl (a, ran)))

  with_digest-Done :
      (s : Bounded Time) (w : World) (digest : Result Raised String)
      → company.digest_for action ≡ digest
      → Done s.inbox w (with_digest d now handler action company digest s w)
  unfolding with_digest risk_gateway
  with_digest-Done s w (err e) h = inl refl
  with_digest-Done s w (ok digest) h =
      after_inner-Done digest s w (risk_gateway handler action w company s.log) h (
        by_validation-Ran (record s.log { actions = s.log.actions ++ (action ∷ []) }) w
          (company.validate action) refl)

  -- Every call leaves the world as it was, or it has run the handler once, and then either the
  -- validation and the deployment's risks allow the call, or the call used up an approval: the inbox
  -- was not frozen, the request was parked, and it had been approved for the call's digest by an actor
  -- of the required role, in an approval that was not consumed and had not run out.
  pub bounded_gateway-Done :
      (s : Bounded Time) (w : World)
      → Done s.inbox w (bounded_gateway d now handler action company s w)
  unfolding bounded_gateway
  bounded_gateway-Done s w = elim (Bool-cases (is_frozen s.inbox)) [
    | inl frozen ↦ rw frozen (inl (noted_world _ s w))
    | inr thawed ↦ rw thawed (with_digest-Done s w (company.digest_for action) refl)
  ]
