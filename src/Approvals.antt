-- ===== src/Approvals.antt =====
-- cbrain/company/approval.py: the roles, the principals and the errors that the two stores of
-- approvals share. Times are floats of a clock: their order and their sum are parameters.
pub mod Inbox
pub mod Granted
pub mod Bounded
pub mod Once
pub mod Reviewed
pub mod Single
use cbrain.Prelude.{String, Bool, true, false, List, [], ◌∷◌, ◌||◌, str_eq, ◌≡◌, refl, ◌↔◌, arith}

pub data ApprovalRole : Type 0 where
  controller counsel code_reviewer buyer_lead : ApprovalRole

-- `is` on two members.
abbrev pub same_role : ApprovalRole → ApprovalRole → Bool
same_role ApprovalRole.controller ApprovalRole.controller = true
same_role ApprovalRole.counsel ApprovalRole.counsel = true
same_role ApprovalRole.code_reviewer ApprovalRole.code_reviewer = true
same_role ApprovalRole.buyer_lead ApprovalRole.buyer_lead = true
same_role _ _ = false

pub same_role_eq : (a b : ApprovalRole) → same_role a b ≡ true → a ≡ b
same_role_eq a b h = ground arith

pub record ApprovalPrincipal : Type 0 where
  pub actor_id : String
  pub role : ApprovalRole

-- Each way in which `ApprovalInboxError` is raised.
pub data ApprovalInboxError : Type 0 where
  empty_digest empty_worker empty_request empty_reason : ApprovalInboxError
  bad_window bad_ttl : ApprovalInboxError
  frozen unknown_request parked_for_another wrong_state : ApprovalInboxError
  lease_held not_lease_owner wrong_role not_allowed already_recorded conflict : ApprovalInboxError

-- `actor_id in allowed`
abbrev pub contains : List String → String → Bool
contains [] a = false
contains (x ∷ xs) a = str_eq x a || contains xs a

-- The deployment's directory: the actors of each role.
abbrev pub Directory : Type 0
Directory = ApprovalRole → List String
