-- ===== src/Approvals/Inbox.antt =====
-- cbrain/company/approval.py: `ApprovalInbox`, which keeps its approvals in memory. A method that
-- raises has not changed the inbox; the reading of the clock is an argument.
use cbrain.Prelude.{
  String, Option, none, some, Bool, true, false, ◌&&◌, ◌||◌, not, is_none, Result, ok, ◌>>=◌, ◌>>◌,
  refuse, or_raise, str_eq, is_blank, if◌then◌else◌,
}
use cbrain.Prelude.Dict.{Dict, lookup, insert}
use cbrain.Approvals.{
  ApprovalRole, same_role, ApprovalPrincipal, ApprovalInboxError, contains, Directory,
}

pub record PendingApproval : Type 0 where
  pub request_id : String
  pub intent_digest : String
  pub required_role : ApprovalRole

pub record ApprovalRecord (Time : Type 0) : Type 0 where
  pub request_id : String
  pub actor_id : String
  pub actor_role : ApprovalRole
  pub intent_digest : String
  pub approved_at : Time
  pub expires_at : Time
  pub consumed : Bool

-- `_pending`, `_approvals` and `_frozen_reason`.
pub record Inbox (Time : Type 0) : Type 0 where
  pub pending : Dict PendingApproval
  pub approvals : Dict (ApprovalRecord Time)
  pub frozen_reason : Option String

-- The directory and the longest validity, with the tests and the sum of the clock's floats:
-- `isfinite(a)`, `a <= 0`, `a > b`, `a >= b` and `a + b`.
pub record Settings (Time : Type 0) : Type 0 where
  pub allowed_approvers : Directory
  pub max_ttl_seconds : Time
  pub is_finite : Time → Bool
  pub not_positive : Time → Bool
  pub exceeds : Time → Time → Bool
  pub reached : Time → Time → Bool
  pub plus : Time → Time → Time

-- The dataclasses' `==`.
abbrev pub same_pending : PendingApproval → PendingApproval → Bool
same_pending a b =
    str_eq a.request_id b.request_id
    && str_eq a.intent_digest b.intent_digest
    && same_role a.required_role b.required_role

abbrev pub is_other : Option PendingApproval → PendingApproval → Bool
is_other none p = false
is_other (some q) p = not (same_pending q p)

module _ {Time : Type 0} where
  unfoldable pub is_frozen : Inbox Time → Bool
  is_frozen s = not (is_none s.frozen_reason)

  unfoldable pub freeze : String → Inbox Time → Result ApprovalInboxError (Inbox Time)
  freeze reason s = do
    refuse (is_blank reason) ApprovalInboxError.empty_reason
    ok (record s { frozen_reason = some reason })

  unfoldable pub park :
      String → String → ApprovalRole → Inbox Time → Result ApprovalInboxError (Inbox Time)
  unfolding is_frozen insert lookup
  park request_id digest role s =
      let pending : PendingApproval = record {
        request_id = request_id;
        intent_digest = digest;
        required_role = role;
      } in
      do
        refuse (is_blank digest) ApprovalInboxError.empty_digest
        refuse (is_frozen s) ApprovalInboxError.frozen
        refuse (is_other (lookup request_id s.pending) pending)
            ApprovalInboxError.parked_for_another
        ok (record s { pending = insert request_id pending s.pending })

  -- The record that `approve` writes for a parked action.
  abbrev pub approved_by :
      Settings Time
      → Time
      → String
      → ApprovalPrincipal
      → Time
      → PendingApproval
      → ApprovalRecord Time
  approved_by d now request_id principal ttl pending = record {
    request_id = request_id;
    actor_id = principal.actor_id;
    actor_role = principal.role;
    intent_digest = pending.intent_digest;
    approved_at = now;
    expires_at = d.plus now ttl;
    consumed = false;
  }

  unfoldable pub approve :
      Settings Time
      → Time
      → String
      → ApprovalPrincipal
      → Time
      → Inbox Time
      → Result ApprovalInboxError (ApprovalRecord Time × Inbox Time)
  unfolding is_frozen insert lookup
  approve d now request_id principal ttl s = do
    refuse (is_blank request_id) ApprovalInboxError.empty_request
    refuse (not (d.is_finite ttl)) ApprovalInboxError.bad_ttl
    refuse (d.not_positive ttl) ApprovalInboxError.bad_ttl
    refuse (d.exceeds ttl d.max_ttl_seconds) ApprovalInboxError.bad_ttl
    refuse (is_frozen s) ApprovalInboxError.frozen
    pending ← or_raise (lookup request_id s.pending) ApprovalInboxError.unknown_request
    refuse (not (same_role principal.role pending.required_role)) ApprovalInboxError.wrong_role
    refuse (not (contains (d.allowed_approvers principal.role) principal.actor_id))
        ApprovalInboxError.not_allowed
    refuse (not (is_none (lookup request_id s.approvals))) ApprovalInboxError.already_recorded
    let r = approved_by d now request_id principal ttl pending
    ok (r, record s { approvals = insert request_id r s.approvals })

  -- The tests of `consume_if_approved` on the pending action and its approval.
  unfoldable pub can_consume :
      Settings Time
      → Time
      → String
      → ApprovalRole
      → Option PendingApproval
      → Option (ApprovalRecord Time)
      → Option (ApprovalRecord Time)
  can_consume d now digest role none r = none
  can_consume d now digest role (some p) none = none
  can_consume d now digest role (some p) (some r) =
      if r.consumed
      then none
      else if not (same_role p.required_role role)
      then none
      else if not (str_eq p.intent_digest digest) || not (str_eq r.intent_digest digest)
      then none
      else if not (same_role p.required_role r.actor_role)
      then none
      else if d.reached now r.expires_at
      then none
      else some r

  unfoldable pub consumed_or_not :
      String → Option (ApprovalRecord Time) → Inbox Time → Bool × Inbox Time
  unfolding insert
  consumed_or_not request_id none s = (false, s)
  consumed_or_not request_id (some r) s =
      (true, record s { approvals = insert request_id (record r { consumed = true }) s.approvals })

  unfoldable pub consume_if_approved :
      Settings Time → Time → String → String → ApprovalRole → Inbox Time → Bool × Inbox Time
  unfolding is_frozen can_consume consumed_or_not lookup
  consume_if_approved d now request_id digest role s =
      if is_frozen s
      then (false, s)
      else consumed_or_not request_id
          (can_consume d now digest role (lookup request_id s.pending)
            (lookup request_id s.approvals))
          s

  unfoldable pub record_for : String → Inbox Time → Option (ApprovalRecord Time)
  unfolding lookup
  record_for request_id s = lookup request_id s.approvals
