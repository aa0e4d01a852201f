-- ===== src/Reviews/Methods.antt =====
-- cbrain/company/durable_approval.py: the methods of `DurableReviewStore`. Each runs in a
-- transaction that is rolled back when it raises. The readings of the clock are arguments.
use cbrain.Prelude.{
  String, Option, none, some, Bool, true, false, ◌&&◌, ◌||◌, not, Result, ok, err, ◌>>=◌, ◌>>◌,
  refuse, str_eq, is_blank, or_else, if◌then◌else◌,
}
use cbrain.Approvals.{
  ApprovalRole, same_role, ApprovalPrincipal, ApprovalInboxError, contains, Directory,
}
use cbrain.Reviews.{
  ReviewState, ReviewRecord, Table, Lease, Change, is_leased, is_frozen, load, replace, insert,
}
use cbrain.Reviews.Expiry.{expire_lease_if_needed}

-- The store's configuration, and the comparisons and the sum of its times: `a <= 0`, `a > b`,
-- `a >= b`, `a < b` and `a + b`.
pub record Deployment (Time : Type 0) : Type 0 where
  pub organisation_id : String
  pub allowed_approvers : Directory
  pub max_ttl_seconds : Time
  pub max_lease_seconds : Time
  pub not_positive : Time → Bool
  pub exceeds : Time → Time → Bool
  pub reached : Time → Time → Bool
  pub before : Time → Time → Bool
  pub plus : Time → Time → Time

-- The clock as one method reads it: to see whether a lease or an approval has run out, for that
-- step's entry in the log, for the method's own test, for its effect, and for its own entry.
pub record Clock (Time : Type 0) : Type 0 where
  pub expiry : Time
  pub expiry_entry : Time
  pub now : Time
  pub effect : Time
  pub entry : Time

-- A method's answer, and the table after its transaction.
abbrev pub transaction :
    {A Time : Type 0}
    → Table Time
    → Result ApprovalInboxError (A × Table Time)
    → Result ApprovalInboxError A × Table Time
transaction t (ok (a, t')) = (ok a, t')
transaction t (err e) = (err e, t)

-- The states in which a review can be parked again.
abbrev pub is_open : ReviewState → Bool
is_open ReviewState.parked = true
is_open ReviewState.leased = true
is_open ReviewState.approved = true
is_open _ = false

abbrev pub can_approve : ReviewState → Bool
can_approve ReviewState.parked = true
can_approve ReviewState.leased = true
can_approve _ = false

abbrev pub owns : Option String → String → Bool
owns none worker = false
owns (some owner) worker = str_eq owner worker

module _ {Time : Type 0} where
  abbrev pub step : String → ReviewState → Lease Time → Change Time
  step event state lease = record {
    event = event;
    state = state;
    lease = lease;
    approval = none;
    consumed_at = none;
    frozen_reason = none;
  }

  abbrev pub approval_by : String → Time → Time → Change Time
  approval_by actor at until = record {
    event = "approved";
    state = ReviewState.approved;
    lease = Lease.clears;
    approval = some (actor, at, until);
    consumed_at = none;
    frozen_reason = none;
  }

  abbrev pub is_before : (Time → Time → Bool) → Time → Option Time → Bool
  is_before before now none = false
  is_before before now (some t) = before now t

  -- `record is None`
  abbrev pub present : Option (ReviewRecord Time) → Result ApprovalInboxError (ReviewRecord Time)
  present none = err ApprovalInboxError.unknown_request
  present (some r) = ok r

  module _ (d : Deployment Time) (c : Clock Time) where
    unfoldable pub park_in :
        String
        → String
        → ApprovalRole
        → Table Time
        → Option (ReviewRecord Time)
        → Result ApprovalInboxError (ReviewRecord Time × Table Time)
    unfolding insert
    park_in request_id digest role t (some r) = do
      refuse (is_frozen r.state) ApprovalInboxError.frozen
      refuse (not (str_eq r.intent_digest digest) || not (same_role r.required_role role))
          ApprovalInboxError.parked_for_another
      refuse (not (is_open r.state)) ApprovalInboxError.wrong_state
      ok (r, t)
    park_in request_id digest role t none =
        let r : ReviewRecord Time = record {
          organisation_id = d.organisation_id;
          request_id = request_id;
          intent_digest = digest;
          required_role = role;
          state = ReviewState.parked;
          lease_owner = none;
          lease_expires_at = none;
          actor_id = none;
          approved_at = none;
          approval_expires_at = none;
          consumed_at = none;
          frozen_reason = none;
          version = 1;
        } in
        ok (r, insert c.entry r "parked" t)

    unfoldable pub park :
        String
        → String
        → ApprovalRole
        → Table Time
        → Result ApprovalInboxError (ReviewRecord Time) × Table Time
    unfolding park_in load
    park request_id digest role t =
        if is_blank digest
        then (err ApprovalInboxError.empty_digest, t)
        else transaction t (park_in request_id digest role t (load d.organisation_id request_id t))

    -- The lease of a worker, granted or renewed.
    unfoldable pub lease_in :
        String
        → Time
        → ReviewRecord Time
        → Table Time
        → Result ApprovalInboxError (ReviewRecord Time × Table Time)
    unfolding replace
    lease_in worker window r t =
        let lease = Lease.sets worker (d.plus c.now window) in
        if is_frozen r.state
        then err ApprovalInboxError.frozen
        else if is_leased r.state
        then (if owns r.lease_owner worker && is_before d.before c.now r.lease_expires_at
            then replace c.entry (step "lease_renewed" ReviewState.leased lease) r t
            else err ApprovalInboxError.lease_held)
        else if not (elim r.state [ ReviewState.parked ↦ true | _ ↦ false ])
        then err ApprovalInboxError.wrong_state
        else replace c.entry (step "leased" ReviewState.leased lease) r t

    unfoldable pub claim_lease :
        String
        → String
        → Option Time
        → Table Time
        → Result ApprovalInboxError (ReviewRecord Time) × Table Time
    unfolding expire_lease_if_needed lease_in
    claim_lease request_id worker lease_seconds t =
        let window = or_else lease_seconds d.max_lease_seconds in
        if is_blank worker
        then (err ApprovalInboxError.empty_worker, t)
        else if d.not_positive window || d.exceeds window d.max_lease_seconds
        then (err ApprovalInboxError.bad_window, t)
        else transaction t (
            expire_lease_if_needed d.reached c.expiry c.expiry_entry d.organisation_id request_id t
            >>= λ x. present x.0 >>= λ r. lease_in worker window r x.1)

    unfoldable pub release_in :
        String
        → ReviewRecord Time
        → Table Time
        → Result ApprovalInboxError (ReviewRecord Time × Table Time)
    unfolding replace
    release_in worker r t =
        if not (is_leased r.state)
        then ok (r, t)
        else if not (owns r.lease_owner worker)
        then err ApprovalInboxError.not_lease_owner
        else replace c.entry (step "lease_released" ReviewState.parked Lease.clears) r t

    unfoldable pub release_lease :
        String → String → Table Time → Result ApprovalInboxError (ReviewRecord Time) × Table Time
    unfolding expire_lease_if_needed release_in
    release_lease request_id worker t = transaction t (
        expire_lease_if_needed d.reached c.expiry c.expiry_entry d.organisation_id request_id t
        >>= λ x. present x.0 >>= λ r. release_in worker r x.1)

    unfoldable pub approve_in :
        ApprovalPrincipal
        → Time
        → ReviewRecord Time
        → Table Time
        → Result ApprovalInboxError (ReviewRecord Time × Table Time)
    unfolding replace
    approve_in principal ttl r t = do
      refuse (is_frozen r.state) ApprovalInboxError.frozen
      refuse (not (can_approve r.state)) ApprovalInboxError.wrong_state
      refuse (not (same_role principal.role r.required_role)) ApprovalInboxError.wrong_role
      refuse (not (contains (d.allowed_approvers principal.role) principal.actor_id))
          ApprovalInboxError.not_allowed
      replace c.entry (approval_by principal.actor_id c.now (d.plus c.now ttl)) r t

    unfoldable pub approve :
        String
        → ApprovalPrincipal
        → Time
        → Table Time
        → Result ApprovalInboxError (ReviewRecord Time) × Table Time
    unfolding expire_lease_if_needed approve_in
    approve request_id principal ttl t =
        if d.not_positive ttl || d.exceeds ttl d.max_ttl_seconds
        then (err ApprovalInboxError.bad_ttl, t)
        else transaction t (
            expire_lease_if_needed d.reached c.expiry c.expiry_entry d.organisation_id request_id t
            >>= λ x. present x.0 >>= λ r. approve_in principal ttl r x.1)
