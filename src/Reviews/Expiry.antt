-- ===== src/Reviews/Expiry.antt =====
-- cbrain/company/durable_approval.py: leases and approvals that have run out, which a method notices
-- when it loads a record.
use cbrain.Prelude.{String, Option, none, some, Bool, false, ◌&&◌, Result, ok, err, if◌then◌else◌}
use cbrain.Approvals.{ApprovalInboxError}
use cbrain.Reviews.{
  ReviewState, ReviewRecord, Table, Lease, Change, is_leased, is_approved, load, replace,
}

-- A step inside a transaction: a record that is there, or none.
abbrev pub Loaded : Type 0 → Type 0
Loaded Time = Result ApprovalInboxError (Option (ReviewRecord Time) × Table Time)

module _ {Time : Type 0} where
  -- Whether a time that may be missing is reached.
  abbrev pub is_reached : (Time → Time → Bool) → Time → Option Time → Bool
  is_reached reached now none = false
  is_reached reached now (some t) = reached now t

  abbrev pub replaced : Result ApprovalInboxError (ReviewRecord Time × Table Time) → Loaded Time
  replaced (ok (r, t)) = ok (some r, t)
  replaced (err e) = err e

  abbrev pub lease_expiry : Change Time
  lease_expiry = record {
    event = "lease_expired";
    state = ReviewState.parked;
    lease = Lease.clears;
    approval = none;
    consumed_at = none;
    frozen_reason = none;
  }

  abbrev pub approval_expiry : Change Time
  approval_expiry = record {
    event = "approval_expired";
    state = ReviewState.approval_expired;
    lease = Lease.keeps;
    approval = none;
    consumed_at = none;
    frozen_reason = none;
  }

  module _ (reached : Time → Time → Bool) (now logged : Time) where
    unfoldable pub expire_lease : Option (ReviewRecord Time) → Table Time → Loaded Time
    unfolding replace
    expire_lease none t = ok (none, t)
    expire_lease (some r) t =
        if is_leased r.state && is_reached reached now r.lease_expires_at
        then replaced (replace logged lease_expiry r t)
        else ok (some r, t)

    -- `_expire_lease_if_needed`
    unfoldable pub expire_lease_if_needed : String → String → Table Time → Loaded Time
    unfolding expire_lease load
    expire_lease_if_needed org id t = expire_lease (load org id t) t

    unfoldable pub expire_approval : Option (ReviewRecord Time) → Table Time → Loaded Time
    unfolding replace
    expire_approval none t = ok (none, t)
    expire_approval (some r) t =
        if is_approved r.state && is_reached reached now r.approval_expires_at
        then replaced (replace logged approval_expiry r t)
        else ok (some r, t)

    -- `_expire_approval_if_needed`
    unfoldable pub expire_approval_if_needed : String → String → Table Time → Loaded Time
    unfolding expire_approval load
    expire_approval_if_needed org id t = expire_approval (load org id t) t
