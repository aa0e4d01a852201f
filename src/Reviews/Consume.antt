-- ===== src/Reviews/Consume.antt =====
-- cbrain/company/durable_approval.py: `consume_if_approved`, `freeze` and `get`, and what workers do
-- with the table in any order.
use cbrain.Prelude.{
  String, Option, none, some, Bool, true, false, ◌||◌, not, List, [], ◌∷◌, Result, ok, err, ◌>>=◌,
  str_eq, is_blank, if◌then◌else◌,
}
use cbrain.Approvals.{ApprovalRole, same_role, ApprovalPrincipal, ApprovalInboxError}
use cbrain.Reviews.{
  ReviewState, ReviewRecord, Table, Lease, Change, is_approved, is_frozen, load, replace,
}
use cbrain.Reviews.Expiry.{
  is_reached, approval_expiry, expire_lease_if_needed, expire_approval_if_needed,
}
use cbrain.Reviews.Methods.{
  Deployment, Clock, transaction, park, claim_lease, release_lease, approve,
}

-- The calls of all workers, each with its deployment and its clock.
pub data Call (Time : Type 0) : Type 0 where
  parks : String → String → ApprovalRole → Call Time
  claims : String → String → Option Time → Call Time
  releases : String → String → Call Time
  approves : String → ApprovalPrincipal → Time → Call Time
  consumes : String → String → ApprovalRole → Call Time
  freezes : String → Call Time
  gets : String → Call Time

module _ {Time : Type 0} where
  -- A replacement that the method answers by a Boolean.
  abbrev pub answered :
      Bool
      → Result ApprovalInboxError (ReviewRecord Time × Table Time)
      → Result ApprovalInboxError (Bool × Table Time)
  answered b (ok (r, t)) = ok (b, t)
  answered b (err e) = err e

  abbrev pub consumption : Time → Change Time
  consumption at = record {
    event = "consumed";
    state = ReviewState.consumed;
    lease = Lease.keeps;
    approval = none;
    consumed_at = some at;
    frozen_reason = none;
  }

  abbrev pub freezing : String → Change Time
  freezing reason = record {
    event = "frozen";
    state = ReviewState.frozen;
    lease = Lease.clears;
    approval = none;
    consumed_at = none;
    frozen_reason = some reason;
  }

  -- The requests of an organisation.
  unfoldable pub requests_of : String → Table Time → List String
  requests_of org [] = []
  requests_of org (row ∷ t) =
      let rest = requests_of org t in
      if str_eq row.review.organisation_id org then row.review.request_id ∷ rest else rest

  module _ (d : Deployment Time) (c : Clock Time) where
    unfoldable pub consume_in :
        String
        → ApprovalRole
        → Option (ReviewRecord Time)
        → Table Time
        → Result ApprovalInboxError (Bool × Table Time)
    unfolding replace
    consume_in digest role none t = ok (false, t)
    consume_in digest role (some r) t =
        if is_frozen r.state
        then ok (false, t)
        else if not (is_approved r.state)
        then ok (false, t)
        else if not (same_role r.required_role role) || not (str_eq r.intent_digest digest)
        then ok (false, t)
        else if is_reached d.reached c.now r.approval_expires_at
        then answered false (replace c.entry approval_expiry r t)
        else answered true (replace c.entry (consumption c.effect) r t)

    unfoldable pub consume_if_approved :
        String → String → ApprovalRole → Table Time → Result ApprovalInboxError Bool × Table Time
    unfolding expire_approval_if_needed consume_in
    consume_if_approved request_id digest role t = transaction t (
        expire_approval_if_needed d.reached c.expiry c.expiry_entry d.organisation_id request_id t
        >>= λ x. consume_in digest role x.0 x.1)

    -- One round of the loop of `freeze`.
    unfoldable pub freeze_one :
        String
        → Option (ReviewRecord Time)
        → Table Time
        → Result ApprovalInboxError (Unit {0} × Table Time)
    unfolding replace
    freeze_one reason none t = ok (tt, t)
    freeze_one reason (some r) t =
        if is_frozen r.state
        then ok (tt, t)
        else (replace c.entry (freezing reason) r t >>= λ x. ok (tt, x.1))

    unfoldable pub freeze_all :
        String → List String → Table Time → Result ApprovalInboxError (Unit {0} × Table Time)
    unfolding freeze_one load
    freeze_all reason [] t = ok (tt, t)
    freeze_all reason (id ∷ ids) t =
        freeze_one reason (load d.organisation_id id t) t >>= λ x. freeze_all reason ids x.1

    unfoldable pub freeze : String → Table Time → Result ApprovalInboxError (Unit {0}) × Table Time
    unfolding freeze_all requests_of
    freeze reason t =
        if is_blank reason
        then (err ApprovalInboxError.empty_reason, t)
        else transaction t (freeze_all reason (requests_of d.organisation_id t) t)

    abbrev pub or_record :
        Option (ReviewRecord Time) → Option (ReviewRecord Time) → Option (ReviewRecord Time)
    or_record none old = old
    or_record (some r) old = some r

    -- `get`, which notices what has run out as well.
    unfoldable pub get :
        String → Table Time → Result ApprovalInboxError (Option (ReviewRecord Time)) × Table Time
    unfolding expire_lease_if_needed expire_approval_if_needed
    get request_id t = transaction t (
        expire_lease_if_needed d.reached c.expiry c.expiry_entry d.organisation_id request_id t
        >>= λ x.
            expire_approval_if_needed d.reached c.now c.entry d.organisation_id request_id x.1
            >>= λ y. ok (or_record y.0 x.0, y.1))

  unfoldable pub apply : Deployment Time → Clock Time → Call Time → Table Time → Table Time
  unfolding park claim_lease release_lease approve consume_if_approved freeze get
  apply d c (parks id digest role) t = (park d c id digest role t).1
  apply d c (claims id worker window) t = (claim_lease d c id worker window t).1
  apply d c (releases id worker) t = (release_lease d c id worker t).1
  apply d c (approves id principal ttl) t = (approve d c id principal ttl t).1
  apply d c (consumes id digest role) t = (consume_if_approved d c id digest role t).1
  apply d c (freezes reason) t = (freeze d c reason t).1
  apply d c (gets id) t = (get d c id t).1

  unfoldable pub apply_all :
      List (Deployment Time × Clock Time × Call Time) → Table Time → Table Time
  unfolding apply
  apply_all [] t = t
  apply_all ((d, c, call) ∷ calls) t = apply_all calls (apply d c call t)
