-- ===== src/Reviews.antt =====
-- cbrain/company/durable_approval.py: the table of durable reviews, and the steps that the methods
-- of `DurableReviewStore` take inside their transactions. Each reading of the clock is an argument.
pub mod Expiry
pub mod Methods
pub mod Consume
pub mod Moves
pub mod Progress
pub mod Calls
pub mod Spent
use cbrain.Prelude.{
  ℕ, ◌+◌, String, Option, none, some, Bool, true, false, ◌&&◌, List, [], ◌∷◌, ◌++◌, Result, ok, err,
  ◌==◌, str_eq, or_keep, if◌then◌else◌,
}
use cbrain.Approvals.{ApprovalRole, ApprovalInboxError}

pub data ReviewState : Type 0 where
  parked leased approved consumed approval_expired frozen : ReviewState

pub record ReviewRecord (Time : Type 0) : Type 0 where
  pub organisation_id : String
  pub request_id : String
  pub intent_digest : String
  pub required_role : ApprovalRole
  pub state : ReviewState
  pub lease_owner : Option String
  pub lease_expires_at : Option Time
  pub actor_id : Option String
  pub approved_at : Option Time
  pub approval_expires_at : Option Time
  pub consumed_at : Option Time
  pub frozen_reason : Option String
  pub version : ℕ

-- An entry of `event_log`. The first one has no version.
pub record Entry (Time : Type 0) : Type 0 where
  pub at : Time
  pub event : String
  pub state : ReviewState
  pub version : Option ℕ

pub record Row (Time : Type 0) : Type 0 where
  pub review : ReviewRecord Time
  pub log : List (Entry Time)

-- `durable_reviews`, for all organisations. Its primary key keeps rows with one key from being two.
abbrev pub Table : Type 0 → Type 0
Table Time = List (Row Time)

-- What `_replace` sets of the lease.
pub data Lease (Time : Type 0) : Type 0 where
  keeps clears : Lease Time
  sets : String → Time → Lease Time

-- The other keyword arguments of `_replace`; `none` where the flag is not set.
pub record Change (Time : Type 0) : Type 0 where
  pub event : String
  pub state : ReviewState
  pub lease : Lease Time
  pub approval : Option (String × Time × Time)
  pub consumed_at : Option Time
  pub frozen_reason : Option String

abbrev pub is_leased : ReviewState → Bool
is_leased ReviewState.leased = true
is_leased _ = false

abbrev pub is_approved : ReviewState → Bool
is_approved ReviewState.approved = true
is_approved _ = false

abbrev pub is_frozen : ReviewState → Bool
is_frozen ReviewState.frozen = true
is_frozen _ = false

module _ {Time : Type 0} where
  abbrev pub has_key : String → String → Row Time → Bool
  has_key org id row = str_eq row.review.organisation_id org && str_eq row.review.request_id id

  unfoldable pub find : String → String → Table Time → Option (Row Time)
  find org id [] = none
  find org id (row ∷ t) = if has_key org id row then some row else find org id t

  -- `_load`
  abbrev pub review_of : Option (Row Time) → Option (ReviewRecord Time)
  review_of none = none
  review_of (some row) = some row.review

  unfoldable pub load : String → String → Table Time → Option (ReviewRecord Time)
  load org id t = review_of (find org id t)

  abbrev pub log_of : Option (Row Time) → List (Entry Time)
  log_of none = []
  log_of (some row) = row.log

  unfoldable pub events : String → String → Table Time → List (Entry Time)
  unfolding find
  events org id t = log_of (find org id t)

  unfoldable pub owner_after : Lease Time → Option String → Option String
  owner_after Lease.keeps old = old
  owner_after Lease.clears old = none
  owner_after (Lease.sets owner expires) old = some owner

  unfoldable pub expiry_after : Lease Time → Option Time → Option Time
  expiry_after Lease.keeps old = old
  expiry_after Lease.clears old = none
  expiry_after (Lease.sets owner expires) old = some expires

  abbrev pub first : Option (String × Time × Time) → Option String → Option String
  first none old = old
  first (some (a, _, _)) old = some a

  abbrev pub second : Option (String × Time × Time) → Option Time → Option Time
  second none old = old
  second (some (_, b, _)) old = some b

  abbrev pub third : Option (String × Time × Time) → Option Time → Option Time
  third none old = old
  third (some (_, _, c)) old = some c

  -- The record that `_replace` writes.
  unfoldable pub changed : Change Time → ReviewRecord Time → ReviewRecord Time
  unfolding owner_after expiry_after
  changed c r = record r {
    state = c.state;
    lease_owner = owner_after c.lease r.lease_owner;
    lease_expires_at = expiry_after c.lease r.lease_expires_at;
    actor_id = first c.approval r.actor_id;
    approved_at = second c.approval r.approved_at;
    approval_expires_at = third c.approval r.approval_expires_at;
    consumed_at = or_keep c.consumed_at r.consumed_at;
    frozen_reason = or_keep c.frozen_reason r.frozen_reason;
    version = r.version + 1;
  }

  -- `UPDATE ... WHERE organisation_id = ? AND request_id = ? AND version = ?`, with the log that is
  -- read from the same row; `none` where `rowcount` is 0.
  unfoldable pub update :
      ReviewRecord Time → ReviewRecord Time → Entry Time → Table Time → Option (Table Time)
  update old new entry [] = none
  update old new entry (row ∷ t) =
      if has_key old.organisation_id old.request_id row
      then (if row.review.version == old.version
          then some (record { review = new; log = row.log ++ (entry ∷ []) } ∷ t)
          else none)
      else elim (update old new entry t) [ none ↦ none | some t' ↦ some (row ∷ t') ]

  -- `_replace`
  unfoldable pub replace :
      Time
      → Change Time
      → ReviewRecord Time
      → Table Time
      → Result ApprovalInboxError (ReviewRecord Time × Table Time)
  unfolding changed update
  replace now c r t =
      let new = changed c r in
      let entry : Entry Time = record {
        at = now;
        event = c.event;
        state = c.state;
        version = some (r.version + 1);
      } in
      elim (update r new entry t) [
        | none ↦ err ApprovalInboxError.conflict
        | some t' ↦ ok (new, t')
      ]

  -- `_insert`: the primary key refuses a second row.
  unfoldable pub insert : Time → ReviewRecord Time → String → Table Time → Table Time
  insert now r event t =
      t
      ++ (record {
        review = r;
        log = record { at = now; event = event; state = r.state; version = none } ∷ [];
      }
          ∷ [])
