-- ===== src/Approvals/Granted.antt =====
-- What stands behind an approval that the inbox lets a call consume.
use cbrain.Prelude.{
  String, Option, none, some, true, false, eq_iff, ◌≡◌, refl, inl, inr, arith, Bool-cases,
}
use cbrain.Prelude.Dict.{lookup}
use cbrain.Approvals.{ApprovalRole, same_role}
use cbrain.Approvals.Inbox.{
  PendingApproval, ApprovalRecord, Inbox, Settings, is_frozen, can_consume, consumed_or_not,
  consume_if_approved,
}

module _ {Time : Type 0} (d : Settings Time) (now : Time) where
  -- An approval that may be used: of the parked action's digest and of the role that it requires,
  -- by an actor of that role, not consumed and not expired.
  pub record IsUsable (digest : String) (role : ApprovalRole) (p : PendingApproval)
      (r : ApprovalRecord Time) : Type 0 where
    pub unconsumed : r.consumed ≡ false
    pub parked_role : same_role p.required_role role ≡ true
    pub parked_digest : p.intent_digest ≡ digest
    pub approved_digest : r.intent_digest ≡ digest
    pub actor_role : same_role p.required_role r.actor_role ≡ true
    pub unexpired : d.reached now r.expires_at ≡ false

  -- The inbox is not frozen, the request is parked, and there is a usable approval of it.
  pub record IsGranted (request_id digest : String) (role : ApprovalRole) (s : Inbox Time)
      : Type 0 where
    pub thawed : is_frozen s ≡ false
    pub pending : PendingApproval
    pub approval : ApprovalRecord Time
    pub is_parked : lookup request_id s.pending ≡ some pending
    pub is_approved : lookup request_id s.approvals ≡ some approval
    pub usable : IsUsable digest role pending approval

  can_consume-IsUsable :
      (digest : String) (role : ApprovalRole) (p : PendingApproval) (r q : ApprovalRecord Time)
      → can_consume d now digest role (some p) (some r) ≡ some q
      → IsUsable digest role p r
  unfolding can_consume
  can_consume-IsUsable digest role p r q h = record {
    unconsumed = ground (arith, h);
    parked_role = ground (arith, h);
    parked_digest = ground (arith, h, eq_iff p.intent_digest digest);
    approved_digest = ground (arith, h, eq_iff r.intent_digest digest);
    actor_role = ground (arith, h);
    unexpired = ground (arith, h);
  }

  consumed-IsGranted :
      (request_id digest : String) (role : ApprovalRole) (s : Inbox Time)
      (op : Option PendingApproval) (oa : Option (ApprovalRecord Time))
      → is_frozen s ≡ false
      → lookup request_id s.pending ≡ op
      → lookup request_id s.approvals ≡ oa
      → (consumed_or_not request_id (can_consume d now digest role op oa) s).0 ≡ true
      → IsGranted request_id digest role s
  unfolding consumed_or_not
  consumed-IsGranted request_id digest role s none oa thawed e f h =
      absurd (unfold can_consume in cc)
  consumed-IsGranted request_id digest role s (some p) none thawed e f h =
      absurd (unfold can_consume in cc)
  consumed-IsGranted request_id digest role s (some p) (some r) thawed e f h = record {
    thawed = thawed;
    pending = p;
    approval = r;
    is_parked = e;
    is_approved = f;
    usable = from (can_consume d now digest role (some p) (some r)) refl h;
  }
    where
      from :
          (o : Option (ApprovalRecord Time))
          → can_consume d now digest role (some p) (some r) ≡ o
          → (consumed_or_not request_id o s).0 ≡ true
          → IsUsable digest role p r
      from none same h' = absurd (cc)
      from (some q) same h' = can_consume-IsUsable digest role p r q same

  pub consume_if_approved-IsGranted :
      (request_id digest : String) (role : ApprovalRole) (s : Inbox Time)
      → (consume_if_approved d now request_id digest role s).0 ≡ true
      → IsGranted request_id digest role s
  unfolding consume_if_approved
  consume_if_approved-IsGranted request_id digest role s h = elim (Bool-cases (is_frozen s)) [
    | inl frozen ↦ absurd (let h' : false ≡ true = rw frozen at h in cc)
    | inr thawed ↦
        consumed-IsGranted request_id digest role s (lookup request_id s.pending)
          (lookup request_id s.approvals) thawed refl refl (rw thawed at h)
  ]
