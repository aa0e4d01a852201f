-- ===== src/Reviews/Calls.antt =====
-- Every call of every method moves the reviews by steps.
use cbrain.Prelude.{
  String, Option, none, some, Bool, true, false, ◌&&◌, ◌||◌, not, List, [], ◌∷◌, Result, ok, err,
  ◌>>=◌, ◌≡◌, refl, sym, arith, str_eq, if◌then◌else◌, is_blank, or_else,
}
use mathlib.Core.Path.{subst}
use cbrain.Approvals.{ApprovalRole, ApprovalPrincipal, ApprovalInboxError, same_role, contains}
use cbrain.Reviews.{
  ReviewState, ReviewRecord, Table, Lease, load, replace, is_leased, is_approved, is_frozen,
}
use cbrain.Reviews.Expiry.{
  Loaded, is_reached, approval_expiry, expire_lease_if_needed, expire_approval_if_needed,
}
use cbrain.Reviews.Methods.{
  Deployment, Clock, transaction, step, owns, is_before, approval_by, is_open, can_approve, park_in,
  park, lease_in, claim_lease, release_in, release_lease, approve_in, approve,
}
use cbrain.Reviews.Consume.{
  answered, consumption, freezing, requests_of, consume_in, consume_if_approved, freeze_one,
  freeze_all, freeze, or_record, get, Call, apply, apply_all,
}
use cbrain.Reviews.Moves.{Step, Moved, Moved-refl, Moved-trans, Moved-insert}
use cbrain.Reviews.Progress.{
  leased_eq, approved_eq, can_approve-Step, Keeps, Fresh, Keeps-if, Keeps-refuse, transaction-Moved,
  replace-Keeps, expire_lease-Fresh, expire_approval-Fresh, with_record-Moved, after-Moved,
}

module _ {Time : Type 0} (d : Deployment Time) (c : Clock Time) where
  lease_in-Keeps :
      (org id worker : String) (window : Time) (r : ReviewRecord Time) (t : Table Time)
      → load org id t ≡ some r
      → Keeps t (lease_in d c worker window r t)
  unfolding lease_in
  lease_in-Keeps org id worker window r t h =
      Keeps-if t (is_frozen r.state) _ _ (λ _. tt)
        (λ _.
          Keeps-if t (is_leased r.state) _ _
            (λ l.
              Keeps-if t (owns r.lease_owner worker && is_before d.before c.now r.lease_expires_at)
                _ _
                (λ _.
                  replace-Keeps org id c.entry
                    (step "lease_renewed" ReviewState.leased
                      (Lease.sets worker (d.plus c.now window)))
                    r t h
                    (subst (λ s. Step s ReviewState.leased) (sym (leased_eq r.state l)) Step.renew))
                (λ _. tt))
            (λ _. granted r.state refl))
    where
      granted :
          (s : ReviewState)
          → r.state ≡ s
          → Keeps t (
              if not (elim r.state [ ReviewState.parked ↦ true | _ ↦ false ])
              then err ApprovalInboxError.wrong_state
              else replace c.entry
                  (step "leased" ReviewState.leased (Lease.sets worker (d.plus c.now window)))
                  r
                  t)
      granted ReviewState.parked e = rw e (
          replace-Keeps org id c.entry
            (step "leased" ReviewState.leased (Lease.sets worker (d.plus c.now window))) r t h
            (subst (λ s. Step s ReviewState.leased) (sym e) Step.lease))
      granted ReviewState.leased e = rw e tt
      granted ReviewState.approved e = rw e tt
      granted ReviewState.consumed e = rw e tt
      granted ReviewState.approval_expired e = rw e tt
      granted ReviewState.frozen e = rw e tt

  release_in-Keeps :
      (org id worker : String) (r : ReviewRecord Time) (t : Table Time)
      → load org id t ≡ some r
      → Keeps t (release_in d c worker r t)
  unfolding release_in
  release_in-Keeps org id worker r t h =
      Keeps-if t (not (is_leased r.state)) _ _ (λ _. Moved-refl t)
        (λ l.
          Keeps-if t (not (owns r.lease_owner worker)) _ _ (λ _. tt)
            (λ _.
              replace-Keeps org id c.entry (step "lease_released" ReviewState.parked Lease.clears) r
                t h
                (subst (λ s. Step s ReviewState.parked) (sym (leased_eq r.state (ground arith)))
                  Step.give_back)))

  approve_in-Keeps :
      (org id : String) (principal : ApprovalPrincipal) (ttl : Time) (r : ReviewRecord Time)
      (t : Table Time)
      → load org id t ≡ some r
      → Keeps t (approve_in d c principal ttl r t)
  unfolding approve_in
  approve_in-Keeps org id principal ttl r t h = Keeps-refuse t (is_frozen r.state) _ _ (λ _.
      Keeps-refuse t (not (can_approve r.state)) _ _ (λ a.
        Keeps-refuse t (not (same_role principal.role r.required_role)) _ _ (λ _.
          Keeps-refuse t (not (contains (d.allowed_approvers principal.role) principal.actor_id)) _
            _
            (λ _.
              replace-Keeps org id c.entry (approval_by principal.actor_id c.now (d.plus c.now ttl))
                r t h (can_approve-Step r.state (ground arith))))))

  consume_in-Keeps :
      (org id digest : String) (role : ApprovalRole) (o : Option (ReviewRecord Time))
      (t : Table Time)
      → load org id t ≡ o
      → Keeps t (consume_in d c digest role o t)
  unfolding consume_in
  consume_in-Keeps org id digest role none t h = Moved-refl t
  consume_in-Keeps org id digest role (some r) t h =
      Keeps-if t (is_frozen r.state) _ _ (λ _. Moved-refl t)
        (λ _.
          Keeps-if t (not (is_approved r.state)) _ _ (λ _. Moved-refl t)
            (λ a.
              Keeps-if t
                (not (same_role r.required_role role) || not (str_eq r.intent_digest digest)) _ _
                (λ _. Moved-refl t)
                (λ _.
                  let e = approved_eq r.state (ground arith) in
                  Keeps-if t (is_reached d.reached c.now r.approval_expires_at) _ _
                    (λ _. answered-Keeps false _ (
                      replace-Keeps org id c.entry approval_expiry r t h
                        (subst (λ s. Step s ReviewState.approval_expired) (sym e) Step.expire)))
                    (λ _. answered-Keeps true _ (
                      replace-Keeps org id c.entry (consumption c.effect) r t h
                        (subst (λ s. Step s ReviewState.consumed) (sym e) Step.consume))))))
    where
      answered-Keeps :
          (b : Bool) (x : Result ApprovalInboxError (ReviewRecord Time × Table Time))
          → Keeps t x
          → Keeps t (answered b x)
      answered-Keeps b (ok (r', t')) k = k
      answered-Keeps b (err e) k = tt

  freeze_one-Keeps :
      (reason org id : String) (o : Option (ReviewRecord Time)) (t : Table Time)
      → load org id t ≡ o
      → Keeps t (freeze_one d c reason o t)
  unfolding freeze_one
  freeze_one-Keeps reason org id none t h = Moved-refl t
  freeze_one-Keeps reason org id (some r) t h =
      Keeps-if t (is_frozen r.state) _ _ (λ _. Moved-refl t)
        (λ f. done _ (replace-Keeps org id c.entry (freezing reason) r t h (Step.freeze f)))
    where
      done :
          (x : Result ApprovalInboxError (ReviewRecord Time × Table Time))
          → Keeps t x
          → Keeps {A = Unit {0}} t (x >>= λ y. ok (tt, y.1))
      done (ok (r', t')) k = k
      done (err e) k = tt

  freeze_all-Keeps :
      (reason : String) (ids : List String) (t : Table Time) → Keeps t (freeze_all d c reason ids t)
  unfolding freeze_all
  freeze_all-Keeps reason [] t = Moved-refl t
  freeze_all-Keeps reason (id ∷ ids) t =
      rest (freeze_one d c reason (load d.organisation_id id t) t)
        (freeze_one-Keeps reason d.organisation_id id (load d.organisation_id id t) t refl)
        (freeze_all-Keeps reason ids)
    where
      rest :
          (x : Result ApprovalInboxError (Unit {0} × Table Time))
          → Keeps t x
          → ((t' : Table Time) → Keeps t' (freeze_all d c reason ids t'))
          → Keeps t (x >>= λ y. freeze_all d c reason ids y.1)
      rest (err e) k ih = tt
      rest (ok (u, t')) k ih = both (freeze_all d c reason ids t') (ih t')
        where
          both : (z : Result ApprovalInboxError (Unit {0} × Table Time)) → Keeps t' z → Keeps t z
          both (err e) k' = tt
          both (ok (u', t'')) k' = Moved-trans t t' t'' k k'

  park_in-Keeps :
      (id digest : String) (role : ApprovalRole) (t : Table Time) (o : Option (ReviewRecord Time))
      → Keeps t (park_in d c id digest role t o)
  unfolding park_in
  park_in-Keeps id digest role t none = Moved-insert c.entry _ "parked" t
  park_in-Keeps id digest role t (some r) = Keeps-refuse t (is_frozen r.state) _ _ (λ _.
      Keeps-refuse t (not (str_eq r.intent_digest digest) || not (same_role r.required_role role)) _
        _ (λ _. Keeps-refuse t (not (is_open r.state)) _ _ (λ _. Moved-refl t)))

  Moved-if :
      {A : Type 0} (b : Bool) (e : ApprovalInboxError) (t : Table Time)
      (x : Result ApprovalInboxError A × Table Time)
      → Moved t x.1
      → Moved t (if b then (err e, t) else x).1
  Moved-if true e t x m = Moved-refl t
  Moved-if false e t x m = m

  consumed-Moved :
      (org id digest : String) (role : ApprovalRole) (t : Table Time) (x : Loaded Time)
      → Fresh org id t x
      → Moved t (transaction t (x >>= λ y. consume_in d c digest role y.0 y.1)).1
  unfolding consume_in
  consumed-Moved org id digest role t (err e) f = Moved-refl t
  consumed-Moved org id digest role t (ok (none, t')) m = m
  consumed-Moved org id digest role t (ok (some r, t')) (m, l) =
      after-Moved t t' (consume_in d c digest role (some r) t') m
        (consume_in-Keeps org id digest role (some r) t' l)

  got-Moved :
      (org id : String) (t : Table Time) (x : Loaded Time) (f : Table Time → Loaded Time)
      → Fresh org id t x
      → ((t' : Table Time) → Fresh org id t' (f t'))
      → Moved t (transaction t (x >>= λ y. f y.1 >>= λ z. ok (or_record d c z.0 y.0, z.1))).1
  got-Moved org id t (err e) f h k = Moved-refl t
  got-Moved org id t (ok (o, t')) f h k = last (f t') (k t')
    where
      kept : (o : Option (ReviewRecord Time)) → Fresh org id t (ok (o, t')) → Moved t t'
      kept none m = m
      kept (some r) (m, _) = m

      last :
          (z : Loaded Time)
          → Fresh org id t' z
          → Moved t (transaction t (z >>= λ z. ok (or_record d c z.0 o, z.1))).1
      last (err e) n = Moved-refl t
      last (ok (none, t'')) n = Moved-trans t t' t'' (kept o h) n
      last (ok (some r, t'')) (n, _) = Moved-trans t t' t'' (kept o h) n

  pub apply-Moved : (call : Call Time) (t : Table Time) → Moved t (apply d c call t)
  unfolding apply park claim_lease release_lease approve consume_if_approved freeze get
      expire_lease_if_needed
  apply-Moved (Call.parks id digest role) t =
      Moved-if (is_blank digest) ApprovalInboxError.empty_digest t _ (
        transaction-Moved t (park_in d c id digest role t (load d.organisation_id id t))
          (park_in-Keeps id digest role t _))
  apply-Moved (Call.claims id worker lease_seconds) t =
      let window = or_else lease_seconds d.max_lease_seconds in
      Moved-if (is_blank worker) ApprovalInboxError.empty_worker t _ (
        Moved-if (d.not_positive window || d.exceeds window d.max_lease_seconds)
          ApprovalInboxError.bad_window t _
          (with_record-Moved d.organisation_id id t
            (expire_lease_if_needed d.reached c.expiry c.expiry_entry d.organisation_id id t)
            (lease_in d c worker window)
            (expire_lease-Fresh d.organisation_id id d.reached c.expiry c.expiry_entry t)
            (lease_in-Keeps d.organisation_id id worker window)))
  apply-Moved (Call.releases id worker) t =
      with_record-Moved d.organisation_id id t
        (expire_lease_if_needed d.reached c.expiry c.expiry_entry d.organisation_id id t)
        (release_in d c worker)
        (expire_lease-Fresh d.organisation_id id d.reached c.expiry c.expiry_entry t)
        (release_in-Keeps d.organisation_id id worker)
  apply-Moved (Call.approves id principal ttl) t =
      Moved-if (d.not_positive ttl || d.exceeds ttl d.max_ttl_seconds) ApprovalInboxError.bad_ttl t
        _
        (with_record-Moved d.organisation_id id t
          (expire_lease_if_needed d.reached c.expiry c.expiry_entry d.organisation_id id t)
          (approve_in d c principal ttl)
          (expire_lease-Fresh d.organisation_id id d.reached c.expiry c.expiry_entry t)
          (approve_in-Keeps d.organisation_id id principal ttl))
  apply-Moved (Call.consumes id digest role) t =
      consumed-Moved d.organisation_id id digest role t
        (expire_approval_if_needed d.reached c.expiry c.expiry_entry d.organisation_id id t)
        (expire_approval-Fresh d.organisation_id id d.reached c.expiry c.expiry_entry t)
  apply-Moved (Call.freezes reason) t =
      Moved-if (is_blank reason) ApprovalInboxError.empty_reason t _ (
        transaction-Moved t (freeze_all d c reason (requests_of d.organisation_id t) t)
          (freeze_all-Keeps reason _ t))
  apply-Moved (Call.gets id) t =
      got-Moved d.organisation_id id t
        (expire_lease_if_needed d.reached c.expiry c.expiry_entry d.organisation_id id t)
        (expire_approval_if_needed d.reached c.now c.entry d.organisation_id id)
        (expire_lease-Fresh d.organisation_id id d.reached c.expiry c.expiry_entry t)
        (expire_approval-Fresh d.organisation_id id d.reached c.now c.entry)

-- Whatever the methods are called with, in any order and by any deployments and clocks: no review
-- is lost, the state of each has moved by steps of the state machine, its log keeps its entries in
-- their order, and it has got one new entry for each new version.
pub apply_all-Moved :
    {Time : Type 0} (calls : List (Deployment Time × Clock Time × Call Time)) (t : Table Time)
    → Moved t (apply_all calls t)
unfolding apply_all
apply_all-Moved [] t = Moved-refl t
apply_all-Moved ((d, c, call) ∷ calls) t =
    Moved-trans t (apply d c call t) (apply_all calls (apply d c call t)) (apply-Moved d c call t)
      (apply_all-Moved calls (apply d c call t))
