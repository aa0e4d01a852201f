-- ===== src/Reviews/Spent.antt =====
-- Reviews that have been consumed, have run out or are frozen, and what a consumption needs.
use cbrain.Prelude.{
  String, Option, none, some, Bool, true, false, ◌&&◌, ◌||◌, not, List, Result, ok, err, ◌>>=◌, ◌≡◌,
  refl, sym, ap, ◌∙◌, arith, str_eq, eq_iff, if◌then◌else◌, Bool-cases, inl, inr, ok-injective, ◌≢◌,
}
use mathlib.Core.Path.{subst}
use cbrain.Approvals.{ApprovalRole, ApprovalInboxError, same_role, same_role_eq}
use cbrain.Reviews.{
  ReviewState, ReviewRecord, Table, load, replace, changed, is_approved, is_frozen,
}
use cbrain.Reviews.Expiry.{
  replaced, is_reached, approval_expiry, expire_approval, expire_approval_if_needed,
}
use cbrain.Reviews.Methods.{Deployment, Clock, transaction}
use cbrain.Reviews.Consume.{answered, consumption, consume_in, consume_if_approved, Call, apply_all}
use cbrain.Reviews.Moves.{Step, here, next, Reach, load-find, replace-Replaced}
use cbrain.Reviews.Progress.{approved_eq, load-key, load-own}
use cbrain.Reviews.Calls.{apply_all-Moved}

-- The states in which no approval can be consumed any more.
abbrev pub is_spent : ReviewState → Bool
is_spent ReviewState.consumed = true
is_spent ReviewState.approval_expired = true
is_spent ReviewState.frozen = true
is_spent _ = false

Step-is_spent : {s u : ReviewState} → Step s u → is_spent s ≡ true → is_spent u ≡ true
Step-is_spent Step.lease h = absurd (cc)
Step-is_spent Step.renew h = absurd (cc)
Step-is_spent Step.give_back h = absurd (cc)
Step-is_spent Step.approve_parked h = absurd (cc)
Step-is_spent Step.approve_leased h = absurd (cc)
Step-is_spent Step.expire h = refl
Step-is_spent Step.consume h = refl
Step-is_spent (Step.freeze _) h = refl

Reach-is_spent : {s u : ReviewState} → Reach s u → is_spent s ≡ true → is_spent u ≡ true
Reach-is_spent here h = h
Reach-is_spent (next r st) h = Step-is_spent st (Reach-is_spent r h)

spent_unapproved : (s : ReviewState) → is_spent s ≡ true → is_approved s ≡ false
spent_unapproved s h = ground arith

module _ {Time : Type 0} where
  -- What a consumption has found in the table and leaves there.
  pub record Consumed (d : Deployment Time) (c : Clock Time) (id digest : String)
      (role : ApprovalRole) (t t' : Table Time) : Type 0 where
    pub review : ReviewRecord Time
    pub loaded : load d.organisation_id id t ≡ some review
    pub approved : review.state ≡ ReviewState.approved
    pub same_required : review.required_role ≡ role
    pub same_digest : review.intent_digest ≡ digest
    pub in_time : is_reached d.reached c.now review.approval_expires_at ≡ false
    pub in_time_at_load : is_reached d.reached c.expiry review.approval_expires_at ≡ false
    pub written : load d.organisation_id id t' ≡ some (changed (consumption c.effect) review)

  is_spent-changed :
      (at : Time) (r : ReviewRecord Time) → is_spent (changed (consumption at) r).state ≡ true
  unfolding changed
  is_spent-changed at r = refl

  chain :
      (b1 b2 b3 b4 : Bool) (t t' : Table Time)
      (x y : Result ApprovalInboxError (ReviewRecord Time × Table Time))
      → (if b1
          then ok (false, t)
          else if b2
          then ok (false, t)
          else if b3
          then ok (false, t)
          else if b4
          then answered false x
          else answered true y)
        ≡ ok (true, t')
      → (b2 ≡ false) × (b3 ≡ false) × (b4 ≡ false) × (r : ReviewRecord Time) × (y ≡ ok (r, t'))
  chain true b2 b3 b4 t t' x y h = absurd (cc)
  chain false true b3 b4 t t' x y h = absurd (cc)
  chain false false true b4 t t' x y h = absurd (cc)
  chain false false false true t t' (ok (r, u)) y h = absurd (cc)
  chain false false false true t t' (err e) y h = absurd (cc)
  chain false false false false t t' x (ok (r, u)) h = (refl, refl, refl, r, cc)
  chain false false false false t t' x (err e) h = absurd (cc)

  transaction_ok :
      {A : Type 0} (t : Table Time) (x : Result ApprovalInboxError (A × Table Time)) (a : A)
      → (transaction t x).0 ≡ ok a
      → x ≡ ok (a, (transaction t x).1)
  transaction_ok t (ok (b, u)) a h = ap (λ a. ok (a, u)) (ok-injective h)
  transaction_ok t (err e) a h = absurd (cc)

  abbrev second_of : ReviewRecord Time × Table Time → Table Time
  second_of x = x.1

  load-at :
      (org id : String) (t t' : Table Time) (r s : ReviewRecord Time)
      → load org id t ≡ some r
      → load r.organisation_id r.request_id t' ≡ some s
      → load org id t' ≡ some s
  load-at org id t t' r s h l =
      let (o, i) = load-key org id t r h in
      ap (λ k. load k id t') (sym o) ∙ (ap (λ k. load r.organisation_id k t') (sym i) ∙ l)

  module _ (d : Deployment Time) (c : Clock Time) (id digest : String) (role : ApprovalRole) where
    consume_in-true :
        (r : ReviewRecord Time) (t t' : Table Time)
        → load d.organisation_id id t ≡ some r
        → is_approved r.state && is_reached d.reached c.expiry r.approval_expires_at ≡ false
        → consume_in d c digest role (some r) t ≡ ok (true, t')
        → Consumed d c id digest role t t'
    unfolding consume_in
    consume_in-true r t t' l early h =
        let (b2, b3, b4, _, e) =
          chain (is_frozen r.state) (not (is_approved r.state))
            (not (same_role r.required_role role) || not (str_eq r.intent_digest digest))
            (is_reached d.reached c.now r.approval_expires_at) t t'
            (replace c.entry approval_expiry r t) (replace c.entry (consumption c.effect) r t) h in
        let a = approved_eq r.state (ground arith) in
        let done =
          replace-Replaced c.entry (consumption c.effect) r t (load-own d.organisation_id id t r l)
            (subst (λ s. Step s ReviewState.consumed) (sym a) Step.consume) in
        let same_table : done.table ≡ t' = ap second_of (ok-injective (sym done.succeeds ∙ e)) in
        record {
          review = r;
          loaded = l;
          approved = a;
          same_required = same_role_eq r.required_role role (ground arith);
          same_digest = ground (arith, eq_iff r.intent_digest digest);
          in_time = b4;
          in_time_at_load = ground arith;
          written = load-at d.organisation_id id t t' r (changed (consumption c.effect) r) l (
              subst
                (λ u.
                  load r.organisation_id r.request_id u ≡ some (changed (consumption c.effect) r))
                same_table done.loaded);
        }

    -- A review that runs out as it is loaded is not consumed.
    expired_first :
        (r : ReviewRecord Time) (t t' : Table Time)
        → load d.organisation_id id t ≡ some r
        → is_approved r.state ≡ true
        → (replaced (replace c.expiry_entry approval_expiry r t) >>= λ x.
            consume_in d c digest role x.0 x.1)
          ≢ ok (true, t')
    unfolding consume_in
    expired_first r t t' l a =
        let done =
          replace-Replaced c.expiry_entry approval_expiry r t (load-own d.organisation_id id t r l)
            (subst (λ s. Step s ReviewState.approval_expired) (sym (approved_eq r.state a))
              Step.expire) in
        rw done.succeeds (λ h. absurd (cc))

    loaded_true :
        (o : Option (ReviewRecord Time)) (t t' : Table Time)
        → load d.organisation_id id t ≡ o
        → (expire_approval d.reached c.expiry c.expiry_entry o t >>= λ x.
            consume_in d c digest role x.0 x.1)
          ≡ ok (true, t')
        → Consumed d c id digest role t t'
    unfolding expire_approval consume_in
    loaded_true none t t' l h = absurd (cc)
    loaded_true (some r) t t' l h =
        let over = is_approved r.state && is_reached d.reached c.expiry r.approval_expires_at in
        elim (Bool-cases over) [
          | inl over_now ↦ absurd (expired_first r t t' l (ground arith) (rw over_now at h))
          | inr still ↦ consume_in-true r t t' l still (rw still at h)
        ]

    -- Where a consumption answers true, the review was approved for that role and digest and had not
    -- run out, neither as it was loaded nor as it was consumed; it is now consumed.
    pub consume_if_approved-true :
        (t : Table Time)
        → (consume_if_approved d c id digest role t).0 ≡ ok true
        → Consumed d c id digest role t (consume_if_approved d c id digest role t).1
    unfolding consume_if_approved expire_approval_if_needed
    consume_if_approved-true t h = loaded_true (load d.organisation_id id t) t _ refl (
        transaction_ok t
          (expire_approval d.reached c.expiry c.expiry_entry (load d.organisation_id id t) t
            >>= λ x. consume_in d c digest role x.0 x.1)
          true h)

    consume_if_approved-is_spent :
        (t : Table Time) (r : ReviewRecord Time)
        → load d.organisation_id id t ≡ some r
        → is_spent r.state ≡ true
        → (consume_if_approved d c id digest role t).0 ≡ ok false
    unfolding consume_if_approved expire_approval_if_needed expire_approval consume_in
    consume_if_approved-is_spent t r l s = rw (l, spent_unapproved r.state s) (ground arith)

  -- A review that was loaded is loaded after any calls, and has moved by steps.
  load-apply_all :
      (calls : List (Deployment Time × Clock Time × Call Time)) (org id : String) (t : Table Time)
      (r : ReviewRecord Time)
      → load org id t ≡ some r
      → (r' : ReviewRecord Time) × (load org id (apply_all calls t) ≡ some r')
        × Reach r.state r'.state
  unfolding load
  load-apply_all calls org id t r l =
      let (row, found, same) = load-find org id t r l in
      let (row', found', reach, _, _, _) = apply_all-Moved calls t org id row found in
      (row'.review, rw found' refl, subst (λ x. Reach x.state row'.review.state) same reach)

  -- One approval is consumed once: after a consumption that answered true, every later consumption
  -- of that request in that organisation answers false, whatever calls lie between the two, and
  -- whatever digest, role, deployment and clock the later one has.
  pub consumption_once :
      (d d' : Deployment Time) (c c' : Clock Time) (id digest digest' : String)
      (role role' : ApprovalRole) (calls : List (Deployment Time × Clock Time × Call Time))
      (t : Table Time)
      → d'.organisation_id ≡ d.organisation_id
      → (consume_if_approved d c id digest role t).0 ≡ ok true
      → (consume_if_approved d' c' id digest' role'
          (apply_all calls (consume_if_approved d c id digest role t).1)).0
        ≡ ok false
  consumption_once d d' c c' id digest digest' role role' calls t o h =
      let done = consume_if_approved-true d c id digest role t h in
      let (r', l, reach) =
        load-apply_all calls d.organisation_id id (consume_if_approved d c id digest role t).1
          (changed (consumption c.effect) done.review) done.written in
      consume_if_approved-is_spent d' c' id digest' role'
        (apply_all calls (consume_if_approved d c id digest role t).1) r'
        (subst
          (λ org.
            load org id (apply_all calls (consume_if_approved d c id digest role t).1) ≡ some r')
          (sym o) l)
        (Reach-is_spent reach (is_spent-changed c.effect done.review))
