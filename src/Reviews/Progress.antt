-- ===== src/Reviews/Progress.antt =====
-- Every call of every method moves the reviews by steps.
use cbrain.Prelude.{
  String, Option, none, some, Bool, true, false, ◌&&◌, Result, ok, err, ◌>>=◌, ◌>>◌, refuse, ◌≡◌,
  refl, sym, ap, ◌∙◌, arith, eq_iff, if◌then◌else◌,
}
use mathlib.Core.Path.{subst}
use cbrain.Approvals.{ApprovalInboxError}
use cbrain.Reviews.{ReviewState, ReviewRecord, Table, Change, load, replace, is_leased, is_approved}
use cbrain.Reviews.Expiry.{
  Loaded, replaced, is_reached, lease_expiry, approval_expiry, expire_lease, expire_lease_if_needed,
  expire_approval, expire_approval_if_needed,
}
use cbrain.Reviews.Methods.{transaction, present, can_approve}
use cbrain.Reviews.Moves.{
  Step, Moved, Moved-refl, Moved-trans, find-has_key, load-find, replace-Replaced,
}

pub leased_eq : (s : ReviewState) → is_leased s ≡ true → s ≡ ReviewState.leased
leased_eq s h = ground arith

pub approved_eq : (s : ReviewState) → is_approved s ≡ true → s ≡ ReviewState.approved
approved_eq s h = ground arith

pub can_approve-Step : (s : ReviewState) → can_approve s ≡ true → Step s ReviewState.approved
can_approve-Step ReviewState.parked h = Step.approve_parked
can_approve-Step ReviewState.leased h = Step.approve_leased
can_approve-Step ReviewState.approved h = absurd (cc)
can_approve-Step ReviewState.consumed h = absurd (cc)
can_approve-Step ReviewState.approval_expired h = absurd (cc)
can_approve-Step ReviewState.frozen h = absurd (cc)

module _ {Time : Type 0} where
  -- What a step inside a transaction leaves.
  abbrev pub Keeps : {A : Type 0} → Table Time → Result ApprovalInboxError (A × Table Time) → Type 0
  Keeps t (ok (_, t')) = Moved t t'
  Keeps t (err _) = Unit

  -- What a load with expiry leaves: the record that it returns is the one in the table.
  abbrev pub Fresh : String → String → Table Time → Loaded Time → Type 0
  Fresh org id t (ok (none, t')) = Moved t t'
  Fresh org id t (ok (some r, t')) = Moved t t' × (load org id t' ≡ some r)
  Fresh org id t (err _) = Unit

  pub Keeps-if :
      {A : Type 0} (t : Table Time) (b : Bool) (x y : Result ApprovalInboxError (A × Table Time))
      → (b ≡ true → Keeps t x)
      → (b ≡ false → Keeps t y)
      → Keeps t (if b then x else y)
  Keeps-if t true x y hx hy = hx refl
  Keeps-if t false x y hx hy = hy refl

  pub Keeps-refuse :
      {A : Type 0} (t : Table Time) (b : Bool) (e : ApprovalInboxError)
      (x : Result ApprovalInboxError (A × Table Time))
      → (b ≡ false → Keeps t x)
      → Keeps t (refuse b e >> x)
  Keeps-refuse t true e x h = tt
  Keeps-refuse t false e x h = h refl

  pub transaction-Moved :
      {A : Type 0} (t : Table Time) (x : Result ApprovalInboxError (A × Table Time))
      → Keeps t x
      → Moved t (transaction t x).1
  transaction-Moved t (ok (a, t')) h = h
  transaction-Moved t (err e) h = Moved-refl t

  pub after-Moved :
      {A : Type 0} (t t' : Table Time) (x : Result ApprovalInboxError (A × Table Time))
      → Moved t t'
      → Keeps t' x
      → Moved t (transaction t x).1
  after-Moved t t' (ok (a, t'')) m n = Moved-trans t t' t'' m n
  after-Moved t t' (err e) m n = Moved-refl t

  pub load-key :
      (org id : String) (t : Table Time) (r : ReviewRecord Time)
      → load org id t ≡ some r
      → (r.organisation_id ≡ org) × (r.request_id ≡ id)
  load-key org id t r h =
      let (row, found, same) = load-find org id t r h in
      let key = find-has_key org id t row found in
      (
        ap (λ x. x.organisation_id) (sym same)
            ∙ ground (arith, eq_iff row.review.organisation_id org),
        ap (λ x. x.request_id) (sym same) ∙ ground (arith, eq_iff row.review.request_id id),
      )

  pub load-own :
      (org id : String) (t : Table Time) (r : ReviewRecord Time)
      → load org id t ≡ some r
      → load r.organisation_id r.request_id t ≡ some r
  load-own org id t r h =
      let (o, i) = load-key org id t r h in
      ap (λ k. load k r.request_id t) o ∙ (ap (λ k. load org k t) i ∙ h)

  module _ (org id : String) where
    pub replace-Keeps :
        (now : Time) (c : Change Time) (r : ReviewRecord Time) (t : Table Time)
        → load org id t ≡ some r
        → Step r.state c.state
        → Keeps t (replace now c r t)
    replace-Keeps now c r t h st =
        let done = replace-Replaced now c r t (load-own org id t r h) st in
        subst (Keeps t) (sym done.succeeds) done.moved

    replaced-Fresh :
        (now : Time) (c : Change Time) (r : ReviewRecord Time) (t : Table Time)
        → load org id t ≡ some r
        → Step r.state c.state
        → Fresh org id t (replaced (replace now c r t))
    replaced-Fresh now c r t h st =
        let done = replace-Replaced now c r t (load-own org id t r h) st in
        let (o, i) = load-key org id t r h in
        subst (λ x. Fresh org id t (replaced x)) (sym done.succeeds)
          (
            done.moved,
            ap (λ k. load k id done.table) (sym o)
                ∙ (ap (λ k. load r.organisation_id k done.table) (sym i) ∙ done.loaded),
          )

    Fresh-if :
        (t : Table Time) (b : Bool) (x y : Loaded Time)
        → (b ≡ true → Fresh org id t x)
        → Fresh org id t y
        → Fresh org id t (if b then x else y)
    Fresh-if t true x y hx hy = hx refl
    Fresh-if t false x y hx hy = hy

    module _ (reached : Time → Time → Bool) (now logged : Time) (t : Table Time) where
      pub expire_lease-Fresh : Fresh org id t (expire_lease_if_needed reached now logged org id t)
      unfolding expire_lease_if_needed expire_lease
      expire_lease-Fresh = from (load org id t) refl
        where
          from :
              (o : Option (ReviewRecord Time))
              → load org id t ≡ o
              → Fresh org id t (expire_lease reached now logged o t)
          from none h = Moved-refl t
          from (some r) h =
              Fresh-if t (is_leased r.state && is_reached reached now r.lease_expires_at) _ _
                (λ b. replaced-Fresh logged lease_expiry r t h (
                  subst (λ s. Step s ReviewState.parked) (sym (leased_eq r.state (ground arith)))
                    Step.give_back))
                (Moved-refl t, h)

      pub expire_approval-Fresh :
          Fresh org id t (expire_approval_if_needed reached now logged org id t)
      unfolding expire_approval_if_needed expire_approval
      expire_approval-Fresh = from (load org id t) refl
        where
          from :
              (o : Option (ReviewRecord Time))
              → load org id t ≡ o
              → Fresh org id t (expire_approval reached now logged o t)
          from none h = Moved-refl t
          from (some r) h =
              Fresh-if t (is_approved r.state && is_reached reached now r.approval_expires_at) _ _
                (λ b. replaced-Fresh logged approval_expiry r t h (
                  subst (λ s. Step s ReviewState.approval_expired)
                    (sym (approved_eq r.state (ground arith))) Step.expire))
                (Moved-refl t, h)

    -- A method that loads a record and goes on with it.
    pub with_record-Moved :
        {A : Type 0} (t : Table Time) (x : Loaded Time)
        (f : ReviewRecord Time → Table Time → Result ApprovalInboxError (A × Table Time))
        → Fresh org id t x
        → ((r : ReviewRecord Time) (t' : Table Time) → load org id t' ≡ some r → Keeps t' (f r t'))
        → Moved t (transaction t (x >>= λ y. present y.0 >>= λ r. f r y.1)).1
    with_record-Moved t (err e) f h k = Moved-refl t
    with_record-Moved t (ok (none, t')) f h k = Moved-refl t
    with_record-Moved t (ok (some r, t')) f (m, l) k = after-Moved t t' (f r t') m (k r t' l)
