-- ===== src/Approvals/Once.antt =====
-- One approval lets a reviewed call through once, whatever is done to the inbox afterwards.
use cbrain.Prelude.{
  String, Option, none, some, Bool, true, false, not, is_none, List, [], ◌∷◌, Result, ok, err,
  ◌>>=◌, ◌>>◌, refuse, or_raise, ◌≡◌, refl, ap, ◌∙◌, inl, inr, arith, str_eq, eq_iff, if◌then◌else◌,
  Bool-cases, is_blank,
}
use mathlib.Core.Path.{subst}
use cbrain.Prelude.Dict.{lookup, insert, lookup-insert}
use cbrain.Approvals.{ApprovalRole, same_role, ApprovalPrincipal, ApprovalInboxError, contains}
use cbrain.Approvals.Inbox.{
  PendingApproval, ApprovalRecord, Inbox, Settings, is_other, is_frozen, freeze, park, approve,
  approved_by, can_consume, consumed_or_not, consume_if_approved,
}

pub data Operation (Time : Type 0) : Type 0 where
  freezes : String → Operation Time
  parks : String → String → ApprovalRole → Operation Time
  approves : Time → String → ApprovalPrincipal → Time → Operation Time
  consumes : Time → String → String → ApprovalRole → Operation Time

module _ {Time : Type 0} (d : Settings Time) where
  abbrev kept : Inbox Time → Result ApprovalInboxError (Inbox Time) → Inbox Time
  kept s (ok s') = s'
  kept s (err _) = s

  abbrev kept_second :
      Inbox Time → Result ApprovalInboxError (ApprovalRecord Time × Inbox Time) → Inbox Time
  kept_second s (ok (_, s')) = s'
  kept_second s (err _) = s

  unfoldable pub apply : Operation Time → Inbox Time → Inbox Time
  unfolding freeze park approve consume_if_approved
  apply (freezes reason) s = kept s (freeze reason s)
  apply (parks id digest role) s = kept s (park id digest role s)
  apply (approves now id principal ttl) s = kept_second s (approve d now id principal ttl s)
  apply (consumes now id digest role) s = (consume_if_approved d now id digest role s).1

  unfoldable pub apply_all : List (Operation Time) → Inbox Time → Inbox Time
  unfolding apply
  apply_all [] s = s
  apply_all (o ∷ os) s = apply_all os (apply o s)

module _ {Time : Type 0} where
  -- The request's approval is used up.
  abbrev pub IsUsed : String → Inbox Time → Type 0
  IsUsed id s = (r : ApprovalRecord Time) × (lookup id s.approvals ≡ some r) × (r.consumed ≡ true)

  module _ (d : Settings Time) (id : String) (s : Inbox Time) (used : IsUsed id s) where
    -- What a refusal leaves is what was there.
    kept_refused :
        (b : Bool) (e : ApprovalInboxError) (x : Result ApprovalInboxError (Inbox Time))
        → IsUsed id (kept d s x)
        → IsUsed id (kept d s (refuse b e >> x))
    kept_refused true e x h = used
    kept_refused false e x h = h

    kept_second_refused :
        (b : Bool) (e : ApprovalInboxError)
        (x : Result ApprovalInboxError (ApprovalRecord Time × Inbox Time))
        → (b ≡ false → IsUsed id (kept_second d s x))
        → IsUsed id (kept_second d s (refuse b e >> x))
    kept_second_refused true e x h = used
    kept_second_refused false e x h = h refl

    -- An approval that is there is not written again.
    recorded-IsUsed :
        (request_id : String) (r : ApprovalRecord Time)
        → not (is_none (lookup request_id s.approvals)) ≡ false
        → IsUsed id (record s { approvals = insert request_id r s.approvals })
    recorded-IsUsed request_id r free =
        let (q, l, u) = used in (q, lookup-insert request_id id r s.approvals ∙ other q l, u)
      where
        other :
            (q : ApprovalRecord Time)
            → lookup id s.approvals ≡ some q
            → (if str_eq request_id id then some r else lookup id s.approvals) ≡ some q
        other q l = elim (Bool-cases (str_eq request_id id)) [
          | inl same ↦
              let e : request_id ≡ id = ground (arith, eq_iff request_id id) in
              let none_there : not (is_none (some q)) ≡ false =
                subst (λ o. not (is_none o) ≡ false) (ap (λ k. lookup k s.approvals) e ∙ l) free in
              absurd (cc)
          | inr differs ↦ rw differs l
        ]

    -- The tests of `approve` on the parked action and the principal.
    abbrev granted :
        Time
        → String
        → ApprovalPrincipal
        → Time
        → PendingApproval
        → Result ApprovalInboxError (ApprovalRecord Time × Inbox Time)
    granted now request_id principal ttl pending =
        let r = approved_by d now request_id principal ttl pending in
        refuse (not (same_role principal.role pending.required_role)) ApprovalInboxError.wrong_role
        >> (refuse (not (contains (d.allowed_approvers principal.role) principal.actor_id))
              ApprovalInboxError.not_allowed
            >> (refuse (not (is_none (lookup request_id s.approvals)))
                  ApprovalInboxError.already_recorded
                >> ok (r, record s { approvals = insert request_id r s.approvals })))

    granted-IsUsed :
        (now : Time) (request_id : String) (principal : ApprovalPrincipal) (ttl : Time)
        (o : Option PendingApproval)
        → IsUsed id (
            kept_second d s (
              or_raise o ApprovalInboxError.unknown_request
              >>= granted now request_id principal ttl))
    granted-IsUsed now request_id principal ttl none = used
    granted-IsUsed now request_id principal ttl (some pending) =
        kept_second_refused (not (same_role principal.role pending.required_role)) _ _ (λ _.
          kept_second_refused
            (not (contains (d.allowed_approvers principal.role) principal.actor_id)) _ _
            (λ _. kept_second_refused (not (is_none (lookup request_id s.approvals))) _ _ (λ free.
              recorded-IsUsed request_id (approved_by d now request_id principal ttl pending)
                free)))

    approve-IsUsed :
        (now : Time) (request_id : String) (principal : ApprovalPrincipal) (ttl : Time)
        → IsUsed id (kept_second d s (approve d now request_id principal ttl s))
    unfolding approve
    approve-IsUsed now request_id principal ttl =
        kept_second_refused (is_blank request_id) _ _ (λ _.
          kept_second_refused (not (d.is_finite ttl)) _ _ (λ _.
            kept_second_refused (d.not_positive ttl) _ _ (λ _.
              kept_second_refused (d.exceeds ttl d.max_ttl_seconds) _ _ (λ _.
                kept_second_refused (is_frozen s) _ _ (λ _.
                  granted-IsUsed now request_id principal ttl (lookup request_id s.pending))))))

    park-IsUsed :
        (request_id digest : String) (role : ApprovalRole)
        → IsUsed id (kept d s (park request_id digest role s))
    unfolding park
    park-IsUsed request_id digest role =
        let pending : PendingApproval = record {
          request_id = request_id;
          intent_digest = digest;
          required_role = role;
        } in
        let after = record s { pending = insert request_id pending s.pending } in
        let e = ApprovalInboxError.parked_for_another in
        let other = is_other (lookup request_id s.pending) pending in
        kept_refused (is_blank digest) ApprovalInboxError.empty_digest
          (refuse (is_frozen s) ApprovalInboxError.frozen >> (refuse other e >> ok after))
          (kept_refused (is_frozen s) ApprovalInboxError.frozen (refuse other e >> ok after)
            (kept_refused other e (ok after) used))

    freeze-IsUsed : (reason : String) → IsUsed id (kept d s (freeze reason s))
    unfolding freeze
    freeze-IsUsed reason =
        kept_refused (is_blank reason) ApprovalInboxError.empty_reason
          (ok (record s { frozen_reason = some reason })) used

    consumed_or_not-IsUsed :
        (request_id : String) (o : Option (ApprovalRecord Time))
        → IsUsed id (consumed_or_not request_id o s).1
    unfolding consumed_or_not
    consumed_or_not-IsUsed request_id none = used
    consumed_or_not-IsUsed request_id (some q) =
        let (r, l, u) = used in
        let written = lookup-insert request_id id (record q { consumed = true }) s.approvals in
        elim (Bool-cases (str_eq request_id id)) [
          | inl same ↦ (record q { consumed = true }, rw same at written, refl)
          | inr differs ↦ (r, (rw differs at written) ∙ l, u)
        ]

    consume-IsUsed :
        (now : Time) (request_id digest : String) (role : ApprovalRole)
        → IsUsed id (consume_if_approved d now request_id digest role s).1
    unfolding consume_if_approved
    consume-IsUsed now request_id digest role = from (is_frozen s)
      where
        from :
            (b : Bool)
            → IsUsed id
                (if b
                  then (false, s)
                  else consumed_or_not request_id
                      (can_consume d now digest role
                        (lookup request_id s.pending)
                        (lookup request_id s.approvals))
                      s).1
        from true = used
        from false = consumed_or_not-IsUsed request_id _

    -- A used approval is not consumed again.
    pub consume_used :
        (now : Time) (digest : String) (role : ApprovalRole)
        → (consume_if_approved d now id digest role s).0 ≡ false
    unfolding consume_if_approved can_consume consumed_or_not
    consume_used now digest role =
        let (r, l, u) = used in rw l (from (is_frozen s) (lookup id s.pending) r u)
      where
        from :
            (b : Bool) (o : Option PendingApproval) (r : ApprovalRecord Time)
            → r.consumed ≡ true
            → (if b
                then (false, s)
                else consumed_or_not id (can_consume d now digest role o (some r)) s).0
              ≡ false
        from true o r u = refl
        from false none r u = refl
        from false (some p) r u = rw u refl

  apply-IsUsed :
      (d : Settings Time) (id : String) (o : Operation Time) (s : Inbox Time)
      → IsUsed id s
      → IsUsed id (apply d o s)
  unfolding apply
  apply-IsUsed d id (Operation.freezes reason) s u = freeze-IsUsed d id s u reason
  apply-IsUsed d id (Operation.parks request_id digest role) s u =
      park-IsUsed d id s u request_id digest role
  apply-IsUsed d id (Operation.approves now request_id principal ttl) s u =
      approve-IsUsed d id s u now request_id principal ttl
  apply-IsUsed d id (Operation.consumes now request_id digest role) s u =
      consume-IsUsed d id s u now request_id digest role

  pub apply_all-IsUsed :
      (d : Settings Time) (id : String) (os : List (Operation Time)) (s : Inbox Time)
      → IsUsed id s
      → IsUsed id (apply_all d os s)
  unfolding apply_all
  apply_all-IsUsed d id [] s u = u
  apply_all-IsUsed d id (o ∷ os) s u =
      apply_all-IsUsed d id os (apply d o s) (apply-IsUsed d id o s u)
