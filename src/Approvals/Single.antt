-- ===== src/Approvals/Single.antt =====
-- Two calls of one reviewed request, with anything done to the inbox between them.
use cbrain.Prelude.{
  String, Option, none, some, true, false, List, ◌≡◌, ◌≢◌, refl, sym, ◌∙◌, inl, inr, eq_refl,
  Bool-cases,
}
use mathlib.Core.Path.{subst}
use cbrain.Prelude.Dict.{lookup-insert}
use cbrain.Json.{Fields}
use cbrain.Contracts.{ActionIntent}
use cbrain.Runtime.{Handler}
use cbrain.Approvals.{ApprovalRole}
use cbrain.Approvals.Inbox.{
  ApprovalRecord, Inbox, Settings, is_frozen, consumed_or_not, consume_if_approved,
}
use cbrain.Approvals.Bounded.{Company, Bounded, bounded_gateway}
use cbrain.Approvals.Once.{Operation, apply_all, IsUsed, consume_used, apply_all-IsUsed}
use cbrain.Approvals.Reviewed.{Allowed, bounded_gateway-Done}

module _ {Time : Type 0} (d : Settings Time) where
  consumed_or_not-IsUsed :
      (id : String) (o : Option (ApprovalRecord Time)) (s : Inbox Time)
      → (consumed_or_not id o s).0 ≡ true
      → IsUsed id (consumed_or_not id o s).1
  unfolding consumed_or_not
  consumed_or_not-IsUsed id none s h = absurd (cc)
  consumed_or_not-IsUsed id (some r) s h = (
    record r { consumed = true },
    lookup-insert id id (record r { consumed = true }) s.approvals ∙ rw (eq_refl id) refl,
    refl,
  )

  consume_if_approved-IsUsed :
      (now : Time) (id digest : String) (role : ApprovalRole) (s : Inbox Time)
      → (consume_if_approved d now id digest role s).0 ≡ true
      → IsUsed id (consume_if_approved d now id digest role s).1
  unfolding consume_if_approved
  consume_if_approved-IsUsed now id digest role s h = elim (Bool-cases (is_frozen s)) [
    | inl frozen ↦ absurd (let h' : false ≡ true = rw frozen at h in cc)
    | inr thawed ↦ rw thawed (consumed_or_not-IsUsed id _ s (rw thawed at h))
  ]

  -- An approval of the inbox is consumed once: after a consumption that answered true, a later one
  -- for the same request answers false, whatever operations lie between.
  pub inbox_consumption_once :
      (now now' : Time) (id digest digest' : String) (role role' : ApprovalRole)
      (os : List (Operation Time)) (s : Inbox Time)
      → (consume_if_approved d now id digest role s).0 ≡ true
      → (consume_if_approved d now' id digest' role'
          (apply_all d os (consume_if_approved d now id digest role s).1)).0
        ≡ false
  inbox_consumption_once now now' id digest digest' role role' os s h =
      let s' = apply_all d os (consume_if_approved d now id digest role s).1 in
      consume_used d id s'
        (apply_all-IsUsed d id os _ (consume_if_approved-IsUsed now id digest role s h)) now'
        digest' role'

  -- A request that no risk allows outright acts on the world in one call only: where one call has
  -- changed the world, a later call of the same request leaves the world as it finds it, whatever is
  -- parked, approved, consumed or frozen between the two, and whatever the handlers do.
  pub reviewed_request_runs_once :
      {World Out : Type 0} (company : Company) (now now' : Time)
      (handler handler' : Handler World Fields Out) (action action' : ActionIntent)
      (os : List (Operation Time)) (s t : Bounded Time) (w v : World)
      → action'.request_id ≡ action.request_id
      → ¬ (Allowed company action)
      → ¬ (Allowed company action')
      → (bounded_gateway d now handler action company s w).2 ≢ w
      → t.inbox ≡ apply_all d os (bounded_gateway d now handler action company s w).1.inbox
      → (bounded_gateway d now' handler' action' company t v).2 ≡ v
  reviewed_request_runs_once company now now' handler handler' action action' os s t w v same n n'
        ran between =
      elim (bounded_gateway-Done d now company handler action s w) [
        | inl quiet ↦ absurd (ran quiet)
        | inr (inl (a, _)) ↦ absurd (n a)
        | inr (inr (first, _)) ↦ elim (bounded_gateway-Done d now' company handler' action' t v) [
          | inl quiet ↦ quiet
          | inr (inl (a, _)) ↦ absurd (n' a)
          | inr (inr (second, _)) ↦
              let used =
                consume_if_approved-IsUsed now action.request_id first.digest first.role s.inbox
                  first.granted in
              let after =
                apply_all-IsUsed d action.request_id os _
                  (subst (IsUsed action.request_id) (sym first.used_up) used) in
              let here : IsUsed action'.request_id t.inbox =
                subst (λ k. IsUsed k t.inbox) (sym same)
                  (subst (IsUsed action.request_id) (sym between) after) in
              let refused =
                consume_used d action'.request_id t.inbox here now' second.digest second.role in
              absurd (let e : false ≡ true = sym refused ∙ second.granted in cc)
        ]
      ]
