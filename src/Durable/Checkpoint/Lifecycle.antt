-- ===== src/Durable/Checkpoint/Lifecycle.antt =====
-- Stored records stay consistent through the operations of the store and through finalization.
use cbrain.Prelude.{
  ℕ, ◌+◌, String, Option, some, true, List, ok, ◌≡◌, refl, ap, ◌∙◌, sym, arith, Option-cases,
  Bool-cases, inl, inr, ◌==◌, not, ◌||◌, str_eq, if◌then◌else◌,
}
use mathlib.Core.Path.{subst}
use cbrain.Prelude.Dict.{lookup, insert, lookup-insert}
use cbrain.Json.{Fields}
use cbrain.Durable.{DurableRunState, RunStatus, StoredRunRecord, validate_state_fields, is_prepared}
use cbrain.Durable.Store.{Records, Operation, apply, save, claim_tool_dispatch}
use cbrain.Durable.Resume.{RunEvent}
use cbrain.Durable.Checkpoint.{finalize_durable_record, terminal_state}

-- The fields that the state asks for are there.
abbrev pub IsConsistent : StoredRunRecord → Type 0
IsConsistent r = validate_state_fields r ≡ ok tt

abbrev pub AllConsistent : Records → Type 0
AllConsistent s = (id : String) (r : StoredRunRecord) → lookup id s ≡ some r → IsConsistent r

-- What an operation writes of its own is consistent.
abbrev pub WritesConsistent : Operation → Type 0
WritesConsistent (Operation.creates r) = IsConsistent r
WritesConsistent (Operation.saves r _) = IsConsistent r
WritesConsistent _ = Unit

insert-AllConsistent :
    (s : Records) (k : String) (r : StoredRunRecord)
    → AllConsistent s
    → IsConsistent r
    → AllConsistent (insert k r s)
insert-AllConsistent s k r h new id x e = elim (Bool-cases (str_eq k id)) [
  | inl same ↦
      let e' : some r ≡ some x =
        sym (lookup-insert k id r s ∙ ap (λ b. if b then some r else lookup id s) same) ∙ e in
      let e'' : r ≡ x = cc in subst IsConsistent e'' new
  | inr other ↦
      h id x (sym (lookup-insert k id r s ∙ ap (λ b. if b then some r else lookup id s) other) ∙ e)
]

-- A claim moves a consistent prepared record to a consistent one in flight.
claimed-IsConsistent :
    (r : StoredRunRecord) (v : ℕ)
    → is_prepared r.durable_state ≡ true
    → IsConsistent r
    → IsConsistent (record r { version = v; durable_state = DurableRunState.tool_in_flight })
unfolding validate_state_fields
claimed-IsConsistent r v prepared h = ground arith

versioned-IsConsistent :
    (r : StoredRunRecord) (v : ℕ) → IsConsistent r → IsConsistent (record r { version = v })
unfolding validate_state_fields
versioned-IsConsistent r v h = h

apply-AllConsistent :
    (s : Records) (op : Operation)
    → AllConsistent s
    → WritesConsistent op
    → AllConsistent (apply s op)
unfolding apply
apply-AllConsistent s (Operation.creates r) h w = elim (Option-cases (lookup r.run_id s)) [
  | inl new ↦ rw (new, apply) (insert-AllConsistent s r.run_id r h w)
  | inr (old, e) ↦ rw (e, apply) h
]
apply-AllConsistent s (Operation.loads _) h w = h
apply-AllConsistent s (Operation.saves r v) h w = elim (Option-cases (lookup r.run_id s)) [
  | inl new ↦ rw (new, apply) h
  | inr (current, e) ↦ elim (Bool-cases (current.version == v)) [
    | inl same ↦
        rw (e, same, apply)
          (insert-AllConsistent s r.run_id (record r { version = v + 1 }) h
            (versioned-IsConsistent r (v + 1) w))
    | inr other ↦ rw (e, other, apply) h
  ]
]
apply-AllConsistent s (Operation.claims id v) h w = elim (Option-cases (lookup id s)) [
  | inl new ↦ rw (new, apply) h
  | inr (current, e) ↦
      elim (Bool-cases (not (current.version == v) || not (is_prepared current.durable_state))) [
        | inl stale ↦ rw (e, stale, apply) h
        | inr fresh ↦
            rw (e, fresh, apply)
              (insert-AllConsistent s id
                (record current { version = v + 1; durable_state = DurableRunState.tool_in_flight })
                h (claimed-IsConsistent current (v + 1) (ground arith) (h id current e)))
      ]
]

pub save-AllConsistent :
    (s s' : Records) (r saved : StoredRunRecord) (v : ℕ)
    → save s r v ≡ ok (saved, s')
    → AllConsistent s
    → IsConsistent r
    → AllConsistent s'
unfolding apply
save-AllConsistent s s' r saved v e all c =
    rw (e, apply) at (apply-AllConsistent s (Operation.saves r v) all c)

-- A claim that is won leaves a record in flight that has its pending fields.
pub claim-AllConsistent :
    (s s' : Records) (id : String) (v : ℕ) (o : Option StoredRunRecord)
    → claim_tool_dispatch s id v ≡ ok (o, s')
    → AllConsistent s
    → AllConsistent s'
unfolding apply
claim-AllConsistent s s' id v o e all =
    rw (e, apply) at (apply-AllConsistent s (Operation.claims id v) all tt)

pub claimed_record :
    (s s' : Records) (id : String) (v : ℕ) (q : StoredRunRecord)
    → claim_tool_dispatch s id v ≡ ok (some q, s')
    → AllConsistent s
    → IsConsistent q × (q.durable_state ≡ DurableRunState.tool_in_flight)
unfolding claim_tool_dispatch
claimed_record s s' id v q e all = elim (Option-cases (lookup id s)) [
  | inl new ↦ absurd (ground arith)
  | inr (current, there) ↦
      elim (Bool-cases (not (current.version == v) || not (is_prepared current.durable_state))) [
        | inl stale ↦ absurd (ground arith)
        | inr fresh ↦
            let updated = record current {
              version = v + 1;
              durable_state = DurableRunState.tool_in_flight;
            } in
            let same : updated ≡ q = ground arith in
            subst (λ x. IsConsistent x × (x.durable_state ≡ DurableRunState.tool_in_flight)) same
              (claimed-IsConsistent current (v + 1) (ground arith) (all id current there), refl)
      ]
]

module _ {Message : Type 0} (serialize_message : Message → Fields) where
  -- A run that is finalized under any terminal status is consistent, whatever it was before.
  pub finalize-IsConsistent :
      (r : StoredRunRecord) (status : RunStatus) (final_text : Option String)
      (metadata : Option Fields) (events : Option (List RunEvent))
      (messages : Option (List Message)) (tool_calls turns : Option ℕ)
      → IsConsistent (
          finalize_durable_record serialize_message r
            (terminal_state status)
            status
            final_text
            metadata
            events
            messages
            tool_calls
            turns)
  unfolding validate_state_fields finalize_durable_record terminal_state
  finalize-IsConsistent r status final_text metadata events messages tool_calls turns = ground arith
