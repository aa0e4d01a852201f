-- ===== src/Durable/Claims.antt =====
-- Versions grow with every write, so a dispatch is claimed at most once.
use cbrain.Prelude.{
  ℕ, ◌+◌, ◌≤◌, String, none, some, List, [], ◌∷◌, ok, ◌≡◌, arith, eq_iff, ◌==◌, str_eq,
  if◌then◌else◌, Option-cases, Bool-cases, inl, inr, ap, sym, not, ◌||◌, ◌∙◌,
}
use cbrain.Prelude.Dict.{lookup, insert, lookup-insert}
use cbrain.Durable.{DurableRunState, StoredRunRecord, is_prepared}
use cbrain.Durable.Store.{Records, Operation, claim_tool_dispatch, apply, apply_all}

-- The run is stored, at version `n` or a later one.
abbrev pub IsPast : String → ℕ → Records → Type 0
IsPast run_id n s = (r : StoredRunRecord) × (lookup run_id s ≡ some r) × (n ≤ r.version)

IsPast-insert :
    (run_id k : String) (n : ℕ) (r : StoredRunRecord) (s : Records)
    → IsPast run_id n s
    → (k ≡ run_id → n ≤ r.version)
    → IsPast run_id n (insert k r s)
IsPast-insert run_id k n r s (old, found, past) later = elim (Bool-cases (str_eq k run_id)) [
  | inl same ↦ (
    r,
    lookup-insert k run_id r s ∙ ap (λ b. if b then some r else lookup run_id s) same,
    later ((eq_iff k run_id).0 same),
  )
  | inr other ↦ (
    old,
    lookup-insert k run_id r s ∙ ap (λ b. if b then some r else lookup run_id s) other ∙ found,
    past,
  )
]

-- A write over a record by one of no earlier version.
IsPast-write :
    (run_id k : String) (n : ℕ) (current r : StoredRunRecord) (s : Records)
    → lookup k s ≡ some current
    → current.version ≤ r.version
    → IsPast run_id n s
    → IsPast run_id n (insert k r s)
IsPast-write run_id k n current r s e later (old, found, past) =
    IsPast-insert run_id k n r s (old, found, past)
      (λ same.
        let e' : some current ≡ some old = sym e ∙ ap (λ j. lookup j s) same ∙ found in grind arith)

-- No operation takes a run back to an earlier version.
pub apply-IsPast :
    (run_id : String) (n : ℕ) (s : Records) (op : Operation)
    → IsPast run_id n s
    → IsPast run_id n (apply s op)
unfolding apply
apply-IsPast run_id n s (Operation.creates r) h = elim (Option-cases (lookup r.run_id s)) [
  | inl new ↦
      rw (new, apply)
        (IsPast-insert run_id r.run_id n r s h
          (λ same. let e : none ≡ some h.0 = sym new ∙ ap (λ j. lookup j s) same ∙ h.1 in cc))
  | inr (old, e) ↦ rw (e, apply) h
]
apply-IsPast run_id n s (Operation.loads _) h = h
apply-IsPast run_id n s (Operation.saves r v) h = elim (Option-cases (lookup r.run_id s)) [
  | inl new ↦ rw (new, apply) h
  | inr (current, e) ↦ elim (Bool-cases (current.version == v)) [
    | inl same ↦
        rw (e, same, apply)
          (IsPast-write run_id r.run_id n current (record r { version = v + 1 }) s e (ground arith)
            h)
    | inr other ↦ rw (e, other, apply) h
  ]
]
apply-IsPast run_id n s (Operation.claims id v) h = elim (Option-cases (lookup id s)) [
  | inl new ↦ rw (new, apply) h
  | inr (current, e) ↦
      elim (Bool-cases (not (current.version == v) || not (is_prepared current.durable_state))) [
        | inl stale ↦ rw (e, stale, apply) h
        | inr fresh ↦
            rw (e, fresh, apply)
              (IsPast-write run_id id n current
                (record current { version = v + 1; durable_state = DurableRunState.tool_in_flight })
                s e (ground arith) h)
      ]
]

pub apply_all-IsPast :
    (run_id : String) (n : ℕ) (s : Records) (ops : List Operation)
    → IsPast run_id n s
    → IsPast run_id n (apply_all s ops)
unfolding apply_all
apply_all-IsPast run_id n s [] h = h
apply_all-IsPast run_id n s (op ∷ ops) h =
    apply_all-IsPast run_id n (apply s op) ops (apply-IsPast run_id n s op h)

-- A claim that wins leaves the run in flight at the next version.
pub claim-wins :
    (s s' : Records) (run_id : String) (v : ℕ) (r : StoredRunRecord)
    → claim_tool_dispatch s run_id v ≡ ok (some r, s')
    → IsPast run_id (v + 1) s'
unfolding claim_tool_dispatch
claim-wins s s' run_id v r h = elim (Option-cases (lookup run_id s)) [
  | inl new ↦ absurd (ground arith)
  | inr (current, e) ↦
      let updated = record current {
        version = v + 1;
        durable_state = DurableRunState.tool_in_flight;
      } in
      (r, ground (arith, lookup-insert run_id run_id updated s, eq_iff run_id run_id), ground arith)
]

-- A claim at a version that the run has left behind is refused, and changes nothing.
pub claim-past :
    (s : Records) (run_id : String) (v : ℕ)
    → IsPast run_id (v + 1) s
    → claim_tool_dispatch s run_id v ≡ ok (none, s)
unfolding claim_tool_dispatch
claim-past s run_id v (r, found, past) = ground arith

-- If a worker has claimed the dispatch of a run at a version, then after any operations of any
-- workers every further claim of this run at this version is refused and changes nothing.
pub claim_wins_once :
    (s s' : Records) (run_id : String) (v : ℕ) (r : StoredRunRecord) (ops : List Operation)
    → claim_tool_dispatch s run_id v ≡ ok (some r, s')
    → claim_tool_dispatch (apply_all s' ops) run_id v ≡ ok (none, apply_all s' ops)
claim_wins_once s s' run_id v r ops h =
    claim-past (apply_all s' ops) run_id v
      (apply_all-IsPast run_id (v + 1) s' ops (claim-wins s s' run_id v r h))
