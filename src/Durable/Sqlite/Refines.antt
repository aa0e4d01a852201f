-- ===== src/Durable/Sqlite/Refines.antt =====
-- The SQLite store answers as the store in memory does.
use cbrain.Prelude.{
  ℕ, ◌+◌, String, Option, none, some, true, ◌||◌, not, List, [], ◌∷◌, ok, err, ◌==◌, ◌≡◌, refl, sym,
  ap, ◌∙◌, arith, Bool-cases, Option-cases, inl, inr,
}
use mathlib.Core.Path.{subst}
use cbrain.Prelude.Dict.{lookup, insert}
use cbrain.Json.{Json}
use cbrain.Contracts.{Float}
use cbrain.Durable.{DurableRunState, StoredRunRecord, is_prepared}
use cbrain.Durable.RoundTrip.{IsStorable}
use cbrain.Durable.Store.{Records, Operation}
use cbrain.Durable.Store as Memory
use cbrain.Durable.Sqlite.{
  Stored, RunRow, RunTable, is_bindable, row_of, from_json, validate_record_columns, read_row,
  update, claim_row,
}
use cbrain.Durable.Sqlite as Sqlite
use cbrain.Durable.Sqlite.Represent.{
  Represents, AllStorable, AllBring, Brings, insert-Represents, insert-AllStorable,
  version-IsStorable, claim-IsStorable, row_version, row_prepared, read_row-row_of,
  is_bindable-row_of, IsInteger,
}

-- What an operation answers; which error it raised is left out.
pub data Told : Type 0 where
  done failed : Told
  gives : StoredRunRecord → Told
  claimed : Option StoredRunRecord → Told

unfoldable pub memory_step : Records → Operation → Told × Records
unfolding Memory.create Memory.load Memory.save Memory.claim_tool_dispatch
memory_step s (Operation.creates r) = elim (Memory.create s r) [
  | ok s' ↦ (Told.done, s')
  | err _ ↦ (Told.failed, s)
]
memory_step s (Operation.loads id) = elim (Memory.load s id) [
  | ok r ↦ (Told.gives r, s)
  | err _ ↦ (Told.failed, s)
]
memory_step s (Operation.saves r v) = elim (Memory.save s r v) [
  | ok (r', s') ↦ (Told.gives r', s')
  | err _ ↦ (Told.failed, s)
]
memory_step s (Operation.claims id v) = elim (Memory.claim_tool_dispatch s id v) [
  | ok (o, s') ↦ (Told.claimed o, s')
  | err _ ↦ (Told.failed, s)
]

unfoldable pub memory_run : Records → List Operation → List Told
unfolding memory_step
memory_run s [] = []
memory_run s (o ∷ os) = let (a, s') = memory_step s o in a ∷ memory_run s' os

module _ (to_float : Json → Float) where
  unfoldable pub sqlite_step : RunTable → Operation → Told × RunTable
  unfolding Sqlite.create Sqlite.load Sqlite.save Sqlite.claim_tool_dispatch
  sqlite_step t (Operation.creates r) = elim (Sqlite.create t r) [
    | ok t' ↦ (Told.done, t')
    | err _ ↦ (Told.failed, t)
  ]
  sqlite_step t (Operation.loads id) = elim (Sqlite.load to_float t id) [
    | ok r ↦ (Told.gives r, t)
    | err _ ↦ (Told.failed, t)
  ]
  sqlite_step t (Operation.saves r v) = elim (Sqlite.save t r v) [
    | ok (r', t') ↦ (Told.gives r', t')
    | err _ ↦ (Told.failed, t)
  ]
  sqlite_step t (Operation.claims id v) = elim (Sqlite.claim_tool_dispatch to_float t id v) [
    | ok (o, t') ↦ (Told.claimed o, t')
    | err _ ↦ (Told.failed, t)
  ]

  unfoldable pub sqlite_run : RunTable → List Operation → List Told
  unfolding sqlite_step
  sqlite_run t [] = []
  sqlite_run t (o ∷ os) = let (a, t') = sqlite_step t o in a ∷ sqlite_run t' os

  -- Both stores have answered alike, and the table still stands for the records.
  pub record Agrees (x : Told × RunTable) (y : Told × Records) : Type 0 where
    pub answers : x.0 ≡ y.0
    pub represents : Represents x.1 y.1
    pub storable : AllStorable y.1

  module _ (t : RunTable) (s : Records) (h : Represents t s) (k : AllStorable s) where
    -- An operation that has changed nothing, and one that has written a record.
    same-Agrees :
        (x : Told × RunTable) (y : Told × Records) (a : Told) → x ≡ (a, t) → y ≡ (a, s) → Agrees x y
    same-Agrees x y a e f = record {
      answers = ap (λ z. z.0) e ∙ ap (λ z. z.0) (sym f);
      represents =
          subst (λ z. Represents z.1 y.1) (sym e) (subst (λ z. Represents t z.1) (sym f) h);
      storable = subst (λ z. AllStorable z.1) (sym f) k;
    }

    written-Agrees :
        (x : Told × RunTable) (y : Told × Records) (a : Told) (id : String) (r : StoredRunRecord)
        → IsStorable r
        → x ≡ (a, insert id (row_of r) t)
        → y ≡ (a, insert id r s)
        → Agrees x y
    written-Agrees x y a id r b e f = record {
      answers = ap (λ z. z.0) e ∙ ap (λ z. z.0) (sym f);
      represents =
          subst (λ z. Represents z.1 y.1) (sym e)
            (subst (λ z. Represents (insert id (row_of r) t) z.1) (sym f)
              (insert-Represents id r t s h));
      storable = subst (λ z. AllStorable z.1) (sym f) (insert-AllStorable id r s b k);
    }

    create-Agrees :
        (r : StoredRunRecord)
        → IsStorable r
        → IsInteger r.version
        → Agrees (sqlite_step t (Operation.creates r)) (memory_step s (Operation.creates r))
    unfolding sqlite_step memory_step Sqlite.create Memory.create
    create-Agrees r b n = elim (Option-cases (lookup r.run_id s)) [
      | inl free ↦
          written-Agrees _ _ Told.done r.run_id r b
            ((ground (arith, is_bindable-row_of r b n, h r.run_id, free))) (ground (arith, free))
      | inr (q, taken) ↦
          same-Agrees _ _ Told.failed
            ((ground (arith, is_bindable-row_of r b n, h r.run_id, taken))) (ground (arith, taken))
    ]

    load-Agrees :
        (id : String)
        → Agrees (sqlite_step t (Operation.loads id)) (memory_step s (Operation.loads id))
    unfolding sqlite_step memory_step Sqlite.load Memory.load
    load-Agrees id = elim (Option-cases (lookup id s)) [
      | inl free ↦ same-Agrees _ _ Told.failed (ground (arith, h id, free)) (ground (arith, free))
      | inr (q, there) ↦
          same-Agrees _ _ (Told.gives q)
            (ground (arith, h id, there, read_row-row_of to_float q (k id q there)))
            (ground (arith, there))
    ]

    save-Agrees :
        (r : StoredRunRecord) (v : ℕ)
        → IsStorable r
        → IsInteger (v + 1)
        → Agrees (sqlite_step t (Operation.saves r v)) (memory_step s (Operation.saves r v))
    unfolding sqlite_step memory_step Sqlite.save Memory.save update
    save-Agrees r v b n =
        let updated = record r { version = v + 1 } in
        let fits = is_bindable-row_of updated (version-IsStorable r (v + 1) b) n in
        elim (Option-cases (lookup r.run_id s)) [
          | inl free ↦
              same-Agrees _ _ Told.failed ((ground (arith, fits, h r.run_id, free)))
                (ground (arith, free))
          | inr (q, there) ↦ elim (Bool-cases (q.version == v)) [
            | inl current ↦
                written-Agrees _ _ (Told.gives updated) r.run_id updated
                  (version-IsStorable r (v + 1) b)
                  ((ground (arith, fits, h r.run_id, there, row_version q, current)))
                  (ground (arith, there, current))
            | inr stale ↦
                same-Agrees _ _ Told.failed
                  ((ground (arith, fits, h r.run_id, there, row_version q, stale)))
                  (ground (arith, there, stale))
          ]
        ]

    claim_row-eq :
        (id : String) (v : ℕ) (q : StoredRunRecord)
        → is_prepared q.durable_state ≡ true
        → IsInteger (v + 1)
        → lookup id s ≡ some q
        → q.version ≡ v
        → claim_row t id v q
          ≡ ok (
            some (record q { version = v + 1; durable_state = DurableRunState.tool_in_flight }),
            insert id
                (row_of
                  (record q { version = v + 1; durable_state = DurableRunState.tool_in_flight }))
                t,
          )
    unfolding claim_row update
    claim_row-eq id v q p n there same =
        let fits =
          is_bindable-row_of
            (record q { version = v + 1; durable_state = DurableRunState.tool_in_flight })
            (claim-IsStorable q (v + 1) p (k id q there)) n in
        ground (arith, fits, h id, there, row_version q, same)

    claim-Agrees :
        (id : String) (v : ℕ)
        → IsInteger (v + 1)
        → Agrees (sqlite_step t (Operation.claims id v)) (memory_step s (Operation.claims id v))
    unfolding sqlite_step memory_step Sqlite.claim_tool_dispatch Memory.claim_tool_dispatch
    claim-Agrees id v n = elim (Option-cases (lookup id s)) [
      | inl free ↦ same-Agrees _ _ Told.failed (ground (arith, h id, free)) (ground (arith, free))
      | inr (q, there) ↦
          let updated = record q {
            version = v + 1;
            durable_state = DurableRunState.tool_in_flight;
          } in
          elim (Bool-cases (not (q.version == v) || not (is_prepared q.durable_state))) [
            | inl refused ↦
                same-Agrees _ _ (Told.claimed none)
                  (ground (arith, h id, there, row_version q, row_prepared q, refused))
                  (ground (arith, there, refused))
            | inr won ↦
                written-Agrees _ _ (Told.claimed (some updated)) id updated
                  (claim-IsStorable q (v + 1) (ground arith) (k id q there))
                  (ground (
                    arith,
                    h id,
                    there,
                    row_version q,
                    row_prepared q,
                    won,
                    read_row-row_of to_float q (k id q there),
                    claim_row-eq id v q (ground arith) n there (ground arith),
                  ))
                  (ground (arith, there, won))
          ]
    ]

    step-Agrees : (o : Operation) → Brings o → Agrees (sqlite_step t o) (memory_step s o)
    step-Agrees (Operation.creates r) (b, n) = create-Agrees r b n
    step-Agrees (Operation.loads id) b = load-Agrees id
    step-Agrees (Operation.saves r v) (b, n) = save-Agrees r v b n
    step-Agrees (Operation.claims id v) n = claim-Agrees id v n

  -- The SQLite store refines the store in memory: from a table that stands for storable records, any
  -- operations that bring in storable records, and that write versions below 2^63 only, get the same
  -- answers from both, one after the other, where which error was raised is left out.
  pub sqlite_run-refines :
      (t : RunTable) (s : Records) (os : List Operation)
      → Represents t s
      → AllStorable s
      → AllBring os
      → sqlite_run t os ≡ memory_run s os
  unfolding sqlite_run memory_run
  sqlite_run-refines t s [] h k b = refl
  sqlite_run-refines t s (o ∷ os) h k (b, bs) =
      let agrees = step-Agrees t s h k o b in
      let rest =
        sqlite_run-refines (sqlite_step t o).1 (memory_step s o).1 os agrees.represents
          agrees.storable bs in
      ap (λ a. a ∷ sqlite_run (sqlite_step t o).1 os) agrees.answers
      ∙ ap (λ l. (memory_step s o).0 ∷ l) rest
