-- ===== src/Durable/Store.antt =====
-- cbrain/agent/store_memory.py: `InMemoryRunStore`. Each method runs under the lock, so it is one
-- step; a method that raises leaves the records alone.
use cbrain.Prelude.{
  ℕ, ◌+◌, String, Option, none, some, List, [], ◌∷◌, Result, ok, err, ◌==◌, ◌||◌, not,
  if◌then◌else◌,
}
use cbrain.Prelude.Dict.{Dict, lookup, insert}
use cbrain.Durable.{RunStoreError, DurableRunState, StoredRunRecord, is_prepared}

abbrev pub Records : Type 0
Records = Dict StoredRunRecord

unfoldable pub create : Records → StoredRunRecord → Result RunStoreError Records
create s r = elim (lookup r.run_id s) [
  | some _ ↦ err RunStoreError.already_exists
  | none ↦ ok (insert r.run_id r s)
]

unfoldable pub load : Records → String → Result RunStoreError StoredRunRecord
load s run_id = elim (lookup run_id s) [ none ↦ err RunStoreError.unknown_run | some r ↦ ok r ]

-- The record under the next version is stored and returned.
unfoldable pub save :
    Records → StoredRunRecord → ℕ → Result RunStoreError (StoredRunRecord × Records)
save s r expected = elim (lookup r.run_id s) [
  | none ↦ err RunStoreError.unknown_run
  | some current ↦
      if not (current.version == expected)
      then err RunStoreError.version_conflict
      else let updated = record r { version = expected + 1 } in
        ok (updated, insert r.run_id updated s)
]

-- The claim: `none` where the version or the state is not the expected one.
unfoldable pub claim_tool_dispatch :
    Records → String → ℕ → Result RunStoreError (Option StoredRunRecord × Records)
claim_tool_dispatch s run_id expected = elim (lookup run_id s) [
  | none ↦ err RunStoreError.unknown_run
  | some current ↦
      if not (current.version == expected) || not (is_prepared current.durable_state)
      then ok (none, s)
      else let updated = record current {
        version = expected + 1;
        durable_state = DurableRunState.tool_in_flight;
      } in
        ok (some updated, insert run_id updated s)
]

-- What workers do with the store, in any order.
pub data Operation : Type 0 where
  creates : StoredRunRecord → Operation
  loads : String → Operation
  saves : StoredRunRecord → ℕ → Operation
  claims : String → ℕ → Operation

-- The records after an operation, whether it returned or raised.
unfoldable pub apply : Records → Operation → Records
unfolding create save claim_tool_dispatch
apply s (Operation.creates r) = elim (create s r) [ ok s' ↦ s' | err _ ↦ s ]
apply s (Operation.loads _) = s
apply s (Operation.saves r v) = elim (save s r v) [ ok (_, s') ↦ s' | err _ ↦ s ]
apply s (Operation.claims id v) = elim (claim_tool_dispatch s id v) [ ok (_, s') ↦ s' | err _ ↦ s ]

unfoldable pub apply_all : Records → List Operation → Records
unfolding apply
apply_all s [] = s
apply_all s (op ∷ ops) = apply_all (apply s op) ops
