-- ===== src/Durable/Sqlite.antt =====
-- cbrain/agent/store_sqlite.py: `SQLiteRunStore` over its table, whose statements run one at a time.
-- A stored text is kept as the JSON value that it encodes.
pub mod Represent
pub mod Refines
use cbrain.Prelude.{
  ℕ, ◌+◌, String, Option, none, some, Bool, true, false, ◌&&◌, ◌||◌, not, ltb, Result, ok, err,
  ◌>>=◌, ◌>>◌, refuse, map_err, ◌==◌, str_eq, if◌then◌else◌,
}
use cbrain.Prelude.Dict.{Dict, lookup, insert}
use cbrain.Json.{Json, Fields}
use cbrain.Contracts.{Float}
use cbrain.Durable.{RunStoreError, DurableRunState, StoredRunRecord}
use cbrain.Durable.Readers.{state_text}
use cbrain.Durable.Payload.{to_payload, from_mapping}

-- `record_json`: a JSON object, another JSON value, a text that is no JSON, or no text.
pub data Stored : Type 0 where
  object : Fields → Stored
  other_json no_json not_text : Stored

-- A row of `durable_runs` but its primary key. Its numbers are of the 64 bits of an INTEGER, which is
-- tested where a statement binds them.
pub record RunRow : Type 0 where
  pub schema_version : ℕ
  pub version : ℕ
  pub durable_state : String
  pub record_json : Stored

abbrev pub RunTable : Type 0
RunTable = Dict RunRow

-- What the methods raise: an error of the store, the one that sqlite3 raises for a ROLLBACK outside a
-- transaction, or the one that it raises for a number that is no INTEGER.
pub data SqliteError : Type 0 where
  store_error : RunStoreError → SqliteError
  operational_error overflow_error : SqliteError

-- A parameter that sqlite3 binds as an INTEGER.
abbrev pub is_integer : ℕ → Bool
is_integer n = ltb n 9223372036854775808

abbrev pub is_text : Stored → Bool
is_text Stored.not_text = false
is_text _ = true

-- The columns that are written for a record.
unfoldable pub row_of : StoredRunRecord → RunRow
unfolding state_text to_payload
row_of r = record {
  schema_version = r.schema_version;
  version = r.version;
  durable_state = state_text r.durable_state;
  record_json = Stored.object (to_payload r);
}

unfoldable pub from_json : (Json → Float) → Stored → Result RunStoreError StoredRunRecord
unfolding from_mapping
from_json to_float (Stored.object d) = from_mapping to_float d
from_json to_float Stored.other_json = err RunStoreError.not_object
from_json to_float _ = err RunStoreError.not_json

unfoldable pub validate_record_columns : StoredRunRecord → RunRow → Result RunStoreError (Unit {0})
unfolding state_text
validate_record_columns r row = do
  refuse (not (r.schema_version == row.schema_version))
      (RunStoreError.column_mismatch "schema_version")
  refuse (not (r.version == row.version)) (RunStoreError.column_mismatch "version")
  refuse (not (str_eq (state_text r.durable_state) row.durable_state))
      (RunStoreError.column_mismatch "durable_state")

-- A row's text, read and checked against its columns.
unfoldable pub read_row : (Json → Float) → RunRow → Result RunStoreError StoredRunRecord
unfolding from_json validate_record_columns
read_row to_float row =
    from_json to_float row.record_json >>= λ r. validate_record_columns r row >> ok r

unfoldable pub is_bindable : RunRow → Bool
is_bindable row = is_integer row.schema_version && is_integer row.version

unfoldable pub create : RunTable → StoredRunRecord → Result SqliteError RunTable
unfolding row_of lookup insert is_bindable
create t r =
    if not (is_bindable (row_of r))
    then err SqliteError.overflow_error
    else (elim (lookup r.run_id t) [
      | some _ ↦ err (SqliteError.store_error RunStoreError.already_exists)
      | none ↦ ok (insert r.run_id (row_of r) t)
    ])

unfoldable pub load : (Json → Float) → RunTable → String → Result RunStoreError StoredRunRecord
unfolding read_row lookup
load to_float t run_id = elim (lookup run_id t) [
  | none ↦ err RunStoreError.unknown_run
  | some row ↦
      if not (is_text row.record_json) then err RunStoreError.corrupted else read_row to_float row
]

-- `UPDATE ... WHERE run_id = ? AND version = ?`: none where no row was changed.
unfoldable pub update : String → ℕ → RunRow → RunTable → Option RunTable
unfolding lookup insert
update run_id expected row t = elim (lookup run_id t) [
  | none ↦ none
  | some current ↦ if current.version == expected then some (insert run_id row t) else none
]

-- `save`, which binds the expected version too, below the new one.
unfoldable pub save :
    RunTable → StoredRunRecord → ℕ → Result SqliteError (StoredRunRecord × RunTable)
unfolding update row_of is_bindable
save t r expected =
    let updated = record r { version = expected + 1 } in
    if not (is_bindable (row_of updated))
    then err SqliteError.overflow_error
    else (elim (update r.run_id expected (row_of updated) t) [
      | none ↦ err (SqliteError.store_error RunStoreError.version_conflict)
      | some t' ↦ ok (updated, t')
    ])

-- The claim's update, once the record is read.
unfoldable pub claim_row :
    RunTable → String → ℕ → StoredRunRecord → Result SqliteError (Option StoredRunRecord × RunTable)
unfolding update row_of is_bindable
claim_row t run_id expected r =
    let updated = record r {
      version = expected + 1;
      durable_state = DurableRunState.tool_in_flight;
    } in
    if not (is_bindable (row_of updated))
    then err SqliteError.overflow_error
    else (elim (update run_id expected (row_of updated) t) [
      | none ↦ ok (none, t)
      | some t' ↦ ok (some updated, t')
    ])

-- `claim_tool_dispatch`, whose transaction is rolled back when it raises.
unfoldable pub claim_tool_dispatch :
    (Json → Float) → RunTable → String → ℕ → Result SqliteError (Option StoredRunRecord × RunTable)
unfolding read_row claim_row lookup
claim_tool_dispatch to_float t run_id expected = elim (lookup run_id t) [
  | none ↦ err (SqliteError.store_error RunStoreError.unknown_run)
  | some row ↦
      if not (row.version == expected) || not (str_eq row.durable_state "TOOL_PREPARED")
      then ok (none, t)
      else if not (is_text row.record_json)
      then err SqliteError.operational_error
      else map_err SqliteError.store_error (read_row to_float row) >>= λ r.
          claim_row t run_id expected r
]
