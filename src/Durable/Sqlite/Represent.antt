-- ===== src/Durable/Sqlite/Represent.antt =====
-- The table that stands for the records of the store in memory.
use cbrain.Prelude.{
  ℕ, ◌<◌, ◌+◌, String, Option, none, some, Bool, true, false, List, [], ◌∷◌, ok, str_eq, eq_refl,
  ◌≡◌, refl, sym, ap, ◌∙◌, arith, if◌then◌else◌,
}
use mathlib.Core.Path.{subst}
use cbrain.Prelude.Dict.{lookup, insert, lookup-insert}
use cbrain.Json.{Json}
use cbrain.Contracts.{Float}
use cbrain.Durable.{
  DurableRunState, StoredRunRecord, is_prepared, validate_state_fields, require_pending,
}
use cbrain.Durable.Readers.{state_text}
use cbrain.Durable.RoundTrip.{IsStorable, from_mapping-to_payload}
use cbrain.Durable.Store.{Records, Operation}
use cbrain.Durable.Sqlite.{
  RunRow, RunTable, row_of, from_json, validate_record_columns, read_row, is_bindable,
}

-- The rows that stand for records.
abbrev pub rows_of : Option StoredRunRecord → Option RunRow
rows_of none = none
rows_of (some r) = some (row_of r)

abbrev pub Represents : RunTable → Records → Type 0
Represents t s = (id : String) → lookup id t ≡ rows_of (lookup id s)

abbrev pub AllStorable : Records → Type 0
AllStorable s = (id : String) (r : StoredRunRecord) → lookup id s ≡ some r → IsStorable r

-- A version that is stored in an INTEGER.
abbrev pub IsInteger : ℕ → Type 0
IsInteger v = v < 9223372036854775808

-- What an operation brings in can be stored: a record, and the version that it writes.
abbrev pub Brings : Operation → Type 0
Brings (Operation.creates r) = IsStorable r × IsInteger r.version
Brings (Operation.saves r v) = IsStorable r × IsInteger (v + 1)
Brings (Operation.claims id v) = IsInteger (v + 1)
Brings _ = Unit

abbrev pub AllBring : List Operation → Type 0
AllBring [] = Unit
AllBring (o ∷ os) = Brings o × AllBring os

pub insert-Represents :
    (id : String) (r : StoredRunRecord) (t : RunTable) (s : Records)
    → Represents t s
    → Represents (insert id (row_of r) t) (insert id r s)
insert-Represents id r t s h j =
    lookup-insert id j (row_of r) t
    ∙ (both (str_eq id j) ∙ ap rows_of (sym (lookup-insert id j r s)))
  where
    both :
        (b : Bool)
        → (if b then some (row_of r) else lookup j t) ≡ rows_of (if b then some r else lookup j s)
    both true = refl
    both false = h j

pub insert-AllStorable :
    (id : String) (r : StoredRunRecord) (s : Records)
    → IsStorable r
    → AllStorable s
    → AllStorable (insert id r s)
insert-AllStorable id r s k h j q e = from (str_eq id j) (sym (lookup-insert id j r s) ∙ e)
  where
    from : (b : Bool) → (if b then some r else lookup j s) ≡ some q → IsStorable q
    from true e' = let same : r ≡ q = cc in subst IsStorable same k
    from false e' = h j q e'

pub version-IsStorable :
    (r : StoredRunRecord) (v : ℕ) → IsStorable r → IsStorable (record r { version = v })
unfolding validate_state_fields require_pending
version-IsStorable r v h = record {
  schema = h.schema;
  named = h.named;
  fingerprinted = h.fingerprinted;
  tasked = h.tasked;
  started = h.started;
  expires = h.expires;
  stepped = h.stepped;
  request = h.request;
  key = h.key;
  call = h.call;
  tool = h.tool;
  status = h.status;
  reason = h.reason;
  final = h.final;
  consistent = h.consistent;
}

prepared_eq : (d : DurableRunState) → is_prepared d ≡ true → d ≡ DurableRunState.tool_prepared
prepared_eq d h = ground arith

pub claim-IsStorable :
    (r : StoredRunRecord) (v : ℕ)
    → is_prepared r.durable_state ≡ true
    → IsStorable r
    → IsStorable (record r { version = v; durable_state = DurableRunState.tool_in_flight })
unfolding validate_state_fields require_pending
claim-IsStorable r v p h = record {
  schema = h.schema;
  named = h.named;
  fingerprinted = h.fingerprinted;
  tasked = h.tasked;
  started = h.started;
  expires = h.expires;
  stepped = h.stepped;
  request = h.request;
  key = h.key;
  call = h.call;
  tool = h.tool;
  status = h.status;
  reason = h.reason;
  final = h.final;
  consistent = let e = prepared_eq r.durable_state p in rw e at h.consistent;
}

pub is_bindable-row_of :
    (r : StoredRunRecord) → IsStorable r → IsInteger r.version → is_bindable (row_of r) ≡ true
unfolding row_of is_bindable
is_bindable-row_of r h n = let e = h.schema in rw e (ground arith)

pub row_version : (r : StoredRunRecord) → (row_of r).version ≡ r.version
unfolding row_of
row_version r = refl

state_text-prepared : (d : DurableRunState) → str_eq (state_text d) "TOOL_PREPARED" ≡ is_prepared d
unfolding state_text
state_text-prepared DurableRunState.running = refl
state_text-prepared DurableRunState.tool_prepared = refl
state_text-prepared DurableRunState.tool_in_flight = refl
state_text-prepared DurableRunState.tool_completed = refl
state_text-prepared DurableRunState.recovery_required = refl
state_text-prepared DurableRunState.completed = refl
state_text-prepared DurableRunState.failed = refl
state_text-prepared DurableRunState.cancelled = refl

pub row_prepared :
    (r : StoredRunRecord)
    → str_eq (row_of r).durable_state "TOOL_PREPARED" ≡ is_prepared r.durable_state
unfolding row_of
row_prepared r = state_text-prepared r.durable_state

module _ (to_float : Json → Float) where
  pub read_row-row_of : (r : StoredRunRecord) → IsStorable r → read_row to_float (row_of r) ≡ ok r
  unfolding read_row row_of from_json validate_record_columns
  read_row-row_of r h =
      rw (from_mapping-to_payload to_float r h)
        (ground (arith, eq_refl (state_text r.durable_state)))
