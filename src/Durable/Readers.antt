-- ===== src/Durable/Readers.antt =====
-- The checks that `from_mapping` makes on one value (cbrain/agent/durable.py), and the texts of the
-- two enumerations. A value is `none` where the key is missing, which `get` answers by `None`.
use cbrain.Prelude.{
  ℕ, String, Option, none, some, List, [], ◌∷◌, Result, ok, err, ◌>>=◌, str_eq, leb, is_blank,
  if◌then◌else◌,
}
use cbrain.Json.{Json, Items, Fields}
use cbrain.Contracts.{Float}
use cbrain.Durable.{RunStoreError, DurableRunState, RunStatus}

-- `_required_text`
unfoldable pub required_text : Option Json → String → Result RunStoreError String
required_text (some (Json.text s)) name =
    if is_blank s then err (RunStoreError.not_text name) else ok s
required_text _ name = err (RunStoreError.not_text name)

-- `_optional_str`
unfoldable pub optional_str : Option Json → String → Result RunStoreError (Option String)
optional_str none name = ok none
optional_str (some Json.null) name = ok none
optional_str (some (Json.text s)) name =
    if is_blank s then err (RunStoreError.not_text name) else ok (some s)
optional_str (some _) name = err (RunStoreError.not_text name)

-- `_non_negative_int`
unfoldable pub non_negative_int : Option Json → String → ℕ → Result RunStoreError ℕ
non_negative_int (some (Json.int n)) name minimum =
    if leb minimum n then ok n else err (RunStoreError.too_small name)
non_negative_int (some (Json.negative n)) name minimum = err (RunStoreError.too_small name)
non_negative_int _ name minimum = err (RunStoreError.not_integer name)

-- An `int` that is too large for a float does not convert.
unfoldable pub converted : Float → String → Result RunStoreError Float
converted (Float.finite s) name = ok (Float.finite s)
converted _ name = err (RunStoreError.not_number name)

-- `_finite_number`, with Python's conversion of an `int` to a float.
unfoldable pub finite_number : (Json → Float) → Option Json → String → Result RunStoreError Float
unfolding converted
finite_number to_float (some (Json.float s)) name = ok (Float.finite s)
finite_number to_float (some (Json.int n)) name = converted (to_float (Json.int n)) name
finite_number to_float (some (Json.negative n)) name = converted (to_float (Json.negative n)) name
finite_number to_float _ name = err (RunStoreError.not_number name)

-- `if not isinstance(value, dict): raise`
unfoldable pub mapping : Option Json → String → Result RunStoreError Fields
mapping (some (Json.obj d)) name = ok d
mapping _ name = err (RunStoreError.not_mapping name)

-- The same where `None` is let through.
unfoldable pub optional_mapping : Option Json → String → Result RunStoreError (Option Fields)
optional_mapping none name = ok none
optional_mapping (some Json.null) name = ok none
optional_mapping (some (Json.obj d)) name = ok (some d)
optional_mapping (some _) name = err (RunStoreError.not_mapping name)

unfoldable pub list_of : Option Json → String → Result RunStoreError Items
list_of (some (Json.arr l)) name = ok l
list_of _ name = err (RunStoreError.not_list name)

-- `_validate_message_list`, `_validate_event_list`
unfoldable pub validate_list : Items → String → Result RunStoreError (List Fields)
validate_list Items.nil name = ok []
validate_list (Items.cons (Json.obj d) l) name = validate_list l name >>= λ ds. ok (d ∷ ds)
validate_list (Items.cons _ l) name = err (RunStoreError.not_mapping name)

-- `DurableRunState.value`
unfoldable pub state_text : DurableRunState → String
state_text DurableRunState.running = "RUNNING"
state_text DurableRunState.tool_prepared = "TOOL_PREPARED"
state_text DurableRunState.tool_in_flight = "TOOL_IN_FLIGHT"
state_text DurableRunState.tool_completed = "TOOL_COMPLETED"
state_text DurableRunState.recovery_required = "RECOVERY_REQUIRED"
state_text DurableRunState.completed = "COMPLETED"
state_text DurableRunState.failed = "FAILED"
state_text DurableRunState.cancelled = "CANCELLED"

-- The first member whose text is the given one.
unfoldable pub find_member {ℓ} : {A : Type ℓ} → (A → String) → List A → String → Option A
find_member text [] s = none
find_member text (a ∷ l) s = if str_eq (text a) s then some a else find_member text l s

abbrev pub states : List DurableRunState
states =
    DurableRunState.running ∷ DurableRunState.tool_prepared ∷ DurableRunState.tool_in_flight
    ∷ DurableRunState.tool_completed ∷ DurableRunState.recovery_required ∷ DurableRunState.completed
    ∷ DurableRunState.failed ∷ DurableRunState.cancelled ∷ []

-- `durable_state`: a text, and the text of a member.
unfoldable pub durable_state : Option Json → Result RunStoreError DurableRunState
unfolding find_member state_text
durable_state (some (Json.text s)) = elim (find_member state_text states s) [
  | none ↦ err RunStoreError.wrong_state
  | some state ↦ ok state
]
durable_state _ = err (RunStoreError.not_text "durable_state")

-- `RunStatus.value`
unfoldable pub status_text : RunStatus → String
status_text RunStatus.completed = "completed"
status_text RunStatus.rejected = "rejected"
status_text RunStatus.invalid_model_response = "invalid_model_response"
status_text RunStatus.model_failure = "model_failure"
status_text RunStatus.tool_failure = "tool_failure"
status_text RunStatus.limit_reached = "limit_reached"
status_text RunStatus.timed_out = "timed_out"
status_text RunStatus.cancelled = "cancelled"
status_text RunStatus.recovery_required = "recovery_required"
status_text RunStatus.execution_in_flight = "execution_in_flight"

abbrev pub statuses : List RunStatus
statuses =
    RunStatus.completed ∷ RunStatus.rejected ∷ RunStatus.invalid_model_response
    ∷ RunStatus.model_failure ∷ RunStatus.tool_failure ∷ RunStatus.limit_reached
    ∷ RunStatus.timed_out ∷ RunStatus.cancelled ∷ RunStatus.recovery_required
    ∷ RunStatus.execution_in_flight ∷ []

-- `terminal_status`: missing, or the text of a member.
unfoldable pub terminal_status : Option Json → Result RunStoreError (Option RunStatus)
unfolding find_member status_text
terminal_status none = ok none
terminal_status (some Json.null) = ok none
terminal_status (some (Json.text s)) = elim (find_member status_text statuses s) [
  | none ↦ err RunStoreError.wrong_status
  | some status ↦ ok (some status)
]
terminal_status (some _) = err (RunStoreError.not_text "terminal_status")
