-- ===== src/Durable/RoundTrip.antt =====
-- A record that is written and read back is the same record.
use cbrain.Prelude.{
  ℕ, String, Option, none, some, false, List, [], ◌∷◌, ok, ◌≡◌, refl, ◌≤◌, arith, is_blank,
}
use cbrain.Json.{Json, Items, Fields}
use cbrain.Contracts.{Float, float_json}
use cbrain.Durable.{DurableRunState, RunStatus, StoredRunRecord, validate_state_fields}
use cbrain.Durable.Readers.{
  required_text, optional_str, non_negative_int, finite_number, mapping, optional_mapping, list_of,
  validate_list, durable_state, terminal_status, state_text,
}
use cbrain.Durable.Payload.{
  text_json, object_json, status_json, items, to_payload, schema, from_mapping,
}

-- A text that is there is not blank.
abbrev pub IsText : Option String → Type 0
IsText none = Unit
IsText (some s) = is_blank s ≡ false

abbrev pub IsFinite : Float → Type 0
IsFinite (Float.finite _) = Unit
IsFinite _ = ⊥

-- The records that a store can give back.
pub record IsStorable (r : StoredRunRecord) : Type 0 where
  pub schema : r.schema_version ≡ 2
  pub named : is_blank r.run_id ≡ false
  pub fingerprinted : is_blank r.profile_fingerprint ≡ false
  pub tasked : is_blank r.task ≡ false
  pub started : IsFinite r.started_at_utc
  pub expires : IsFinite r.expires_at_utc
  pub stepped : 1 ≤ r.next_step
  pub request : IsText r.pending_request_id
  pub key : IsText r.pending_idempotency_key
  pub call : IsText r.pending_tool_call_id
  pub tool : IsText r.pending_tool_name
  pub status : IsText r.pending_execution_status
  pub reason : IsText r.pending_execution_reason
  pub final : IsText r.final_text
  pub consistent : validate_state_fields r ≡ ok tt

required_text_lem :
    (s name : String) → is_blank s ≡ false → required_text (some (Json.text s)) name ≡ ok s
unfolding required_text
required_text_lem s name h = rw h

optional_str_lem :
    (o : Option String) (name : String) → IsText o → optional_str (some (text_json o)) name ≡ ok o
unfolding optional_str
optional_str_lem none name h = refl
optional_str_lem (some s) name h = rw h

non_negative_int_lem :
    (n : ℕ) (name : String) (minimum : ℕ)
    → minimum ≤ n
    → non_negative_int (some (Json.int n)) name minimum ≡ ok n
unfolding non_negative_int
non_negative_int_lem n name minimum h = ground arith

finite_number_lem :
    (f : Json → Float) (x : Float) (name : String)
    → IsFinite x
    → finite_number f (some (float_json x)) name ≡ ok x
unfolding finite_number float_json
finite_number_lem f (Float.finite s) name h = refl
finite_number_lem f Float.infinite name h = absurd h
finite_number_lem f Float.nan name h = absurd h

mapping_lem : (d : Fields) (name : String) → mapping (some (Json.obj d)) name ≡ ok d
unfolding mapping
mapping_lem d name = refl

list_of_lem : (l : Items) (name : String) → list_of (some (Json.arr l)) name ≡ ok l
unfolding list_of
list_of_lem l name = refl

optional_mapping_lem :
    (o : Option Fields) (name : String) → optional_mapping (some (object_json o)) name ≡ ok o
unfolding optional_mapping
optional_mapping_lem none name = refl
optional_mapping_lem (some d) name = refl

validate_list_lem : (ds : List Fields) (name : String) → validate_list (items ds) name ≡ ok ds
unfolding validate_list items
validate_list_lem [] name = refl
validate_list_lem (d ∷ ds) name = rw (validate_list_lem ds name)

durable_state_lem : (s : DurableRunState) → durable_state (some (Json.text (state_text s))) ≡ ok s
unfolding durable_state
durable_state_lem DurableRunState.running = refl
durable_state_lem DurableRunState.tool_prepared = refl
durable_state_lem DurableRunState.tool_in_flight = refl
durable_state_lem DurableRunState.tool_completed = refl
durable_state_lem DurableRunState.recovery_required = refl
durable_state_lem DurableRunState.completed = refl
durable_state_lem DurableRunState.failed = refl
durable_state_lem DurableRunState.cancelled = refl

terminal_status_lem : (o : Option RunStatus) → terminal_status (some (status_json o)) ≡ ok o
unfolding terminal_status status_json
terminal_status_lem none = refl
terminal_status_lem (some RunStatus.completed) = refl
terminal_status_lem (some RunStatus.rejected) = refl
terminal_status_lem (some RunStatus.invalid_model_response) = refl
terminal_status_lem (some RunStatus.model_failure) = refl
terminal_status_lem (some RunStatus.tool_failure) = refl
terminal_status_lem (some RunStatus.limit_reached) = refl
terminal_status_lem (some RunStatus.timed_out) = refl
terminal_status_lem (some RunStatus.cancelled) = refl
terminal_status_lem (some RunStatus.recovery_required) = refl
terminal_status_lem (some RunStatus.execution_in_flight) = refl

schema_lem : (n : ℕ) → n ≡ 2 → schema (some (Json.int n)) ≡ ok n
unfolding schema
schema_lem n h = ground arith

-- A record of schema version 2 whose texts are not blank, whose times are finite, whose next step is
-- at least 1, and whose fields are consistent with its state is read back by `from_mapping`,
-- unchanged, from the object that `to_json` writes.
pub from_mapping-to_payload :
    (to_float : Json → Float) (r : StoredRunRecord)
    → IsStorable r
    → from_mapping to_float (to_payload r) ≡ ok r
unfolding from_mapping to_payload
from_mapping-to_payload to_float r h =
    simp
      (
        schema_lem _ h.schema,
        non_negative_int_lem r.version "version" 0 (omega arith),
        required_text_lem r.run_id "run_id" h.named,
        durable_state_lem,
        required_text_lem r.profile_fingerprint "profile_fingerprint" h.fingerprinted,
        required_text_lem r.task "task" h.tasked,
        mapping_lem,
        finite_number_lem to_float r.started_at_utc "started_at_utc" h.started,
        finite_number_lem to_float r.expires_at_utc "expires_at_utc" h.expires,
        non_negative_int_lem r.next_step "next_step" 1 h.stepped,
        non_negative_int_lem r.tool_calls "tool_calls" 0 (omega arith),
        non_negative_int_lem r.model_turns "model_turns" 0 (omega arith),
        list_of_lem,
        validate_list_lem,
        terminal_status_lem,
        optional_mapping_lem,
        optional_str_lem r.final_text "final_text" h.final,
        optional_str_lem r.pending_request_id "pending_request_id" h.request,
        optional_str_lem r.pending_idempotency_key "pending_idempotency_key" h.key,
        optional_str_lem r.pending_tool_call_id "pending_tool_call_id" h.call,
        optional_str_lem r.pending_tool_name "pending_tool_name" h.tool,
        optional_str_lem r.pending_execution_status "pending_execution_status" h.status,
        optional_str_lem r.pending_execution_reason "pending_execution_reason" h.reason,
      )
      (rw h.consistent)
