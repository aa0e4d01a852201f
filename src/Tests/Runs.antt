-- ===== src/Tests/Runs.antt =====
-- A stored run whose tool call is prepared.
use cbrain.Prelude.{
  String, none, some, true, false, List, [], ◌∷◌, Result, ok, ◌≡◌, refl, is_blank, codes, codes_eq,
  strip, arith, Bool-cases, str_eq, inl, inr,
}
use mathlib.Core.Path.{subst}
use cbrain.Prelude.Dict.{lookup, insert}
use cbrain.Json.{Json, Fields}
use cbrain.Contracts.{Float}
use cbrain.Durable.{
  RunStoreError, DurableRunState, StoredRunRecord, require_pending, validate_state_fields,
}
use cbrain.Durable.Store.{Records, Operation, claim_tool_dispatch, apply_all}
use cbrain.Durable.Claims.{claim_wins_once}
use cbrain.Durable.Payload.{to_payload, from_mapping}
use cbrain.Durable.RoundTrip.{IsStorable, from_mapping-to_payload}
use cbrain.Durable.Sqlite.Represent.{Represents, AllStorable}
use cbrain.Durable.Sqlite.Refines.{memory_run, sqlite_run, sqlite_run-refines}
use cbrain.Durable.Resume.{RunInput, Resumed, traverse, continue_run, resume_durable_run}
use cbrain.Durable.Resume.Outcomes.{Follows, resume_durable_run-Follows}
use cbrain.Durable.Checkpoint.Lifecycle.{AllConsistent, IsConsistent}

abbrev pub prepared : StoredRunRecord
prepared = record {
  schema_version = 2;
  version = 3;
  run_id = "run-1";
  durable_state = DurableRunState.tool_prepared;
  profile_fingerprint = "sha256:profile";
  task = "refund order 7";
  run_metadata = Fields.end;
  started_at_utc = Float.finite "1700000000.0";
  expires_at_utc = Float.finite "1700000060.0";
  next_step = 2;
  tool_calls = 1;
  model_turns = 1;
  messages = Fields.end ∷ [];
  events = [];
  pending_request_id = some "req-1";
  pending_idempotency_key = some "req-1";
  pending_action = some Fields.end;
  pending_tool_call_id = some "call-1";
  pending_tool_name = some "refund";
  pending_execution_status = none;
  pending_execution_output = Json.null;
  pending_execution_reason = none;
  terminal_status = none;
  final_text = none;
  terminal_metadata = none;
}

abbrev in_flight : StoredRunRecord
in_flight = record prepared { version = 4; durable_state = DurableRunState.tool_in_flight }

abbrev pub records : Records
records = ("run-1", prepared) ∷ []

abbrev claimed : Records
claimed = ("run-1", in_flight) ∷ []

-- Another worker loads the run, saves an old copy, claims again, and creates a run of its own.
abbrev pub other_worker : List Operation
other_worker =
    Operation.loads "run-1"
    ∷ Operation.saves prepared 3
    ∷ Operation.claims "run-1" 3
    ∷ Operation.creates (record prepared { run_id = "run-2" })
    ∷ []

claim_run : claim_tool_dispatch records "run-1" 3 ≡ ok (some in_flight, claimed)
unfolding claim_tool_dispatch lookup insert
claim_run = refl

claim_wins_once_example :
    claim_tool_dispatch (apply_all claimed other_worker) "run-1" 3
    ≡ ok (none, apply_all claimed other_worker)
claim_wins_once_example = claim_wins_once records claimed "run-1" 3 in_flight other_worker claim_run

prepared-IsConsistent : IsConsistent prepared
unfolding validate_state_fields require_pending
prepared-IsConsistent = refl

prepared-IsStorable : IsStorable prepared
unfolding is_blank
prepared-IsStorable = record {
  schema = refl;
  named = refl;
  fingerprinted = refl;
  tasked = refl;
  started = tt;
  expires = tt;
  stepped = omega arith;
  request = refl;
  key = refl;
  call = refl;
  tool = refl;
  status = tt;
  reason = tt;
  final = tt;
  consistent = prepared-IsConsistent;
}

abbrev pub to_float : Json → Float
to_float (Json.float s) = Float.finite s
to_float _ = Float.nan

from_mapping-to_payload_example : from_mapping to_float (to_payload prepared) ≡ ok prepared
from_mapping-to_payload_example = from_mapping-to_payload to_float prepared prepared-IsStorable

-- The task is given with white space around it.
abbrev pub again : RunInput
again = record { task = " refund order 7\n"; run_id = some "run-1"; metadata = none }

abbrev pub read_message : Fields → Result RunStoreError Fields
read_message d = ok d

abbrev resumed : Resumed Fields
resumed = Resumed.context (record {
  run_input = again;
  run_id = "run-1";
  started_at_utc = Float.finite "1700000000.0";
  events = [];
  messages = Fields.end ∷ [];
  tool_calls = 1;
  model_turns = 1;
  next_step = 2;
  stored = prepared;
  merge_completed_tool = false;
})

resume_run : resume_durable_run to_float read_message "sha256:profile" again prepared ≡ ok resumed
unfolding resume_durable_run continue_run traverse codes_eq strip
resume_run = refl

resume_durable_run-Follows_example :
    (◌≡◌ {A = String} "sha256:profile" "sha256:profile")
    × (codes_eq (strip (codes " refund order 7\n")) (strip (codes "refund order 7")) ≡ true)
    × Follows prepared resumed
resume_durable_run-Follows_example =
    resume_durable_run-Follows to_float read_message "sha256:profile" again prepared resume_run

pub records-AllConsistent : AllConsistent records
unfolding lookup
records-AllConsistent id r e = elim (Bool-cases (str_eq "run-1" id)) [
  | inl same ↦
      let e' : some prepared ≡ some r = rw same at e in
      let e'' : prepared ≡ r = cc in subst IsConsistent e'' prepared-IsConsistent
  | inr different ↦ let e' : none ≡ some r = rw different at e in absurd (cc)
]

abbrev a_run : List Operation
a_run =
    Operation.creates prepared
    ∷ Operation.creates prepared
    ∷ Operation.claims "run-1" 3
    ∷ Operation.claims "run-1" 3
    ∷ Operation.saves prepared 4
    ∷ Operation.loads "run-1"
    ∷ []

nothing-AllStorable : AllStorable []
unfolding lookup
nothing-AllStorable id r e = absurd (cc)

nothing-Represents : Represents [] []
unfolding lookup
nothing-Represents id = refl

sqlite_run-refines_example : sqlite_run to_float [] a_run ≡ memory_run [] a_run
sqlite_run-refines_example =
    sqlite_run-refines to_float [] [] a_run nothing-Represents nothing-AllStorable (
      (prepared-IsStorable, omega arith),
      (
        (prepared-IsStorable, omega arith),
        (omega arith, (omega arith, ((prepared-IsStorable, omega arith), (tt, tt)))),
      ),
    )
