-- ===== src/Durable/Resume/Outcomes.antt =====
-- What resuming a run can lead to.
use cbrain.Prelude.{
  String, some, true, false, Result, ok, ◌>>=◌, ◌≡◌, refl, inl, inr, arith, eq_iff, str_eq, not,
  if◌then◌else◌, codes, codes_eq, strip, >>=-eq-ok, ok-injective, refuse-eq-ok, Bool-cases,
}
use mathlib.Core.Path.{subst}
use cbrain.Json.{Json, Fields}
use cbrain.Contracts.{Float}
use cbrain.Durable.{
  RunStoreError, RunStatus, StoredRunRecord, is_terminal, is_in_flight, is_completed_tool,
}
use cbrain.Durable.Resume.{
  RunInput, RunResult, DurableRunContext, Resumed, record_to_run_result, in_flight_run_result,
  deserialize_event, traverse, continue_run, resume_durable_run, default_reason,
}

-- A run goes on only from RUNNING, TOOL_PREPARED or TOOL_COMPLETED, with the stored counters, and
-- merges a completed tool exactly from TOOL_COMPLETED. A run that is over reports its stored status,
-- and one whose tool is in flight reports that, and neither goes on.
pub data Follows {Message : Type 0} (r : StoredRunRecord) : Resumed Message → Type 0 where
  goes_on :
      {x : DurableRunContext Message}
      → is_terminal r.durable_state ≡ false
      → is_in_flight r.durable_state ≡ false
      → x.stored ≡ r
      → x.next_step ≡ r.next_step
      → x.tool_calls ≡ r.tool_calls
      → x.model_turns ≡ r.model_turns
      → x.merge_completed_tool ≡ is_completed_tool r.durable_state
      → Follows r (Resumed.context x)
  is_over :
      {x : RunResult}
      → is_terminal r.durable_state ≡ true
      → r.terminal_status ≡ some x.status
      → Follows r (Resumed.result x)
  in_flight :
      {x : RunResult}
      → is_in_flight r.durable_state ≡ true
      → x.status ≡ RunStatus.execution_in_flight
      → Follows r (Resumed.result x)

module _ {Message : Type 0} (to_float : Json → Float)
    (deserialize_message : Fields → Result RunStoreError Message) where
  record_to_run_result-status :
      (r : StoredRunRecord) {x : RunResult}
      → record_to_run_result to_float r ≡ ok x
      → r.terminal_status ≡ some x.status
  unfolding record_to_run_result
  record_to_run_result-status r h = ground arith

  in_flight_run_result-status :
      (r : StoredRunRecord) (reason : String) {x : RunResult}
      → in_flight_run_result to_float r reason ≡ ok x
      → x.status ≡ RunStatus.execution_in_flight
  unfolding in_flight_run_result
  in_flight_run_result-status r reason h = ground arith

  continue_run-Follows :
      (i : RunInput) (r : StoredRunRecord) {y : Resumed Message}
      → is_terminal r.durable_state ≡ false
      → is_in_flight r.durable_state ≡ false
      → continue_run to_float deserialize_message i r ≡ ok y
      → Follows r y
  unfolding continue_run
  continue_run-Follows i r open_run idle h =
      let (events, read, h') = >>=-eq-ok (traverse (deserialize_event to_float) r.events) _ h in
      let (messages, read', h'') = >>=-eq-ok (traverse deserialize_message r.messages) _ h' in
      subst (Follows r) (ok-injective h'') (goes_on open_run idle refl refl refl refl refl)

  -- The three ends of `resume_durable_run`, by the state.
  by_state-Follows :
      (i : RunInput) (r : StoredRunRecord) {y : Resumed Message}
      → (if is_terminal r.durable_state
          then (record_to_run_result to_float r >>= λ x. ok (Resumed.result x))
          else if is_in_flight r.durable_state
          then (in_flight_run_result to_float r (default_reason to_float) >>= λ x.
              ok (Resumed.result x))
          else continue_run to_float deserialize_message i r)
        ≡ ok y
      → Follows r y
  by_state-Follows i r h = elim (Bool-cases (is_terminal r.durable_state)) [
    | inl over ↦
        let (x, reported, h') = >>=-eq-ok (record_to_run_result to_float r) _ (rw over at h) in
        subst (Follows r) (ok-injective h') (is_over over (record_to_run_result-status r reported))
    | inr open_run ↦ elim (Bool-cases (is_in_flight r.durable_state)) [
      | inl flying ↦
          let (x, reported, h') =
            >>=-eq-ok (in_flight_run_result to_float r (default_reason to_float)) _
              (rw (open_run, flying) at h) in
          subst (Follows r) (ok-injective h')
            (in_flight flying (in_flight_run_result-status r (default_reason to_float) reported))
      | inr idle ↦ continue_run-Follows i r open_run idle (rw (open_run, idle) at h)
    ]
  ]

  -- Whatever resuming returns, the profile's fingerprint and the stripped task are the stored ones,
  -- and the outcome is the one that the stored state calls for.
  pub resume_durable_run-Follows :
      (fingerprint : String) (i : RunInput) (r : StoredRunRecord) {y : Resumed Message}
      → resume_durable_run to_float deserialize_message fingerprint i r ≡ ok y
      → (fingerprint ≡ r.profile_fingerprint)
        × (codes_eq (strip (codes i.task)) (strip (codes r.task)) ≡ true)
        × Follows r y
  unfolding resume_durable_run
  resume_durable_run-Follows fingerprint i r h =
      let (same, h') = refuse-eq-ok (not (str_eq fingerprint r.profile_fingerprint)) _ _ h in
      let (task, h'') =
        refuse-eq-ok (not (codes_eq (strip (codes i.task)) (strip (codes r.task)))) _ _ h' in
      (
        (eq_iff fingerprint r.profile_fingerprint).0 (ground arith),
        ground arith,
        by_state-Follows i r h'',
      )
