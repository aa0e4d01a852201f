-- ===== src/Runtime/Safety.antt =====
-- The promises of the governed runtime, for every gateway and every handler.
use cbrain.Prelude.{
  ◌∙◌, ap, ℕ, ◌≡◌, refl, ◌⊎◌, inl, inr, Result, ok, err, arith, String, Bool, true, false, is_blank,
  some, ◌&&◌, not, ◌==◌, if◌then◌else◌, is_blank-append, ◌⊎◌, str_eq, eq_iff,
}
use cbrain.Contracts.{ContractError, ExecutionStatus, GovernedExecution, is_executed, ActionIntent}
use cbrain.Contracts.Validity.{IsWellFormed, tool_run, IsWellFormed-governed_execution}
use cbrain.Runtime.{
  Procedure, Handler, Raised, Answer, run, contract_failure, failed_record, settle, execute,
}
use cbrain.Runtime.Calls.{Leaves, Holds, Ran, run-Ran, run-Holds}

abbrev pub IsBuilt : {Out : Type 0} → Answer Out → Type 0
IsBuilt (Answer.execution g) = IsWellFormed g
IsBuilt Answer.other = Unit

module _ {Out : Type 0} (action : ActionIntent) where
  -- What a settled run promises, from the entries that it made.
  pub record Settled (n : ℕ) (independent : Bool) (g : GovernedExecution Out) : Type 0 where
    pub built : IsWellFormed g
    pub same_request : g.request_id ≡ action.request_id
    pub local_run : g.status ≡ ExecutionStatus.executed → independent ≡ false → n ≡ 1
    pub remote_run : g.status ≡ ExecutionStatus.executed → independent ≡ true → n ≡ 0
    pub not_run : g.tool_executed ≡ some false → n ≡ 0

  abbrev SettlesTo : ℕ → Bool → Result ContractError (GovernedExecution Out) → Type 0
  SettlesTo n independent r = (g : GovernedExecution Out) × (r ≡ ok g) × Settled n independent g

  SettlesTo-if :
      (n : ℕ) (independent b : Bool) (x y : Result ContractError (GovernedExecution Out))
      → (b ≡ true → SettlesTo n independent x)
      → (b ≡ false → SettlesTo n independent y)
      → SettlesTo n independent (if b then x else y)
  SettlesTo-if n independent true x y hx hy = hx refl
  SettlesTo-if n independent false x y hx hy = hy refl

  -- An answer that passes the three tests is passed on.
  accepted-Settled :
      (independent : Bool) (n : ℕ) (g : GovernedExecution Out)
      → IsWellFormed g
      → not (str_eq g.request_id action.request_id) ≡ false
      → (is_executed g.status && not (n == (if independent then 0 else 1))) ≡ false
      → (not (is_executed g.status) && not (n == 0)) ≡ false
      → Settled n independent g
  accepted-Settled true n g h same ran quiet = ground (arith, eq_iff g.request_id action.request_id)
  accepted-Settled false n g h same ran quiet =
      ground (arith, eq_iff g.request_id action.request_id)

module _ {Out : Type 0} (action : ActionIntent) (named : is_blank action.request_id ≡ false) where
  failed_record-Settled :
      (n : ℕ) (reason : String) (independent : Bool)
      → is_blank reason ≡ false
      → Settled {Out = Out} action n independent (failed_record action n reason independent)
  failed_record-Settled n reason true h = ground arith
  failed_record-Settled n reason false h = ground arith

  contract_failure-SettlesTo :
      (n : ℕ) (reason : String) (independent : Bool)
      → is_blank reason ≡ false
      → SettlesTo {Out = Out} action n independent (contract_failure action n reason independent)
  unfolding contract_failure
  contract_failure-SettlesTo n reason independent h =
      let s = failed_record-Settled n reason independent h in
      (failed_record action n reason independent, IsWellFormed-governed_execution _ s.built, s)

  pub settle-SettlesTo :
      (independent : Bool) (n : ℕ) (r : Result Raised (Answer Out))
      → Holds IsBuilt r
      → SettlesTo {Out = Out} action n independent (settle action independent n r)
  unfolding settle
  settle-SettlesTo independent n (err e) h =
      contract_failure-SettlesTo n _ independent
        (is_blank-append "privatevault_gateway_error:" e.name (unfold is_blank in refl))
  settle-SettlesTo independent n (ok Answer.other) h =
      contract_failure-SettlesTo n "invalid_gateway_result" independent (unfold is_blank in refl)
  settle-SettlesTo independent n (ok (Answer.execution g)) h =
      SettlesTo-if action n independent _ _ _
        (λ _. mismatch "request_id_mismatch" (unfold is_blank in refl))
        (λ same.
          SettlesTo-if action n independent _ _ _
            (λ _. mismatch "unproven_execution" (unfold is_blank in refl))
            (λ ran.
              SettlesTo-if action n independent _ _ _
                (λ _. mismatch "tool_called_without_executed_status" (unfold is_blank in refl))
                (λ quiet. (g, refl, accepted-Settled action independent n g h same ran quiet))))
    where
      mismatch :
          (reason : String)
          → is_blank reason ≡ false
          → SettlesTo {Out = Out} action n independent
              (contract_failure action n reason independent)
      mismatch reason = contract_failure-SettlesTo n reason independent

-- A gateway's answers are governed executions that were built, or other objects.
abbrev pub IsHonest : {Args Out : Type 0} → Procedure Args Out (Answer Out) → Type 0
IsHonest = Leaves IsBuilt

module _ {World Args Out : Type 0} (independent : Bool) (gateway : Procedure Args Out (Answer Out))
    (action : ActionIntent) (handler : Handler World Args Out) (w : World) where
  -- However often a gateway calls the handler that it is given, the world after `execute` is the
  -- one before, or the one that a single run of the tool's handler leaves.
  pub execute_at_most_once :
      let w' = (execute independent gateway action handler w).1 in
      (w' ≡ w) ⊎ ((args : Args) × (w' ≡ (handler args w).1))
  unfolding execute
  execute_at_most_once = elim (run-Ran handler gateway w) [
    | inl h ↦ inl h.1
    | inr h ↦ inr (h.0, h.2)
  ]

  -- What a governed execution says of the world before and after: BLOCKED, REVIEW_REQUIRED and
  -- CONTROL_FAILURE left it alone, as did every retryable result; EXECUTED by a gateway that is
  -- not independent is one run of the handler, by an independent one none.
  pub record Truthful (g : GovernedExecution Out) (w' : World) : Type 0 where
    pub built : IsWellFormed g
    pub same_request : g.request_id ≡ action.request_id
    pub not_run : g.tool_executed ≡ some false → w' ≡ w
    pub retry : g.retryable ≡ true → w' ≡ w
    pub local_run :
        g.status ≡ ExecutionStatus.executed
        → independent ≡ false
        → (args : Args) × (w' ≡ (handler args w).1)
    pub remote_run : g.status ≡ ExecutionStatus.executed → independent ≡ true → w' ≡ w

  Settled-Truthful :
      (n : ℕ) (w' : World) (g : GovernedExecution Out)
      → Settled action n independent g
      → Ran handler w n w'
      → Truthful g w'
  Settled-Truthful n w' g s (inl h) = record {
    built = s.built;
    same_request = s.same_request;
    not_run = λ _. h.1;
    retry = λ _. h.1;
    local_run = λ e i. absurd (omega (arith, s.local_run e i, h.0));
    remote_run = λ _ _. h.1;
  }
  Settled-Truthful n w' g s (inr h) = record {
    built = s.built;
    same_request = s.same_request;
    not_run = λ e. absurd (omega (arith, s.not_run e, h.1));
    retry = λ e.
        absurd (omega (arith, s.not_run (s.built.consistent ∙ ap tool_run (s.built.retry e)), h.1));
    local_run = λ _ _. (h.0, h.2);
    remote_run = λ e i. absurd (omega (arith, s.remote_run e i, h.1));
  }

  -- For an action with a request id and a gateway whose governed executions were built by their
  -- constructor, `execute` always returns a governed execution of this request that is well formed
  -- and truthful about what was run.
  pub execute-Truthful :
      is_blank action.request_id ≡ false
      → IsHonest gateway
      → (g : GovernedExecution Out) × ((execute independent gateway action handler w).0 ≡ ok g)
        × Truthful g (execute independent gateway action handler w).1
  unfolding execute
  execute-Truthful named honest =
      let (r, n, w') = run handler gateway 0 w in
      let (g, e, s) =
        settle-SettlesTo {Out = Out} action named independent n r
          (run-Holds handler IsBuilt gateway 0 w honest) in
      (g, e, Settled-Truthful n w' g s (run-Ran handler gateway w))
