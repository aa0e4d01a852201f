-- ===== src/Contracts/Validity.antt =====
-- What `GovernedExecution.__post_init__` lets through.
use mathlib.Core.Path.{subst}
use cbrain.Prelude.{
  ap, sym, ◌∙◌, Option, none, some, Bool, true, false, ◌≡◌, is_blank, ok, arith, ◌↔◌,
}
use cbrain.Contracts.{ExecutionStatus, GovernedExecution, governed_execution}

-- What a status says about the tool: it ran, it did not, or that is unknown.
abbrev pub tool_run : ExecutionStatus → Option Bool
tool_run ExecutionStatus.executed = some true
tool_run ExecutionStatus.indeterminate = none
tool_run _ = some false

pub record IsWellFormed {Out : Type 0} (g : GovernedExecution Out) : Type 0 where
  pub named : is_blank g.request_id ≡ false
  pub explained : is_blank g.reason ≡ false
  pub consistent : g.tool_executed ≡ tool_run g.status
  pub retry : g.retryable ≡ true → g.status ≡ ExecutionStatus.control_failure

module _ {Out : Type 0} (g : GovernedExecution Out) where
  pub governed_execution-IsWellFormed : governed_execution g ≡ ok g → IsWellFormed g
  unfolding governed_execution
  governed_execution-IsWellFormed h = ground arith

  pub IsWellFormed-governed_execution : IsWellFormed g → governed_execution g ≡ ok g
  unfolding governed_execution
  IsWellFormed-governed_execution h = ground arith

  -- A governed execution can be built exactly if its request id and its reason are not blank, its
  -- `tool_executed` is the one of its status, and it is retryable only as a control failure.
  pub governed_execution-ok_iff : (governed_execution g ≡ ok g) ↔ IsWellFormed g
  governed_execution-ok_iff = (governed_execution-IsWellFormed, IsWellFormed-governed_execution)

  pub governed_execution-eq : {g' : GovernedExecution Out} → governed_execution g ≡ ok g' → g ≡ g'
  unfolding governed_execution
  governed_execution-eq h = ground arith

  -- Whatever the constructor returns is well formed.
  pub governed_execution-returns :
      {g' : GovernedExecution Out} → governed_execution g ≡ ok g' → IsWellFormed g'
  governed_execution-returns h =
      let e = governed_execution-eq h in
      subst IsWellFormed e (governed_execution-IsWellFormed (h ∙ ap ok (sym e)))
