-- ===== src/Runtime/Calls.antt =====
-- How often `invoke_once` lets a procedure reach the real handler.
use cbrain.Prelude.{false, ℕ, suc, ◌≤◌, ◌≡◌, refl, ◌⊎◌, inl, inr, Result, ok, err, arith}
use cbrain.Runtime.{Procedure, returns, raises, calls, Handler, Raised, invoke_once, run}

-- What every value that a procedure can return satisfies.
abbrev pub Leaves : {Args Out A : Type 0} → (A → Type 0) → Procedure Args Out A → Type 0
Leaves P (returns a) = P a
Leaves P (raises _) = Unit
Leaves {Out} P (calls _ next) = (r : Result Raised Out) → Leaves P (next r)

abbrev pub Holds : {A : Type 0} → (A → Type 0) → Result Raised A → Type 0
Holds P (ok a) = P a
Holds P (err _) = Unit

-- The count of entries and the world that a run began with and ended with: nothing was called,
-- or the handler ran once.
abbrev pub Ran : {World Args Out : Type 0} → Handler World Args Out → World → ℕ → World → Type 0
Ran {Args} handler w n w' =
    ((n ≡ 0) × (w' ≡ w)) ⊎ ((args : Args) × (1 ≤ n) × (w' ≡ (handler args w).1))

module _ {World Args Out A : Type 0} (handler : Handler World Args Out) where
  -- Once the handler has been entered, the world is not touched again.
  run_after :
      (p : Procedure Args Out A) (k : ℕ) (w : World)
      → ((run handler p (suc k) w).2 ≡ w) × (suc k ≤ (run handler p (suc k) w).1)
  unfolding run invoke_once
  run_after (returns a) k w = (refl, omega arith)
  run_after (raises e) k w = (refl, omega arith)
  run_after (calls args next) k w = ground (
    arith,
    run_after (next (err (record { name = "RuntimeError"; not_invoked = false }))) (suc k) w,
  )

  pub run-Ran :
      (p : Procedure Args Out A) (w : World)
      → Ran handler w (run handler p 0 w).1 (run handler p 0 w).2
  unfolding run invoke_once
  run-Ran (returns a) w = inl (refl, refl)
  run-Ran (raises e) w = inl (refl, refl)
  run-Ran (calls args next) w =
      let h = run_after (next (handler args w).0) 0 (handler args w).1 in
      inr (args, omega arith, h.0)

  pub run-Holds :
      (P : A → Type 0) (p : Procedure Args Out A) (n : ℕ) (w : World)
      → Leaves P p
      → Holds P (run handler p n w).0
  unfolding run
  run-Holds P (returns a) n w h = h
  run-Holds P (raises e) n w h = tt
  run-Holds P (calls args next) n w h =
      let s = invoke_once handler args n w in run-Holds P (next s.0) s.1 s.2 (h s.0)

-- `a` is one of the values that a procedure can return.
abbrev pub Returned : {Args Out A : Type 0} → A → Procedure Args Out A → Type 0
Returned a (returns b) = b ≡ a
Returned a (raises _) = ⊥
Returned {Out} a (calls _ next) = (r : Result Raised Out) × Returned a (next r)
