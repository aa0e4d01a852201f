-- ===== src/Gateway/Entered.antt =====
-- Whether the handler has been called by the time that a procedure ends.
use cbrain.Prelude.{ℕ, zero, suc, Bool, true, false, Result, ok, err, ◌≡◌, refl, arith, sym}
use mathlib.Core.Path.{subst}
use cbrain.Runtime.{Raised, Procedure, returns, raises, calls, Handler, invoke_once, run}
use cbrain.Collaborators.{attempt}

abbrev pub was_entered : ℕ → Bool
was_entered zero = false
was_entered (suc _) = true

-- What a procedure returns, with whether the handler has been called by then.
abbrev pub LeavesAfter :
    {Args Out A : Type 0} → (Bool → A → Type 0) → Bool → Procedure Args Out A → Type 0
LeavesAfter P entered (returns a) = P entered a
LeavesAfter P entered (raises _) = Unit
LeavesAfter {Out} P entered (calls _ next) = (r : Result Raised Out) → LeavesAfter P true (next r)

abbrev pub HoldsAfter : {A : Type 0} → (Bool → A → Type 0) → Bool → Result Raised A → Type 0
HoldsAfter P entered (ok a) = P entered a
HoldsAfter P entered (err _) = Unit

module _ {World Args Out A : Type 0} (handler : Handler World Args Out)
    (P : Bool → A → Type 0) where
  invoke_once-entered :
      (args : Args) (n : ℕ) (w : World) → was_entered (invoke_once handler args n w).1 ≡ true
  unfolding invoke_once
  invoke_once-entered args n w = ground arith

  pub run-HoldsAfter :
      (p : Procedure Args Out A) (n : ℕ) (w : World)
      → LeavesAfter P (was_entered n) p
      → HoldsAfter P (was_entered (run handler p n w).1) (run handler p n w).0
  unfolding run invoke_once
  run-HoldsAfter (returns a) n w h = h
  run-HoldsAfter (raises e) n w h = tt
  run-HoldsAfter (calls args next) n w h =
      let s = invoke_once handler args n w in
      run-HoldsAfter (next s.0) s.1 s.2
        (subst (λ e. LeavesAfter P e (next s.0)) (sym (invoke_once-entered args n w)) (h s.0))

-- `e` is one of the exceptions that a procedure can raise.
abbrev pub Raises : {Args Out A : Type 0} → Raised → Procedure Args Out A → Type 0
Raises e (returns _) = ⊥
Raises e (raises x) = x ≡ e
Raises {Out} e (calls _ next) = (r : Result Raised Out) × Raises e (next r)

abbrev pub EndsWith : {Args Out A : Type 0} → Procedure Args Out A → Result Raised A → Type 0
EndsWith p (ok a) = Unit
EndsWith p (err e) = Raises e p

module _ {Args Out A B : Type 0} (P : Bool → B → Type 0) where
  pub attempt-LeavesAfter :
      (p : Procedure Args Out A) (entered : Bool)
      (k : Bool → Result Raised A → Procedure Args Out B)
      → ((e : Bool) (r : Result Raised A) → EndsWith p r → LeavesAfter P e (k e r))
      → LeavesAfter P entered (attempt entered p k)
  unfolding attempt
  attempt-LeavesAfter (returns a) entered k h = h entered (ok a) tt
  attempt-LeavesAfter (raises e) entered k h = h entered (err e) refl
  attempt-LeavesAfter (calls args next) entered k h =
      λ r. attempt-LeavesAfter (next r) true k (λ e s ends. h e s (lift r s ends))
    where
      lift :
          (r : Result Raised Out) (s : Result Raised A)
          → EndsWith (next r) s
          → EndsWith (calls args next) s
      lift r (ok a) ends = tt
      lift r (err e) ends = (r, ends)
