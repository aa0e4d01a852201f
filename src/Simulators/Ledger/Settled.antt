-- ===== src/Simulators/Ledger/Settled.antt =====
-- What the methods that change the ledger do to it, when they return and when they raise.
use cbrain.Prelude.{
  ℕ, ◌≤◌, String, some, Bool, not, is_none, [], ◌∷◌, Result, ok, err, refuse, ltb, ◌≡◌, refl, arith,
}
use cbrain.Prelude.Dict.{lookup}
use cbrain.Json.{Fields, get}
use cbrain.Simulators.{SimulatorError, required_text, exact_fields}
use cbrain.Simulators.Ledger.Sums.{or_raise-eq-ok}
use cbrain.Simulators.Ledger.{
  LedgerAccount, Ledger, Formats, Capability, require_currency, positive_money,
}
use cbrain.Simulators.Ledger.Methods.{
  Method, next, pure, with_account, account_of, account_from, modify_limit, add_beneficiary,
  settle_transfer, transfer, apply_capability,
}

-- How a method ends: it returns with what `P` says, or it raises and has written nothing.
abbrev pub Ends :
    {B : Type 0} → (B → Ledger → Type 0) → Ledger → Result SimulatorError B × Ledger → Type 0
Ends P s (ok b, s') = P b s'
Ends P s (err e, s') = s' ≡ s

module _ {A B : Type 0} (P : B → Ledger → Type 0) (s : Ledger) where
  reads-Ends :
      (r : Result SimulatorError A) (k : A → Method B)
      → ((a : A) → r ≡ ok a → Ends P s (k a s))
      → Ends P s (next (r, s) k)
  reads-Ends (ok a) k h = h a refl
  reads-Ends (err e) k h = refl

  pub pure-Ends :
      {Q : A → Ledger → Type 0} (x : Result SimulatorError A × Ledger) (k : A → B)
      → Ends Q s x
      → ((a : A) (s' : Ledger) → Q a s' → P (k a) s')
      → Ends P s (next x (λ a. pure (k a)))
  pure-Ends (ok a, s') k h g = g a s' h
  pure-Ends (err e, s') k h g = h

not_over : (a b : ℕ) (e : SimulatorError) {u : Unit {0}} → refuse (ltb a b) e ≡ ok u → b ≤ a
not_over a b e h = ground arith

module _ (f : Formats) where
  -- A limit is written for an account that is there.
  abbrev pub IsLimited : Ledger → Fields → Ledger → Type 0
  IsLimited s result s' =
      (a : LedgerAccount) × (limit : ℕ) × (id : String) × (lookup id s.accounts ≡ some a)
      × (s' ≡ with_account (record a { transfer_limit = limit }) s)

  -- A transfer is made from an account that has the amount and allows it.
  abbrev pub IsSettled : Ledger → Fields → Ledger → Type 0
  IsSettled s result s' =
      (a : LedgerAccount) × (to : String) × (amount : ℕ) × (id : String) × (lookup id s.accounts
        ≡ some a)
      × (amount ≤ a.balance)
      × (amount ≤ a.transfer_limit)
      × (s' ≡ (settle_transfer f a to amount s).1)

  abbrev pub IsAdded : Ledger → Fields → Ledger → Type 0
  IsAdded s result s' = (s'.accounts ≡ s.accounts) × (s'.transfers ≡ s.transfers)

  pub account_from-Ends : (d : Fields) (s : Ledger) → Ends (λ a s'. s' ≡ s) s (account_from f d s)
  unfolding account_from
  account_from-Ends d s = reads-Ends _ s (exact_fields d ("account_id" ∷ []) "arguments") _ (λ _ _.
      reads-Ends _ s (required_text (get "account_id" d) "arguments.account_id") _
        (λ id _. from (account_of id s)))
    where
      from :
          (r : Result SimulatorError LedgerAccount)
          → Ends {B = LedgerAccount} (λ a s'. s' ≡ s) s (r, s)
      from (ok a) = refl
      from (err e) = refl

  pub modify_limit-Ends : (d : Fields) (s : Ledger) → Ends (IsLimited s) s (modify_limit f d s)
  unfolding modify_limit
  modify_limit-Ends d s =
      reads-Ends _ s (exact_fields d ("account_id" ∷ "currency" ∷ "new_limit" ∷ []) "arguments") _
        (λ _ _.
          reads-Ends _ s (required_text (get "account_id" d) "arguments.account_id") _ (λ id _.
            reads-Ends _ s (account_of id s) _ (λ a found.
              reads-Ends _ s (require_currency f a (get "currency" d)) _ (λ _ _.
                reads-Ends _ s (positive_money f (get "new_limit" d) "arguments.new_limit") _
                  (λ limit _.
                    (a, limit, id, or_raise-eq-ok (lookup id s.accounts) _ found, refl))))))

  pub add_beneficiary-Ends : (d : Fields) (s : Ledger) → Ends (IsAdded s) s (add_beneficiary f d s)
  unfolding add_beneficiary
  add_beneficiary-Ends d s =
      reads-Ends _ s
        (exact_fields d ("beneficiary_id" ∷ "name" ∷ "destination_account_ref" ∷ []) "arguments") _
        (λ _ _.
          reads-Ends _ s (required_text (get "beneficiary_id" d) "arguments.beneficiary_id") _
            (λ id _. reads-Ends _ s (required_text (get "name" d) "arguments.name") _ (λ n _.
              reads-Ends _ s
                (required_text (get "destination_account_ref" d)
                  "arguments.destination_account_ref")
                _
                (λ ref _.
                  reads-Ends _ s (refuse (not (is_none (lookup id s.beneficiaries))) _) _
                    (λ _ _. (refl, refl))))))

  pub transfer-Ends : (d : Fields) (s : Ledger) → Ends (IsSettled s) s (transfer f d s)
  unfolding transfer
  transfer-Ends d s =
      reads-Ends _ s
        (exact_fields d ("account_id" ∷ "beneficiary_id" ∷ "amount" ∷ "currency" ∷ []) "arguments")
        _
        (λ _ _.
          reads-Ends _ s (required_text (get "account_id" d) "arguments.account_id") _ (λ id _.
            reads-Ends _ s (account_of id s) _ (λ a found.
              reads-Ends _ s (require_currency f a (get "currency" d)) _ (λ _ _.
                reads-Ends _ s (required_text (get "beneficiary_id" d) "arguments.beneficiary_id") _
                  (λ to _. reads-Ends _ s (refuse (is_none (lookup to s.beneficiaries)) _) _ (λ _ _.
                    reads-Ends _ s (positive_money f (get "amount" d) "arguments.amount") _
                      (λ amount _.
                        reads-Ends _ s (refuse (ltb a.transfer_limit amount) _) _ (λ _ allowed.
                          reads-Ends _ s (refuse (ltb a.balance amount) _) _ (λ _ covered. (
                            a,
                            to,
                            amount,
                            id,
                            or_raise-eq-ok (lookup id s.accounts) _ found,
                            not_over a.balance amount _ covered,
                            not_over a.transfer_limit amount _ allowed,
                            refl,
                          ))))))))))

  -- What each capability does to the ledger.
  abbrev pub IsApplied : Capability → Ledger → Fields × Bool → Ledger → Type 0
  IsApplied Capability.balance_read s x s' = s' ≡ s
  IsApplied Capability.limit_read s x s' = s' ≡ s
  IsApplied Capability.limit_modify s x s' = IsLimited s x.0 s'
  IsApplied Capability.beneficiary_add s x s' = IsAdded s x.0 s'
  IsApplied Capability.transfer_initiate s x s' = IsSettled s x.0 s'

  pub apply_capability-Ends :
      (c : Capability) (d : Fields) (s : Ledger) → Ends (IsApplied c s) s (apply_capability f c d s)
  unfolding apply_capability
  apply_capability-Ends Capability.balance_read d s =
      pure-Ends (IsApplied Capability.balance_read s) s (account_from f d s) _
        (account_from-Ends d s) (λ a s' e. e)
  apply_capability-Ends Capability.limit_read d s =
      pure-Ends (IsApplied Capability.limit_read s) s (account_from f d s) _ (account_from-Ends d s)
        (λ a s' e. e)
  apply_capability-Ends Capability.limit_modify d s =
      pure-Ends (IsApplied Capability.limit_modify s) s (modify_limit f d s) _
        (modify_limit-Ends d s) (λ r s' e. e)
  apply_capability-Ends Capability.beneficiary_add d s =
      pure-Ends (IsApplied Capability.beneficiary_add s) s (add_beneficiary f d s) _
        (add_beneficiary-Ends d s) (λ r s' e. e)
  apply_capability-Ends Capability.transfer_initiate d s =
      pure-Ends (IsApplied Capability.transfer_initiate s) s (transfer f d s) _ (transfer-Ends d s)
        (λ r s' e. e)
