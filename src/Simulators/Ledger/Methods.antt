-- ===== src/Simulators/Ledger/Methods.antt =====
-- cbrain/simulators/ledger.py: the methods of `LedgerSimulator` behind `_apply`. A method returns or
-- raises, and gives the ledger back in both cases: what it has written stays written.
use cbrain.Prelude.{
  ℕ, ◌+◌, ◌-◌, String, Bool, true, false, not, is_none, [], ◌∷◌, ◌++◌, Result, ok, err, or_raise,
  refuse, ltb,
}
use cbrain.Prelude.Lists.{length}
use cbrain.Prelude.Dict.{lookup, insert}
use cbrain.Json.{Json, Fields, get}
use cbrain.Simulators.{SimulatorError, required_text, exact_fields}
use cbrain.Simulators.Ledger.{
  LedgerAccount, Beneficiary, Transfer, Ledger, Formats, Capability, require_currency,
  positive_money, amount_of,
}

abbrev pub Method : Type 0 → Type 0
Method A = Ledger → Result SimulatorError A × Ledger

module _ {A B : Type 0} where
  abbrev pub next :
      Result SimulatorError A × Ledger → (A → Method B) → Result SimulatorError B × Ledger
  next (ok a, s) k = k a s
  next (err e, s) k = (err e, s)

  infixl 5 ◌>>=◌
  abbrev pub ◌>>=◌ : Method A → (A → Method B) → Method B
  m >>= k = λ s. next (m s) k

infixl 5 ◌>>◌
abbrev pub ◌>>◌ : {B : Type 0} → Method (Unit {0}) → Method B → Method B
m >> k = m >>= λ _. k

module _ {A : Type 0} where
  abbrev pub pure : A → Method A
  pure a s = (ok a, s)

  -- What is asked of the ledger, or of the arguments alone.
  abbrev pub reads : (Ledger → Result SimulatorError A) → Method A
  reads g s = (g s, s)

  abbrev pub checks : Result SimulatorError A → Method A
  checks r = reads (λ _. r)

abbrev pub writes : (Ledger → Ledger) → Method (Unit {0})
writes h s = (ok tt, h s)

abbrev pub with_account : LedgerAccount → Ledger → Ledger
with_account a s = record s { accounts = insert a.account_id a s.accounts }

abbrev pub with_beneficiary : Beneficiary → Ledger → Ledger
with_beneficiary b s = record s { beneficiaries = insert b.beneficiary_id b s.beneficiaries }

abbrev pub with_transfer : Transfer → Ledger → Ledger
with_transfer t s = record s { transfers = s.transfers ++ (t ∷ []) }

abbrev pub account_of : String → Ledger → Result SimulatorError LedgerAccount
account_of id s =
    or_raise (lookup id s.accounts) (SimulatorError.not_found "account does not exist")

abbrev pub required_account : String → Method LedgerAccount
required_account id = reads (account_of id)

module _ (f : Formats) where
  unfoldable pub account_from : Fields → Method LedgerAccount
  unfolding exact_fields required_text get lookup
  account_from d = do
    checks (exact_fields d ("account_id" ∷ []) "arguments")
    id ← checks (required_text (get "account_id" d) "arguments.account_id")
    required_account id

  unfoldable pub modify_limit : Fields → Method Fields
  unfolding exact_fields required_text require_currency positive_money get insert lookup
  modify_limit d = do
    checks (exact_fields d ("account_id" ∷ "currency" ∷ "new_limit" ∷ []) "arguments")
    id ← checks (required_text (get "account_id" d) "arguments.account_id")
    a ← required_account id
    checks (require_currency f a (get "currency" d))
    new_limit ← checks (positive_money f (get "new_limit" d) "arguments.new_limit")
    writes (with_account (record a { transfer_limit = new_limit }))
    pure (
        amount_of f a "previous_limit" a.transfer_limit
          (Fields.field "new_limit" (Json.text (f.money_text new_limit)) Fields.end))

  unfoldable pub add_beneficiary : Fields → Method Fields
  unfolding exact_fields required_text get insert lookup
  add_beneficiary d = do
    checks (exact_fields d ("beneficiary_id" ∷ "name" ∷ "destination_account_ref" ∷ []) "arguments")
    id ← checks (required_text (get "beneficiary_id" d) "arguments.beneficiary_id")
    name ← checks (required_text (get "name" d) "arguments.name")
    destination ←
        checks (required_text (get "destination_account_ref" d) "arguments.destination_account_ref")
    reads (λ s.
        refuse (not (is_none (lookup id s.beneficiaries)))
          (SimulatorError.conflict "beneficiary already exists"))
    writes (
        with_beneficiary
          (record { beneficiary_id = id; name = name; destination_account_ref = destination }))
    pure (
        Fields.field "beneficiary_id" (Json.text id) (
          Fields.field "name" (Json.text name) (
            Fields.field "destination_account_ref" (Json.text destination)
              (Fields.field "status" (Json.text "ACTIVE") Fields.end))))

  abbrev pub next_transfer : LedgerAccount → String → ℕ → Ledger → Transfer
  next_transfer a beneficiary_id amount s = record {
    transfer_id = f.transfer_id (length s.transfers + 1);
    account_id = a.account_id;
    beneficiary_id = beneficiary_id;
    amount = amount;
    currency = a.currency;
  }

  abbrev pub transfer_fields : Transfer → ℕ → Fields
  transfer_fields t remaining = Fields.field "transfer_id" (Json.text t.transfer_id) (
      Fields.field "account_id" (Json.text t.account_id) (
        Fields.field "beneficiary_id" (Json.text t.beneficiary_id) (
          Fields.field "amount" (Json.text (f.money_text t.amount)) (
            Fields.field "currency" (Json.text t.currency) (
              Fields.field "status" (Json.text "SETTLED") (
                Fields.field "remaining_balance" (Json.text (f.money_text remaining))
                  Fields.end))))))

  -- `_transfer` from the debit on; the account's balance covers the amount.
  abbrev pub settle_transfer : LedgerAccount → String → ℕ → Method Fields
  settle_transfer a beneficiary_id amount = do
    writes (with_account (record a { balance = a.balance - amount }))
    t ← reads (λ s. ok (next_transfer a beneficiary_id amount s))
    writes (with_transfer t)
    pure (transfer_fields t (a.balance - amount))

  unfoldable pub transfer : Fields → Method Fields
  unfolding exact_fields required_text require_currency positive_money get lookup insert
  transfer d = do
    checks
        (exact_fields d ("account_id" ∷ "beneficiary_id" ∷ "amount" ∷ "currency" ∷ []) "arguments")
    id ← checks (required_text (get "account_id" d) "arguments.account_id")
    a ← required_account id
    checks (require_currency f a (get "currency" d))
    beneficiary_id ← checks (required_text (get "beneficiary_id" d) "arguments.beneficiary_id")
    reads (λ s.
        refuse (is_none (lookup beneficiary_id s.beneficiaries))
          (SimulatorError.not_found "beneficiary does not exist"))
    amount ← checks (positive_money f (get "amount" d) "arguments.amount")
    checks (
        refuse (ltb a.transfer_limit amount)
          (SimulatorError.business "amount exceeds current transfer limit"))
    checks (refuse (ltb a.balance amount) (SimulatorError.business "insufficient funds"))
    settle_transfer a beneficiary_id amount

  -- `_apply`: the result, and whether it counts as a change.
  unfoldable pub apply_capability : Capability → Fields → Method (Fields × Bool)
  unfolding account_from modify_limit add_beneficiary transfer
  apply_capability Capability.balance_read d = do
    a ← account_from d
    pure (amount_of f a "balance" a.balance Fields.end, false)
  apply_capability Capability.limit_read d = do
    a ← account_from d
    pure (amount_of f a "transfer_limit" a.transfer_limit Fields.end, false)
  apply_capability Capability.limit_modify d = do result ← modify_limit d; pure (result, true)
  apply_capability Capability.beneficiary_add d = do result ← add_beneficiary d; pure (result, true)
  apply_capability Capability.transfer_initiate d = do result ← transfer d; pure (result, true)
