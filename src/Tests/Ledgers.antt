-- ===== src/Tests/Ledgers.antt =====
-- A transfer from one account to one beneficiary, which is asked for twice.
use cbrain.Prelude.{
  String, Option, none, some, false, [], ◌∷◌, Result, ok, err, ◌≡◌, refl, is_blank, str_eq, arith,
  Bool-cases, inl, inr, eq_iff, ap,
}
use cbrain.Prelude.Dict.{lookup, insert}
use cbrain.Json.{Json, Fields, get}
use cbrain.Simulators.{SimulatorError, EffectReceipt, required_text, exact_fields}
use cbrain.Simulators.Ledger.Execute.{
  first_use, by_effect, captured_request, execute_request, execute_requests,
}
use cbrain.Simulators.Ledger.{
  LedgerAccount, Ledger, LedgerSimulator, Formats, Decimal, quantized, Request, capability_of,
  request_text, positive_money, require_currency,
}
use cbrain.Simulators.Ledger.Methods.{transfer, apply_capability}
use cbrain.Simulators.Ledger.Sums.{WellKeyed, Balanced}
use cbrain.Simulators.Ledger.Conserved.{execute_requests-Balanced}
use cbrain.Simulators.Ledger.Effects.{execute_once}

-- "25.00"
abbrev read_decimal : Json → Option Decimal
read_decimal (Json.text _) = some (Decimal.finite false 2500 0 2)
read_decimal _ = none

abbrev formats : Formats
formats = record {
  decimal = read_decimal;
  money_text = λ n. "25.00";
  transfer_id = λ n. "transfer-1";
  request_digest = λ c i k d. some "sha256:request";
  effect_id = λ d c k q. "effect-1";
}

abbrev account : LedgerAccount
account = record {
  account_id = "account-1";
  currency = "EUR";
  balance = 10000;
  transfer_limit = 5000;
}

abbrev ledger : Ledger
ledger = record {
  accounts = ("account-1", account) ∷ [];
  beneficiaries =
      (
        "payee-1",
        record { beneficiary_id = "payee-1"; name = "Payee"; destination_account_ref = "ref" },
      )
      ∷ [];
  transfers = [];
  state_version = 0;
}

abbrev simulator : LedgerSimulator
simulator = record { ledger = ledger; effects = [] }

abbrev pay : Request
pay = record {
  capability = "payments.transfer.initiate";
  request_id = "req-1";
  idempotency_key = "key-1";
  arguments = Fields.field "account_id" (Json.text "account-1") (
      Fields.field "beneficiary_id" (Json.text "payee-1") (
        Fields.field "amount" (Json.text "25.00")
          (Fields.field "currency" (Json.text "EUR") Fields.end)));
}

abbrev read_balance : Request
read_balance = record {
  capability = "payments.balance.read";
  request_id = "req-2";
  idempotency_key = "key-2";
  arguments = Fields.field "account_id" (Json.text "account-1") Fields.end;
}

abbrev receipt_of : Result SimulatorError EffectReceipt → EffectReceipt
receipt_of (ok r) = r
receipt_of (err e) = record {
  domain = "";
  capability = "";
  request_id = "";
  idempotency_key = "";
  effect_id = "";
  state_version = 0;
  mutated = false;
  result = Fields.end;
}

abbrev receipt : EffectReceipt
receipt = receipt_of (execute_request formats pay simulator).0

paid : (execute_request formats pay simulator).0 ≡ ok receipt
unfolding execute_request captured_request capability_of request_text by_effect first_use
    apply_capability transfer require_currency quantized positive_money required_text exact_fields
    lookup insert get is_blank
paid = refl

execute_once_example :
    execute_request formats pay
      (execute_requests formats (read_balance ∷ pay ∷ []) (execute_request formats pay simulator).1)
    ≡ (
      ok receipt,
      execute_requests formats (read_balance ∷ pay ∷ []) (execute_request formats pay simulator).1,
    )
execute_once_example = execute_once formats pay (read_balance ∷ pay ∷ []) simulator receipt paid

ledger-WellKeyed : WellKeyed ledger
unfolding lookup
ledger-WellKeyed id a e = elim (Bool-cases (str_eq "account-1" id)) [
  | inl same ↦
      let e' : some account ≡ some a = rw same at e in
      let k : account ≡ a = cc in
      let n : ◌≡◌ {A = String} "account-1" id = ground (arith, eq_iff "account-1" id) in
      cc (ap (λ x. x.account_id) k)
  | inr other ↦ absurd (let e' : none ≡ some a = rw other at e in cc)
]

execute_requests-Balanced_example :
    Balanced ledger (execute_requests formats (pay ∷ read_balance ∷ pay ∷ []) simulator).ledger
execute_requests-Balanced_example =
    execute_requests-Balanced formats (pay ∷ read_balance ∷ pay ∷ []) simulator ledger-WellKeyed

abbrev pay_stranger : Request
pay_stranger = record pay {
  idempotency_key = "key-3";
  arguments = Fields.field "account_id" (Json.text "account-1") (
      Fields.field "beneficiary_id" (Json.text "payee-2") (
        Fields.field "amount" (Json.text "25.00")
          (Fields.field "currency" (Json.text "EUR") Fields.end)));
}
