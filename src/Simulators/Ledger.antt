-- ===== src/Simulators/Ledger.antt =====
-- cbrain/simulators/ledger.py: `LedgerSimulator`. Amounts are whole cents, which is what
-- `_positive_money` gives; an account that starts with a part of a cent is left out. Simulators/Ledger/Methods
-- has the methods.
pub mod Methods
pub mod Execute
pub mod Effects
pub mod Sums
pub mod Settled
pub mod Conserved
use cbrain.Prelude.{
  ℕ, zero, suc, ◌+◌, ◌-◌, ◌*◌, ◌||◌, ◌==◌, String, Option, none, some, Bool, true, false, not,
  is_none, List, [], ◌∷◌, ◌++◌, Result, ok, err, ◌>>=◌, ◌>>◌, refuse, or_raise, ltb, str_eq,
  is_blank, if◌then◌else◌,
}
use cbrain.Prelude.Lists.{length}
use cbrain.Prelude.Dict.{Dict, lookup, insert}
use cbrain.Json.{Json, Fields, get}
use cbrain.Simulators.{SimulatorError, EffectReceipt, StoredEffect, required_text, exact_fields}

pub record LedgerAccount : Type 0 where
  pub account_id : String
  pub currency : String
  pub balance : ℕ
  pub transfer_limit : ℕ

pub record Beneficiary : Type 0 where
  pub beneficiary_id : String
  pub name : String
  pub destination_account_ref : String

pub record Transfer : Type 0 where
  pub transfer_id : String
  pub account_id : String
  pub beneficiary_id : String
  pub amount : ℕ
  pub currency : String

-- The state of the ledger but the effects that it has stored.
pub record Ledger : Type 0 where
  pub accounts : Dict LedgerAccount
  pub beneficiaries : Dict Beneficiary
  pub transfers : List Transfer
  pub state_version : ℕ

pub record LedgerSimulator : Type 0 where
  pub ledger : Ledger
  pub effects : Dict StoredEffect

-- A `Decimal`: its sign, its digits, and its exponent as the zeros after them or the places; or an
-- infinity or no number. Amounts are below the bounds of the decimal context.
pub data Decimal : Type 0 where
  finite : Bool → ℕ → ℕ → ℕ → Decimal
  special : Decimal

-- Python's decimals and digests: `Decimal(str(value))`, which fails on other texts, the text of an amount, the number in a transfer's id, the digest of a captured_request request, which fails on what is
-- no JSON, and the effect's id.
pub record Formats : Type 0 where
  pub decimal : Json → Option Decimal
  pub money_text : ℕ → String
  pub transfer_id : ℕ → String
  pub request_digest : String → String → String → Fields → Option String
  pub effect_id : String → String → String → String → String

pub data Capability : Type 0 where
  balance_read limit_read limit_modify beneficiary_add transfer_initiate : Capability

-- `PAYMENT_CAPABILITIES`
unfoldable pub capability_of : String → Option Capability
capability_of s =
    if str_eq s "payments.balance.read"
    then some Capability.balance_read
    else if str_eq s "payments.limit.read"
    then some Capability.limit_read
    else if str_eq s "payments.limit.modify"
    then some Capability.limit_modify
    else if str_eq s "payments.beneficiary.add"
    then some Capability.beneficiary_add
    else if str_eq s "payments.transfer.initiate"
    then some Capability.transfer_initiate
    else none

pub record Request : Type 0 where
  pub capability : String
  pub request_id : String
  pub idempotency_key : String
  pub arguments : Fields

-- The three checks of `capture_request`.
unfoldable pub request_text : Request → Result SimulatorError (Unit {0})
request_text r = do
  refuse (is_blank r.capability) (SimulatorError.contract "capability")
  refuse (is_blank r.request_id) (SimulatorError.contract "request_id")
  refuse (is_blank r.idempotency_key) (SimulatorError.contract "idempotency_key")

abbrev pub power_of_ten : ℕ → ℕ
power_of_ten zero = 1
power_of_ten (suc n) = 10 * power_of_ten n

-- The quantized amount, in cents, of a finite, positive decimal with at most two places.
unfoldable pub quantized : Decimal → String → Result SimulatorError ℕ
quantized Decimal.special path = err (SimulatorError.contract path)
quantized (Decimal.finite negative digits zeros places) path =
    if negative || digits == 0 || ltb 2 places
    then err (SimulatorError.contract path)
    else ok (digits * power_of_ten zeros * power_of_ten (2 - places))

module _ (f : Formats) where
  abbrev pub decimal_of : Json → String → Result SimulatorError Decimal
  decimal_of v path = or_raise (f.decimal v) (SimulatorError.contract path)

  -- `_positive_money`
  unfoldable pub positive_money : Option Json → String → Result SimulatorError ℕ
  unfolding quantized
  positive_money (some (Json.text s)) path = decimal_of (Json.text s) path >>= λ d. quantized d path
  positive_money (some (Json.int i)) path = decimal_of (Json.int i) path >>= λ d. quantized d path
  positive_money (some (Json.float x)) path =
      decimal_of (Json.float x) path >>= λ d. quantized d path
  positive_money _ path = err (SimulatorError.contract path)

  unfoldable pub require_currency : LedgerAccount → Option Json → Result SimulatorError (Unit {0})
  unfolding required_text
  require_currency a v = do
    currency ← required_text v "arguments.currency"
    refuse (not (str_eq currency a.currency))
        (SimulatorError.business "currency does not match account")

  abbrev pub amount_of : LedgerAccount → String → ℕ → Fields → Fields
  amount_of a name amount rest = Fields.field "account_id" (Json.text a.account_id) (
      Fields.field "currency" (Json.text a.currency)
        (Fields.field name (Json.text (f.money_text amount)) rest))
