-- ===== src/Simulators.antt =====
-- cbrain/simulators/contracts.py: errors, receipts and checks that the simulators share.
pub mod Ledger
use cbrain.Prelude.{
  ℕ, String, Option, none, some, Bool, true, false, ◌&&◌, List, [], ◌∷◌, Result, ok, err, require,
  not, is_blank,
}
use cbrain.Json.{Json, Fields, keys}
use cbrain.Models.{in_list}

-- The subclasses of `SimulatorError`, with the path or the rule that the message names.
pub data SimulatorError : Type 0 where
  contract business : String → SimulatorError
  conflict not_found : String → SimulatorError

pub record EffectReceipt : Type 0 where
  pub domain : String
  pub capability : String
  pub request_id : String
  pub idempotency_key : String
  pub effect_id : String
  pub state_version : ℕ
  pub mutated : Bool
  pub result : Fields

pub record StoredEffect : Type 0 where
  pub request_digest : String
  pub receipt : EffectReceipt

unfoldable pub required_text : Option Json → String → Result SimulatorError String
required_text (some (Json.text s)) path = elim (is_blank s) [
  | true ↦ err (SimulatorError.contract path)
  | false ↦ ok s
]
required_text _ path = err (SimulatorError.contract path)

abbrev pub all_in : List String → List String → Bool
all_in [] ys = true
all_in (x ∷ xs) ys = in_list x ys && all_in xs ys

-- `exact_fields`: the two sets of names are the same.
unfoldable pub exact_fields : Fields → List String → String → Result SimulatorError (Unit {0})
exact_fields d expected path =
    require (all_in (keys d) expected && all_in expected (keys d)) (SimulatorError.contract path)
