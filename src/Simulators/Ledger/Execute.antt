-- ===== src/Simulators/Ledger/Execute.antt =====
-- cbrain/simulators/ledger.py: `LedgerSimulator.execute`, stage by stage.
use cbrain.Prelude.{
  ◌+◌, String, Option, none, some, Bool, true, false, not, List, [], ◌∷◌, Result, ok, err, ◌>>=◌,
  ◌>>◌, or_raise, str_eq, if◌then◌else◌,
}
use cbrain.Prelude.Dict.{lookup, insert}
use cbrain.Json.{Fields}
use cbrain.Simulators.{SimulatorError, EffectReceipt, StoredEffect}
use cbrain.Simulators.Ledger.Methods.{apply_capability}
use cbrain.Simulators.Ledger.{
  Ledger, LedgerSimulator, Formats, Capability, Request, capability_of, request_text,
}

abbrev pub next_version : Bool → Ledger → Ledger
next_version true s = record s { state_version = s.state_version + 1 }
next_version false s = s

module _ (f : Formats) where
  -- A first use of the key: the effect is applied and stored with its receipt.
  unfoldable pub first_use :
      LedgerSimulator
      → Request
      → String
      → Result SimulatorError (Fields × Bool) × Ledger
      → Result SimulatorError EffectReceipt × LedgerSimulator
  unfolding insert
  first_use s r digest (err e, ledger) = (err e, record s { ledger = ledger })
  first_use s r digest (ok (result, changed), ledger) =
      let after = next_version changed ledger in
      let receipt : EffectReceipt = record {
        domain = "payments";
        capability = r.capability;
        request_id = r.request_id;
        idempotency_key = r.idempotency_key;
        effect_id = f.effect_id "payments" r.capability r.idempotency_key digest;
        state_version = after.state_version;
        mutated = changed;
        result = result;
      } in
      (
        ok receipt,
        record {
          ledger = after;
          effects =
              insert r.idempotency_key (record { request_digest = digest; receipt = receipt })
                s.effects;
        },
      )

  -- A key that has been used gives its receipt again, for the same request only.
  unfoldable pub by_effect :
      LedgerSimulator
      → Request
      → Capability
      → String
      → Option StoredEffect
      → Result SimulatorError EffectReceipt × LedgerSimulator
  unfolding first_use apply_capability
  by_effect s r c digest (some e) =
      if not (str_eq e.request_digest digest)
      then (err (SimulatorError.conflict "idempotency key was already used for another request"), s)
      else (ok e.receipt, s)
  by_effect s r c digest none = first_use s r digest (apply_capability f c r.arguments s.ledger)

  -- The request as it is captured: its capability and its digest.
  unfoldable pub captured_request : Request → Result SimulatorError (Capability × String)
  unfolding capability_of request_text
  captured_request r = do
    c ← or_raise (capability_of r.capability) (SimulatorError.contract "unknown payment capability")
    request_text r
    digest ←
        or_raise (f.request_digest r.capability r.request_id r.idempotency_key r.arguments)
          (SimulatorError.contract "arguments")
    ok (c, digest)

  abbrev pub with_capture :
      LedgerSimulator
      → Request
      → Result SimulatorError (Capability × String)
      → Result SimulatorError EffectReceipt × LedgerSimulator
  with_capture s r (err e) = (err e, s)
  with_capture s r (ok (c, digest)) = by_effect s r c digest (lookup r.idempotency_key s.effects)

  -- `LedgerSimulator.execute`
  unfoldable pub execute_request :
      Request → LedgerSimulator → Result SimulatorError EffectReceipt × LedgerSimulator
  unfolding captured_request by_effect lookup
  execute_request r s = with_capture s r (captured_request r)

  unfoldable pub execute_requests : List Request → LedgerSimulator → LedgerSimulator
  unfolding execute_request
  execute_requests [] s = s
  execute_requests (r ∷ rs) s = execute_requests rs (execute_request r s).1
