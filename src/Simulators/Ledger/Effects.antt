-- ===== src/Simulators/Ledger/Effects.antt =====
-- An idempotency key stands for one effect of the ledger.
use cbrain.Prelude.{
  String, Option, none, some, Bool, false, List, [], ◌∷◌, Result, ok, err, ok-injective, str_eq,
  eq_iff, eq_refl, ◌≡◌, refl, sym, ap, ◌∙◌, inl, inr, arith, Bool-cases, if◌then◌else◌,
}
use cbrain.Prelude.Dict.{lookup, insert, lookup-insert}
use cbrain.Json.{Fields}
use cbrain.Simulators.{SimulatorError, EffectReceipt, StoredEffect}
use cbrain.Simulators.Ledger.Execute.{
  first_use, by_effect, captured_request, with_capture, execute_request, execute_requests,
}
use cbrain.Simulators.Ledger.{Ledger, LedgerSimulator, Formats, Capability, Request}
use cbrain.Simulators.Ledger.Methods.{apply_capability}

module _ (f : Formats) where
  -- The effect that is stored for a key.
  abbrev IsStored : String → String → EffectReceipt → LedgerSimulator → Type 0
  IsStored key digest receipt s =
      (e : StoredEffect) × (lookup key s.effects ≡ some e)
      × (e.request_digest ≡ digest)
      × (e.receipt ≡ receipt)

  inserted :
      (key : String) (e : StoredEffect) (s : LedgerSimulator)
      → lookup key (insert key e s.effects) ≡ some e
  inserted key e s =
      lookup-insert key key e s.effects
      ∙ ap (λ b. if b then some e else lookup key s.effects) (eq_refl key)

  kept_by :
      (k key : String) (d e : StoredEffect) (s : LedgerSimulator)
      → str_eq k key ≡ false
      → lookup key s.effects ≡ some e
      → lookup key (insert k d s.effects) ≡ some e
  kept_by k key d e s differs l =
      lookup-insert k key d s.effects
      ∙ (ap (λ b. if b then some d else lookup key s.effects) differs ∙ l)

  first_use-IsStored :
      (s : LedgerSimulator) (r : Request) (digest : String)
      (x : Result SimulatorError (Fields × Bool) × Ledger) (receipt : EffectReceipt)
      → (first_use f s r digest x).0 ≡ ok receipt
      → IsStored r.idempotency_key digest receipt (first_use f s r digest x).1
  unfolding first_use
  first_use-IsStored s r digest (err e, ledger) receipt h = absurd (cc)
  first_use-IsStored s r digest (ok (result, changed), ledger) receipt h =
      (_, inserted r.idempotency_key _ s, refl, ok-injective h)

  by_effect-IsStored :
      (s : LedgerSimulator) (r : Request) (c : Capability) (digest : String)
      (o : Option StoredEffect) (receipt : EffectReceipt)
      → lookup r.idempotency_key s.effects ≡ o
      → (by_effect f s r c digest o).0 ≡ ok receipt
      → IsStored r.idempotency_key digest receipt (by_effect f s r c digest o).1
  unfolding by_effect
  by_effect-IsStored s r c digest none receipt l h =
      first_use-IsStored s r digest (apply_capability f c r.arguments s.ledger) receipt h
  by_effect-IsStored s r c digest (some e) receipt l h =
      elim (Bool-cases (str_eq e.request_digest digest)) [
        | inl same ↦
            rw same
              (e, l, ground (arith, eq_iff e.request_digest digest), ok-injective (rw same at h))
        | inr other ↦ absurd (let h' : err _ ≡ ok receipt = rw other at h in cc)
      ]

  -- An effect that is stored stays, whatever is executed.
  first_use-keeps :
      (key : String) (e : StoredEffect) (s : LedgerSimulator) (r : Request) (digest : String)
      (x : Result SimulatorError (Fields × Bool) × Ledger)
      → lookup r.idempotency_key s.effects ≡ none
      → lookup key s.effects ≡ some e
      → lookup key (first_use f s r digest x).1.effects ≡ some e
  unfolding first_use
  first_use-keeps key e s r digest (err _, ledger) free l = l
  first_use-keeps key e s r digest (ok (result, changed), ledger) free l =
      elim (Bool-cases (str_eq r.idempotency_key key)) [
        | inl same ↦
            let k : r.idempotency_key ≡ key = ground (arith, eq_iff r.idempotency_key key) in
            let gone : none ≡ some e = sym free ∙ (ap (λ i. lookup i s.effects) k ∙ l) in
            absurd (cc)
        | inr differs ↦ kept_by r.idempotency_key key _ e s differs l
      ]

  by_effect-keeps :
      (key : String) (e : StoredEffect) (s : LedgerSimulator) (r : Request) (c : Capability)
      (digest : String) (o : Option StoredEffect)
      → lookup r.idempotency_key s.effects ≡ o
      → lookup key s.effects ≡ some e
      → lookup key (by_effect f s r c digest o).1.effects ≡ some e
  unfolding by_effect
  by_effect-keeps key e s r c digest none h l =
      first_use-keeps key e s r digest (apply_capability f c r.arguments s.ledger) h l
  by_effect-keeps key e s r c digest (some e') h l =
      elim (Bool-cases (str_eq e'.request_digest digest)) [
        | inl same ↦ rw same l
        | inr other ↦ rw other l
      ]

  execute_request-keeps :
      (key : String) (e : StoredEffect) (r : Request) (s : LedgerSimulator)
      → lookup key s.effects ≡ some e
      → lookup key (execute_request f r s).1.effects ≡ some e
  unfolding execute_request
  execute_request-keeps key e r s l = from (captured_request f r)
    where
      from :
          (x : Result SimulatorError (Capability × String))
          → lookup key (with_capture f s r x).1.effects ≡ some e
      from (err _) = l
      from (ok (c, digest)) =
          by_effect-keeps key e s r c digest (lookup r.idempotency_key s.effects) refl l

  execute_requests-keeps :
      (key : String) (e : StoredEffect) (rs : List Request) (s : LedgerSimulator)
      → lookup key s.effects ≡ some e
      → lookup key (execute_requests f rs s).effects ≡ some e
  unfolding execute_requests
  execute_requests-keeps key e [] s l = l
  execute_requests-keeps key e (r ∷ rs) s l =
      execute_requests-keeps key e rs (execute_request f r s).1 (execute_request-keeps key e r s l)

  by_effect-again :
      (r : Request) (c : Capability) (digest : String) (e : StoredEffect) (receipt : EffectReceipt)
      → e.request_digest ≡ digest
      → e.receipt ≡ receipt
      → (s : LedgerSimulator) → lookup r.idempotency_key s.effects ≡ some e
      → by_effect f s r c digest (lookup r.idempotency_key s.effects) ≡ (ok receipt, s)
  unfolding by_effect
  by_effect-again r c digest e receipt d same s l = ap (by_effect f s r c digest) l ∙ given
    where
      given : by_effect f s r c digest (some e) ≡ (ok receipt, s)
      given = rw (d, eq_refl digest) (ap (λ x. (ok x, s)) same)

  -- One request has one effect: once it has been executed, executing it again gives the same receipt
  -- and leaves the ledger as it finds it, whatever requests were executed between the two.
  pub execute_once :
      (r : Request) (rs : List Request) (s : LedgerSimulator) (receipt : EffectReceipt)
      → (execute_request f r s).0 ≡ ok receipt
      → execute_request f r (execute_requests f rs (execute_request f r s).1)
        ≡ (ok receipt, execute_requests f rs (execute_request f r s).1)
  unfolding execute_request
  execute_once r rs s receipt h = from (captured_request f r) h
    where
      from :
          (x : Result SimulatorError (Capability × String))
          → (with_capture f s r x).0 ≡ ok receipt
          → with_capture f (execute_requests f rs (with_capture f s r x).1) r x
            ≡ (ok receipt, execute_requests f rs (with_capture f s r x).1)
      from (err e) h' = absurd (cc)
      from (ok (c, digest)) h' =
          let (e, l, d, same) =
            by_effect-IsStored s r c digest (lookup r.idempotency_key s.effects) receipt refl h' in
          by_effect-again r c digest e receipt d same
            (execute_requests f rs
              (by_effect f s r c digest (lookup r.idempotency_key s.effects)).1)
            (execute_requests-keeps r.idempotency_key e rs _ l)
