-- ===== src/Simulators/Ledger/Conserved.antt =====
-- No money is made or lost: what leaves an account is what its transfers say.
use cbrain.Prelude.{
  ◌+◌, ◌-◌, String, Option, none, some, Bool, true, false, List, [], ◌∷◌, Result, ok, err, str_eq,
  ◌≡◌, refl, sym, ap, ◌∙◌, inl, inr, arith, Bool-cases,
}
use mathlib.Core.Path.{subst}
use cbrain.Prelude.Dict.{lookup, insert}
use cbrain.Json.{Fields}
use cbrain.Simulators.{SimulatorError, StoredEffect}
use cbrain.Simulators.Ledger.Settled.{Ends, IsApplied, apply_capability-Ends}
use cbrain.Simulators.Ledger.Methods.{apply_capability, next_transfer}
use cbrain.Simulators.Ledger.Execute.{
  next_version, first_use, by_effect, captured_request, with_capture, execute_request,
  execute_requests,
}
use cbrain.Simulators.Ledger.Sums.{
  sent, WellKeyed, Balanced, Balanced-refl, Balanced-trans, written, taken, others, append_nil,
}
use cbrain.Simulators.Ledger.{Ledger, LedgerSimulator, Formats, Capability, Request}

module _ (f : Formats) where
  -- What holds after a step.
  abbrev Good : Ledger → Ledger → Type 0
  Good s s' = Balanced s s' × WellKeyed s'

  same-Good :
      (s s' : Ledger)
      → s'.accounts ≡ s.accounts
      → s'.transfers ≡ s.transfers
      → WellKeyed s
      → Good s s'
  same-Good s s' a t keyed = (
    (λ id b h. (b, ap (lookup id) a ∙ h, ap (λ ts. b.balance + sent id ts) t)),
    (λ id b h. keyed id b (ap (lookup id) (sym a) ∙ h)),
  )

  -- What a capability does keeps the accounts in balance.
  applied-Good :
      (c : Capability) (s s' : Ledger) (x : Fields × Bool)
      → WellKeyed s
      → IsApplied f c s x s'
      → Good s s'
  unfolding sent
  applied-Good Capability.balance_read s s' x keyed e =
      subst (Good s) (sym e) (Balanced-refl s, keyed)
  applied-Good Capability.limit_read s s' x keyed e =
      subst (Good s) (sym e) (Balanced-refl s, keyed)
  applied-Good Capability.limit_modify s s' x keyed (a, limit, id, l, e) =
      let own = ap (λ i. lookup i s.accounts) (keyed id a l) ∙ l in
      let new = record a { transfer_limit = limit } in
      let accounts = insert a.account_id new s.accounts in
      let same =
        ap (λ ts. record s { accounts = accounts; transfers = ts }) (append_nil s.transfers) in
      subst (Good s) (same ∙ sym e) (written s a new [] own refl (omega arith) (λ j o. refl) keyed)
  applied-Good Capability.beneficiary_add s s' x keyed (a, t) = same-Good s s' a t keyed
  applied-Good Capability.transfer_initiate s s' x keyed (a, to, amount, id, l, covered, _, e) =
      let own = ap (λ i. lookup i s.accounts) (keyed id a l) ∙ l in
      let new = record a { balance = a.balance - amount } in
      let t = next_transfer f a to amount s in
      subst (Good s) (sym e) (
        written s a new (t ∷ []) own refl (taken a amount covered t refl refl)
          (λ j o. others a t j refl o) keyed)

  next_version-Good : (b : Bool) (s s' : Ledger) → Good s s' → Good s (next_version b s')
  next_version-Good true s s' good = good
  next_version-Good false s s' good = good

  first_use-Good :
      (s : LedgerSimulator) (r : Request) (c : Capability) (digest : String)
      (x : Result SimulatorError (Fields × Bool) × Ledger)
      → WellKeyed s.ledger
      → Ends (IsApplied f c s.ledger) s.ledger x
      → Good s.ledger (first_use f s r digest x).1.ledger
  unfolding first_use
  first_use-Good s r c digest (err e, s') keyed same =
      subst (Good s.ledger) (sym same) (Balanced-refl s.ledger, keyed)
  first_use-Good s r c digest (ok (d, b), s') keyed applied =
      next_version-Good b s.ledger s' (applied-Good c s.ledger s' (d, b) keyed applied)

  by_effect-Good :
      (s : LedgerSimulator) (r : Request) (c : Capability) (digest : String)
      (o : Option StoredEffect)
      → WellKeyed s.ledger
      → Good s.ledger (by_effect f s r c digest o).1.ledger
  unfolding by_effect
  by_effect-Good s r c digest none keyed =
      first_use-Good s r c digest (apply_capability f c r.arguments s.ledger) keyed
        (apply_capability-Ends f c r.arguments s.ledger)
  by_effect-Good s r c digest (some e) keyed = elim (Bool-cases (str_eq e.request_digest digest)) [
    | inl same ↦ rw same (Balanced-refl s.ledger, keyed)
    | inr other ↦ rw other (Balanced-refl s.ledger, keyed)
  ]

  execute_request-Good :
      (r : Request) (s : LedgerSimulator)
      → WellKeyed s.ledger
      → Good s.ledger (execute_request f r s).1.ledger
  unfolding execute_request
  execute_request-Good r s keyed = from (captured_request f r)
    where
      from :
          (x : Result SimulatorError (Capability × String))
          → Good s.ledger (with_capture f s r x).1.ledger
      from (err e) = (Balanced-refl s.ledger, keyed)
      from (ok (c, digest)) = by_effect-Good s r c digest (lookup r.idempotency_key s.effects) keyed

  -- Whatever requests are executed on a ledger whose accounts stand under their ids, whether they
  -- succeed or fail: no account is lost, and for each account what its balance loses is what the
  -- transfers from it, old and new, say that was sent.
  pub execute_requests-Balanced :
      (rs : List Request) (s : LedgerSimulator)
      → WellKeyed s.ledger
      → Balanced s.ledger (execute_requests f rs s).ledger
  unfolding execute_requests
  execute_requests-Balanced [] s keyed = Balanced-refl s.ledger
  execute_requests-Balanced (r ∷ rs) s keyed =
      let (balanced, well) = execute_request-Good r s keyed in
      Balanced-trans s.ledger (execute_request f r s).1.ledger
        (execute_requests f rs (execute_request f r s).1).ledger balanced
        (execute_requests-Balanced rs (execute_request f r s).1 well)
