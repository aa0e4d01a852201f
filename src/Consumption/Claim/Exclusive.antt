-- ===== src/Consumption/Claim/Exclusive.antt =====
-- A permit is claimed at most once.
use cbrain.Prelude.{
  String, Option, Bool, true, List, Result, ok, ◌≡◌, sym, ◌∙◌, ◌≢◌, eq_refl, ok-injective,
}
use mathlib.Core.Path.{subst}
use cbrain.Json.{Json, Fields, get}
use cbrain.Consumption.{AuthorizationUse, Table, Fault, claim_once, same_use}
use cbrain.Consumption.Once.{Attempt, after, claim_once_unique}
use cbrain.Consumption.Claim.Sound.{Names, verify_and_claim-Claimed}
use cbrain.Consumption.Claim.{
  AuthorizationBinding, Report, VerifiedAuthorization, required_field, verify_and_claim,
}

-- The document is a permit for the organisation and the authorization id of another one.
abbrev pub SamePermit : Fields → Fields → Type 0
SamePermit d e =
    (get "organisation_id" d ≡ get "organisation_id" e)
    × (get "execution_authorization_id" d ≡ get "execution_authorization_id" e)

required_field-get :
    (k : String) (d e : Fields) → get k d ≡ get k e → required_field d k ≡ required_field e k
unfolding required_field
required_field-get k d e h = rw (h, required_field)

Names-same_use :
    (d e : Fields) (u v : AuthorizationUse)
    → SamePermit d e
    → Names d u
    → Names e v
    → same_use u v ≡ true
unfolding same_use
Names-same_use d e u v same nu nv =
    let organisation : u.organisation_id ≡ v.organisation_id =
      ok-injective
        (sym nu.organisation ∙ required_field-get "organisation_id" d e same.0 ∙ nv.organisation) in
    let id : u.execution_authorization_id ≡ v.execution_authorization_id = ok-injective (
      sym nu.authorization_id
      ∙ required_field-get "execution_authorization_id" d e same.1
      ∙ nv.authorization_id) in
    rw (organisation, id, eq_refl v.organisation_id, eq_refl v.execution_authorization_id)

module _ {Rest : Type 0} (digest : Fields → Result (Unit {0}) Json)
    (verify : Fields
      → Option Fields
      → AuthorizationBinding Rest
      → Bool
      → Result (Unit {0}) Report) where
  -- One permit is good for one dispatch: after a `verify_and_claim` that returned, none for a
  -- document of the same organisation and authorization id returns, whatever claims and faults of
  -- other workers lie between, and also where its lookup saw an older table.
  pub verify_and_claim-once :
      (lf lf' cf cf' : Fault) (seen seen' t : Table) (d d' : Fields)
      (bundle bundle' : Option Fields) (b b' : AuthorizationBinding Rest) (at at' : Option String)
      (v v' : VerifiedAuthorization Rest) (between : List Attempt)
      → SamePermit d d'
      → (verify_and_claim digest verify lf seen cf t d bundle b at).0 ≡ ok v
      → (verify_and_claim digest verify lf' seen' cf'
          (after (verify_and_claim digest verify lf seen cf t d bundle b at).1 between)
          d'
          bundle'
          b'
          at').0
        ≢ ok v'
  verify_and_claim-once lf lf' cf cf' seen seen' t d d' bundle bundle' b b' at at' v v' between same
        h h' =
      let first = verify_and_claim-Claimed digest verify lf seen cf t d bundle b at v h in
      let second = verify_and_claim-Claimed digest verify lf' seen' cf' _ d' bundle' b' at' v' h' in
      claim_once_unique cf cf' t first.use_of second.use_of between
        (Names-same_use d d' first.use_of second.use_of same first.prepared.names
          second.prepared.names)
        first.won
        (subst (λ x. (claim_once cf' (after x between) second.use_of).0 ≡ ok true) first.left
          second.won)
