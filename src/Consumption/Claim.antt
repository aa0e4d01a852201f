-- ===== src/Consumption/Claim.antt =====
-- cbrain/adapters/privatevault_claim.py and cbrain/adapters/privatevault_consumption.py, with the
-- acceptance of a report in cbrain/adapters/privatevault_execution.py: an authorization is verified
-- and consumed before it is dispatched. Agent DNA is not in the repository: its digest and its
-- verifier are parameters. The documents are JSON objects that `_snapshot_object` accepts, so a
-- snapshot of one is the document itself.
pub mod Sound
pub mod Exclusive
use cbrain.Prelude.{
  String, Option, none, some, Bool, true, false, ◌&&◌, not, Result, ok, err, ◌>>=◌, ◌>>◌, require,
  refuse, map_err, or_else, str_eq, is_blank, if◌then◌else◌,
}
use cbrain.Json.{Json, Fields, get}
use cbrain.Consumption.{
  AuthorizationUse, UseError, authorization_use, Table, Fault, StoreError, is_consumed, claim_once,
}

pub data ClaimError : Type 0 where
  claim_time_invalid request_mismatch digest_failed digest_invalid claim_invalid : ClaimError
  verification_failed rejected trust_bundle_unavailable : ClaimError
  authorization_changed authorization_consumed : ClaimError
  field_invalid : String → ClaimError
  store : StoreError → ClaimError

-- `ExecutionAuthorizationBinding`: what the claim reads of it, and the rest.
pub record AuthorizationBinding (Rest : Type 0) : Type 0 where
  pub request_id : String
  pub at_time : String
  pub rest : Rest

-- A report of Agent DNA: whether `ok` is `True`, the two labels in upper case, and the texts.
pub record Report : Type 0 where
  pub is_ok : Bool
  pub evidence_state : String
  pub decision_conformance : String
  pub reason_code : Option String
  pub accountable_principal : Option String

pub record VerifiedEvidence : Type 0 where
  pub stage : String
  pub accountable_principal : Option String
  pub reason_code : String

pub record VerifiedAuthorization (Rest : Type 0) : Type 0 where
  pub binding : AuthorizationBinding Rest
  pub evidence : VerifiedEvidence
  pub authorization : Fields
  pub trust_bundle : Fields

abbrev pub non_empty : Option String → Option String
non_empty none = none
non_empty (some s) = if str_eq s "" then none else some s

unfoldable pub is_accepted : Report → Bool
is_accepted r =
    r.is_ok && str_eq r.evidence_state "VERIFIED" && str_eq r.decision_conformance "CONFORMANT"

-- `_require_accepted`
unfoldable pub require_accepted : String → Report → Result ClaimError VerifiedEvidence
unfolding is_accepted
require_accepted stage r =
    if not (is_accepted r)
    then err ClaimError.rejected
    else ok (record {
      stage = stage;
      accountable_principal = non_empty r.accountable_principal;
      reason_code = or_else (non_empty r.reason_code) "ACCEPTED";
    })

-- `_required_text`
unfoldable pub required_field : Fields → String → Result ClaimError String
required_field d key = elim (get key d) [
  | some (Json.text s) ↦ if is_blank s then err (ClaimError.field_invalid key) else ok s
  | _ ↦ err (ClaimError.field_invalid key)
]

-- `isinstance(digest, str)`
unfoldable pub digest_text : Json → Result ClaimError String
digest_text (Json.text s) = ok s
digest_text _ = err ClaimError.digest_invalid

unfoldable pub same_record : AuthorizationUse → AuthorizationUse → Bool
same_record u v =
    str_eq u.organisation_id v.organisation_id
    && str_eq u.execution_authorization_id v.execution_authorization_id
    && str_eq u.authorization_digest v.authorization_digest
    && str_eq u.request_id v.request_id
    && str_eq u.claimed_at v.claimed_at

module _ {Rest : Type 0} (digest_function : Fields → Result (Unit {0}) Json)
    (verify_execution_authorization : Fields
      → Option Fields
      → AuthorizationBinding Rest
      → Bool
      → Result (Unit {0}) Report) where
  -- `PrivateVaultAuthorizationUseFactory.create_candidate`
  unfoldable pub create_candidate :
      Fields → AuthorizationBinding Rest → String → Result ClaimError AuthorizationUse
  unfolding required_field digest_text authorization_use
  create_candidate authorization binding claimed_at = do
    organisation_id ← required_field authorization "organisation_id"
    authorization_id ← required_field authorization "execution_authorization_id"
    signed_request_id ← required_field authorization "request_id"
    refuse (not (str_eq signed_request_id binding.request_id)) ClaimError.request_mismatch
    value ← map_err (λ _. ClaimError.digest_failed) (digest_function authorization)
    digest ← digest_text value
    map_err (λ _. ClaimError.claim_invalid)
        (authorization_use (record {
          organisation_id = organisation_id;
          execution_authorization_id = authorization_id;
          authorization_digest = digest;
          request_id = binding.request_id;
          claimed_at = claimed_at;
        }))

  abbrev pub require_bundle : Option Fields → Result ClaimError Fields
  require_bundle none = err ClaimError.trust_bundle_unavailable
  require_bundle (some b) = ok b

  -- `PrivateVaultAgentDNAVerifier.verify_authorization`
  unfoldable pub verify_authorization :
      Fields
      → Option Fields
      → AuthorizationBinding Rest
      → Bool
      → Result ClaimError (VerifiedAuthorization Rest)
  unfolding require_accepted
  verify_authorization authorization trust_bundle binding already_consumed = do
    report ←
        map_err (λ _. ClaimError.verification_failed)
          (verify_execution_authorization authorization trust_bundle binding already_consumed)
    evidence ← require_accepted "authorization" report
    bundle ← require_bundle trust_bundle
    ok (record {
      binding = binding;
      evidence = evidence;
      authorization = authorization;
      trust_bundle = bundle;
    })

  -- The last step: the claim, over the table as it stands by then.
  unfoldable pub consume :
      VerifiedAuthorization Rest
      → Result StoreError Bool × Table
      → Result ClaimError (VerifiedAuthorization Rest) × Table
  consume verified (ok true, t) = (ok verified, t)
  consume verified (ok false, t) = (err ClaimError.authorization_consumed, t)
  consume verified (err e, t) = (err (ClaimError.store e), t)

  -- Everything before the claim: the use to claim and the verified authorization. `seen` is the
  -- table of the lookup, in which others may write before the claim.
  unfoldable pub prepare :
      Fault
      → Table
      → Fields
      → Option Fields
      → AuthorizationBinding Rest
      → Option String
      → Result ClaimError (AuthorizationUse × VerifiedAuthorization Rest)
  prepare lookup_fault seen authorization trust_bundle binding claimed_at = do
    let claim_time = or_else claimed_at binding.at_time
    refuse (is_blank claim_time) ClaimError.claim_time_invalid
    let binding' = record binding { at_time = claim_time }
    candidate ← create_candidate authorization binding' claim_time
    already_consumed ← map_err ClaimError.store (is_consumed lookup_fault seen candidate)
    verified ← verify_authorization authorization trust_bundle binding' already_consumed
    refuse already_consumed ClaimError.authorization_consumed
    verified_use ← create_candidate verified.authorization verified.binding claim_time
    refuse (not (same_record verified_use candidate)) ClaimError.authorization_changed
    ok (verified_use, verified)

  unfoldable pub finish :
      Fault
      → Table
      → Result ClaimError (AuthorizationUse × VerifiedAuthorization Rest)
      → Result ClaimError (VerifiedAuthorization Rest) × Table
  unfolding consume
  finish claim_fault t (err e) = (err e, t)
  finish claim_fault t (ok (u, verified)) = consume verified (claim_once claim_fault t u)

  -- `PrivateVaultAuthorizationClaimCoordinator.verify_and_claim`
  unfoldable pub verify_and_claim :
      Fault
      → Table
      → Fault
      → Table
      → Fields
      → Option Fields
      → AuthorizationBinding Rest
      → Option String
      → Result ClaimError (VerifiedAuthorization Rest) × Table
  unfolding prepare finish
  verify_and_claim lookup_fault seen claim_fault t authorization trust_bundle binding claimed_at =
      finish claim_fault t (prepare lookup_fault seen authorization trust_bundle binding claimed_at)
