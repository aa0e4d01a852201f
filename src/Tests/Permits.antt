-- ===== src/Tests/Permits.antt =====
-- Claims of permits, by two workers on one table.
use cbrain.Prelude.{
  String, Option, none, some, Bool, true, not, List, [], ◌∷◌, Result, ok, ◌≡◌, ◌≢◌, refl, ap,
  is_blank,
}
use cbrain.Json.{Json, Fields, get}
use cbrain.Consumption.{
  AuthorizationUse, authorization_use, is_digest, strip_prefix, all_hexadecimal, Fault, same_use,
  is_used, is_consumed, insert_use, claim_once,
}
use cbrain.Consumption.Once.{Attempt, after, claim_once_unique, claim_once-consumed}
use cbrain.Consumption.Claim.{
  AuthorizationBinding, Report, VerifiedAuthorization, is_accepted, require_accepted,
  required_field, digest_text, same_record, create_candidate, verify_authorization, consume,
  prepare, finish, verify_and_claim,
}
use cbrain.Consumption.Claim.Sound.{Claimed, verify_and_claim-Claimed}
use cbrain.Consumption.Claim.Exclusive.{verify_and_claim-once}

abbrev digest : String
digest = "sha256:00000000000000000000000000000000000000000000000000000000deadbeef"

abbrev permit_use : AuthorizationUse
permit_use = record {
  organisation_id = "acme";
  execution_authorization_id = "auth-1";
  authorization_digest = digest;
  request_id = "req-1";
  claimed_at = "2024-01-01T00:00:00Z";
}

-- The same signed document under another id.
abbrev renamed_use : AuthorizationUse
renamed_use = record permit_use { execution_authorization_id = "auth-2" }

abbrev other_use : AuthorizationUse
other_use = record {
  organisation_id = "acme";
  execution_authorization_id = "auth-3";
  authorization_digest = "sha256:0000000000000000000000000000000000000000000000000000000000000001";
  request_id = "req-3";
  claimed_at = "2024-01-01T00:00:00Z";
}

abbrev elsewhere : List Attempt
elsewhere =
    record { fault = Fault.commit_applied; use_of = other_use }
    ∷ record { fault = Fault.connect_fails; use_of = permit_use }
    ∷ []

first_claim : (claim_once Fault.no_fault [] permit_use).0 ≡ ok true
unfolding claim_once insert_use is_used
first_claim = refl

renamed-same_use : same_use permit_use renamed_use ≡ true
unfolding same_use
renamed-same_use = refl

claim_once_unique_example :
    (claim_once Fault.no_fault
      (after (claim_once Fault.no_fault [] permit_use).1 elsewhere)
      renamed_use).0
    ≢ ok true
claim_once_unique_example =
    claim_once_unique Fault.no_fault Fault.no_fault [] permit_use renamed_use elsewhere
      renamed-same_use first_claim

lookup_after :
    is_consumed Fault.no_fault
      (after (claim_once Fault.no_fault [] permit_use).1 elsewhere)
      permit_use
    ≡ ok true
unfolding is_consumed after claim_once insert_use is_used same_use
lookup_after = refl

claim_once-consumed_example : true ≡ true
claim_once-consumed_example =
    claim_once-consumed Fault.no_fault Fault.no_fault [] permit_use elsewhere first_claim
      lookup_after

abbrev document : Fields
document = Fields.field "organisation_id" (Json.text "acme") (
    Fields.field "execution_authorization_id" (Json.text "auth-1")
      (Fields.field "request_id" (Json.text "req-1") Fields.end))

abbrev digest_of : Fields → Result (Unit {0}) Json
digest_of _ = ok (Json.text digest)

-- A verifier that accepts what was not consumed before.
abbrev accept :
    Fields → Option Fields → AuthorizationBinding (Unit {0}) → Bool → Result (Unit {0}) Report
accept _ _ _ consumed = ok (record {
  is_ok = not consumed;
  evidence_state = "VERIFIED";
  decision_conformance = "CONFORMANT";
  reason_code = none;
  accountable_principal = some "alice";
})

abbrev binding : AuthorizationBinding (Unit {0})
binding = record { request_id = "req-1"; at_time = "2024-01-01T00:00:00Z"; rest = tt }

abbrev bundle : Option Fields
bundle = some Fields.end

abbrev verified : VerifiedAuthorization (Unit {0})
verified = record {
  binding = binding;
  evidence = record {
    stage = "authorization";
    accountable_principal = some "alice";
    reason_code = "ACCEPTED";
  };
  authorization = document;
  trust_bundle = Fields.end;
}

claim_run :
    verify_and_claim digest_of accept Fault.no_fault [] Fault.no_fault [] document bundle binding
      none
    ≡ (ok verified, permit_use ∷ [])
unfolding verify_and_claim prepare finish consume create_candidate verify_authorization
    require_accepted is_accepted required_field digest_text same_record get authorization_use
    is_digest strip_prefix all_hexadecimal is_blank is_consumed is_used claim_once insert_use
claim_run = refl

verify_and_claim-Claimed_example :
    Claimed digest_of accept Fault.no_fault [] Fault.no_fault [] document bundle binding
      "2024-01-01T00:00:00Z" verified
      (verify_and_claim digest_of accept Fault.no_fault [] Fault.no_fault [] document bundle binding
        none).1
verify_and_claim-Claimed_example =
    verify_and_claim-Claimed digest_of accept Fault.no_fault [] Fault.no_fault [] document bundle
      binding none verified (ap (λ x. x.0) claim_run)

-- The second worker looked the use up before the first one claimed it.
verify_and_claim-once_example :
    (verify_and_claim digest_of accept Fault.no_fault [] Fault.no_fault
      (after
        (verify_and_claim digest_of accept Fault.no_fault [] Fault.no_fault [] document bundle
          binding none).1
        elsewhere)
      document
      bundle
      binding
      none).0
    ≢ ok verified
verify_and_claim-once_example =
    verify_and_claim-once digest_of accept Fault.no_fault Fault.no_fault Fault.no_fault
      Fault.no_fault [] [] [] document document bundle bundle binding binding none none verified
      verified elsewhere (refl, refl) (ap (λ x. x.0) claim_run)
