-- ===== src/Consumption/Claim/Sound.antt =====
-- What a successful `verify_and_claim` has established.
use cbrain.Prelude.{
  String, Option, none, some, Bool, true, false, not, Result, ok, err, ◌≡◌, refl, ap, ◌∙◌, arith,
  map_err, or_else, str_eq, is_blank, >>=-eq-ok, refuse-eq-ok, ok-injective,
}
use mathlib.Core.Path.{subst}
use cbrain.Json.{Json, Fields}
use cbrain.Consumption.{
  AuthorizationUse, authorization_use, Table, Fault, StoreError, is_consumed, claim_once,
}
use cbrain.Consumption.Claim.{
  ClaimError, AuthorizationBinding, Report, VerifiedEvidence, VerifiedAuthorization, is_accepted,
  require_accepted, required_field, digest_text, same_record, create_candidate,
  verify_authorization, prepare, consume, finish, verify_and_claim,
}

authorization_use-eq :
    (u : AuthorizationUse) {v : AuthorizationUse} → authorization_use u ≡ ok v → u ≡ v
unfolding authorization_use
authorization_use-eq u h = ground arith

map_err-eq-ok :
    {E F A : Type 0} (f : E → F) (r : Result E A) {a : A} → map_err f r ≡ ok a → r ≡ ok a
map_err-eq-ok f (ok b) h = ap ok (ok-injective h)
map_err-eq-ok f (err e) h = absurd (cc)

-- The use names the document's organisation and authorization id.
pub record Names (document : Fields) (u : AuthorizationUse) : Type 0 where
  pub organisation : required_field document "organisation_id" ≡ ok u.organisation_id
  pub authorization_id :
      required_field document "execution_authorization_id" ≡ ok u.execution_authorization_id

module _ {Rest : Type 0} (digest : Fields → Result (Unit {0}) Json)
    (verify : Fields
      → Option Fields
      → AuthorizationBinding Rest
      → Bool
      → Result (Unit {0}) Report) where
  create_candidate-Names :
      (document : Fields) (b : AuthorizationBinding Rest) (time : String) {u : AuthorizationUse}
      → create_candidate digest verify document b time ≡ ok u
      → Names document u
  unfolding create_candidate
  create_candidate-Names document b time h =
      let (organisation, e, h') = >>=-eq-ok (required_field document "organisation_id") _ h in
      let (id, e', h'') = >>=-eq-ok (required_field document "execution_authorization_id") _ h' in
      let (signed, e3, h3) = >>=-eq-ok (required_field document "request_id") _ h'' in
      let (same, h4) = refuse-eq-ok (not (str_eq signed b.request_id)) _ _ h3 in
      let (value, e5, h5) =
        >>=-eq-ok (map_err (λ _. ClaimError.digest_failed) (digest document)) _ h4 in
      let (text, e6, h6) = >>=-eq-ok (digest_text value) _ h5 in
      let candidate : AuthorizationUse = record {
        organisation_id = organisation;
        execution_authorization_id = id;
        authorization_digest = text;
        request_id = b.request_id;
        claimed_at = time;
      } in
      let made =
        authorization_use-eq candidate (map_err-eq-ok (λ _. ClaimError.claim_invalid) _ h6) in
      subst (Names document) made (record { organisation = e; authorization_id = e' })

  -- What Agent DNA was asked, and that its report was accepted.
  pub record Verified (document : Fields) (bundle : Option Fields) (b : AuthorizationBinding Rest)
      (v : VerifiedAuthorization Rest) : Type 0 where
    pub report : Report
    pub reported : verify document bundle b false ≡ ok report
    pub accepted : is_accepted report ≡ true
    pub bundled : bundle ≡ some v.trust_bundle
    pub same_binding : v.binding ≡ b
    pub same_document : v.authorization ≡ document

  require_accepted-accepted :
      (stage : String) (r : Report) {e : VerifiedEvidence}
      → require_accepted stage r ≡ ok e
      → is_accepted r ≡ true
  unfolding require_accepted
  require_accepted-accepted stage r h = ground arith

  verify_authorization-Verified :
      (document : Fields) (bundle : Option Fields) (b : AuthorizationBinding Rest)
      {v : VerifiedAuthorization Rest}
      → verify_authorization digest verify document bundle b false ≡ ok v
      → Verified document bundle b v
  unfolding verify_authorization
  verify_authorization-Verified document none b h =
      let (report, e, h') =
        >>=-eq-ok (map_err (λ _. ClaimError.verification_failed) (verify document none b false)) _
          h in
      let (evidence, e', h'') = >>=-eq-ok (require_accepted "authorization" report) _ h' in
      absurd (cc)
  verify_authorization-Verified document (some t) b h =
      let (report, e, h') =
        >>=-eq-ok (map_err (λ _. ClaimError.verification_failed) (verify document (some t) b false))
          _ h in
      let (evidence, e', h'') = >>=-eq-ok (require_accepted "authorization" report) _ h' in
      subst (Verified document (some t) b) (ok-injective h'') (record {
        report = report;
        reported = map_err-eq-ok (λ _. ClaimError.verification_failed) _ e;
        accepted = require_accepted-accepted "authorization" report e';
        bundled = refl;
        same_binding = refl;
        same_document = refl;
      })

  -- What precedes a claim: the use is the document's, it was looked up as not consumed, and Agent
  -- DNA accepted the document at the time that is recorded as the time of the claim.
  pub record Prepared (lookup_fault : Fault) (seen : Table) (document : Fields)
      (bundle : Option Fields) (b : AuthorizationBinding Rest) (time : String)
      (u : AuthorizationUse) (v : VerifiedAuthorization Rest) : Type 0 where
    pub names : Names document u
    pub unused :
        (c : AuthorizationUse) × (is_consumed lookup_fault seen c ≡ ok false) × Names document c
    pub timed : is_blank time ≡ false
    pub verified : Verified document bundle (record b { at_time = time }) v

  prepare-Prepared :
      (lookup_fault : Fault) (seen : Table) (document : Fields) (bundle : Option Fields)
      (b : AuthorizationBinding Rest) (claimed_at : Option String) {u : AuthorizationUse}
      {v : VerifiedAuthorization Rest}
      → prepare digest verify lookup_fault seen document bundle b claimed_at ≡ ok (u, v)
      → Prepared lookup_fault seen document bundle b (or_else claimed_at b.at_time) u v
  unfolding prepare
  prepare-Prepared lookup_fault seen document bundle b claimed_at {u} {v} h =
      let time = or_else claimed_at b.at_time in
      let b' : AuthorizationBinding Rest = record b { at_time = time } in
      let (timed, h1) = refuse-eq-ok (is_blank time) _ _ h in
      let (c, e, h2) = >>=-eq-ok (create_candidate digest verify document b' time) _ h1 in
      let (known, e2, h3) =
        >>=-eq-ok (map_err ClaimError.store (is_consumed lookup_fault seen c)) _ h2 in
      let (w, e3, h4) =
        >>=-eq-ok (verify_authorization digest verify document bundle b' known) _ h3 in
      let (fresh, h5) = refuse-eq-ok known _ _ h4 in
      let (u', e5, h6) =
        >>=-eq-ok (create_candidate digest verify w.authorization w.binding time) _ h5 in
      let (same, h7) = refuse-eq-ok (not (same_record u' c)) _ _ h6 in
      let both = ok-injective h7 in
      let checked =
        verify_authorization-Verified document bundle b'
          (subst (λ k. verify_authorization digest verify document bundle b' k ≡ ok w) fresh e3) in
      record {
        names =
            subst (λ x. Names x u) checked.same_document
              (subst (Names w.authorization) (ap (λ p. p.0) both)
                (create_candidate-Names w.authorization w.binding time e5));
        unused = (
          c,
          map_err-eq-ok ClaimError.store _ e2 ∙ ap ok fresh,
          create_candidate-Names document b' time e,
        );
        timed = timed;
        verified = subst (Verified document bundle b') (ap (λ p. p.1) both) checked;
      }

  consume-claimed :
      (w v : VerifiedAuthorization Rest) (r : Result StoreError Bool × Table)
      → (consume digest verify w r).0 ≡ ok v
      → (r.0 ≡ ok true) × (w ≡ v) × ((consume digest verify w r).1 ≡ r.1)
  unfolding consume
  consume-claimed w v (ok true, t) h = (refl, ok-injective h, refl)
  consume-claimed w v (ok false, t) h = absurd (cc)
  consume-claimed w v (err e, t) h = absurd (cc)

  -- A successful `verify_and_claim`: a claim of the document's use returned True in this call.
  pub record Claimed (lookup_fault : Fault) (seen : Table) (claim_fault : Fault) (t : Table)
      (document : Fields) (bundle : Option Fields) (b : AuthorizationBinding Rest) (time : String)
      (v : VerifiedAuthorization Rest) (t' : Table) : Type 0 where
    pub use_of : AuthorizationUse
    pub prepared : Prepared lookup_fault seen document bundle b time use_of v
    pub won : (claim_once claim_fault t use_of).0 ≡ ok true
    pub left : t' ≡ (claim_once claim_fault t use_of).1

  finish-Claimed :
      (lookup_fault : Fault) (seen : Table) (claim_fault : Fault) (t : Table) (document : Fields)
      (bundle : Option Fields) (b : AuthorizationBinding Rest) (time : String)
      (r : Result ClaimError (AuthorizationUse × VerifiedAuthorization Rest))
      (v : VerifiedAuthorization Rest)
      → ((u : AuthorizationUse) (w : VerifiedAuthorization Rest)
          → r ≡ ok (u, w)
          → Prepared lookup_fault seen document bundle b time u w)
      → (finish digest verify claim_fault t r).0 ≡ ok v
      → Claimed lookup_fault seen claim_fault t document bundle b time v
          (finish digest verify claim_fault t r).1
  unfolding finish
  finish-Claimed lf seen cf t document bundle b time (err e) v p h = absurd (cc)
  finish-Claimed lf seen cf t document bundle b time (ok (u, w)) v p h =
      let (won, same, left) = consume-claimed w v (claim_once cf t u) h in
      record {
        use_of = u;
        prepared = subst (Prepared lf seen document bundle b time u) same (p u w refl);
        won = won;
        left = left;
      }

  -- If `verify_and_claim` returns, Agent DNA accepted the document at the recorded claim time with
  -- no use of it on record, and this call's claim of the document's use returned True.
  pub verify_and_claim-Claimed :
      (lookup_fault : Fault) (seen : Table) (claim_fault : Fault) (t : Table) (document : Fields)
      (bundle : Option Fields) (b : AuthorizationBinding Rest) (claimed_at : Option String)
      (v : VerifiedAuthorization Rest)
      → (verify_and_claim digest verify lookup_fault seen claim_fault t document bundle b
          claimed_at).0
        ≡ ok v
      → Claimed lookup_fault seen claim_fault t document bundle b
          (or_else claimed_at b.at_time)
          v
          (verify_and_claim digest verify lookup_fault seen claim_fault t document bundle b
            claimed_at).1
  unfolding verify_and_claim
  verify_and_claim-Claimed lf seen cf t document bundle b claimed_at v h =
      finish-Claimed lf seen cf t document bundle b (or_else claimed_at b.at_time)
        (prepare digest verify lf seen document bundle b claimed_at) v
        (λ u w e. prepare-Prepared lf seen document bundle b claimed_at e) h
