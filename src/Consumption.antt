-- ===== src/Consumption.antt =====
-- cbrain/consumption.py: the store in which an authorization is used once, over the table of
-- migrations/postgres/001_execution_authorization_uses.sql. The database is PostgreSQL: an INSERT
-- that conflicts with a unique constraint does nothing, and a transaction applies whole or not.
pub mod Once
pub mod Claim
use cbrain.Prelude.{
  ℕ, String, Option, none, some, Bool, true, false, ◌&&◌, ◌||◌, not, List, [], ◌∷◌, Result, ok, err,
  require, ◌>>◌, str_eq, is_blank, codes, leb, ◌==◌, if◌then◌else◌,
}
use cbrain.Prelude.Lists.{length}

pub record AuthorizationUse : Type 0 where
  pub organisation_id : String
  pub execution_authorization_id : String
  pub authorization_digest : String
  pub request_id : String
  pub claimed_at : String

unfoldable pub strip_prefix : List ℕ → List ℕ → Option (List ℕ)
strip_prefix [] cs = some cs
strip_prefix (p ∷ ps) [] = none
strip_prefix (p ∷ ps) (c ∷ cs) = if p == c then strip_prefix ps cs else none

unfoldable pub all_hexadecimal : List ℕ → Bool
all_hexadecimal [] = true
all_hexadecimal (c ∷ cs) =
    ((leb b'0' c && leb c b'9') || (leb b'a' c && leb c b'f')) && all_hexadecimal cs

-- `_require_digest`: "sha256:" and 64 lowercase hexadecimal digits.
unfoldable pub is_digest : String → Bool
unfolding strip_prefix all_hexadecimal
is_digest s = elim (strip_prefix (codes "sha256:") (codes s)) [
  | none ↦ false
  | some digits ↦ length digits == 64 && all_hexadecimal digits
]

-- The `ValueError`s of `AuthorizationUse(...)`.
pub data UseError : Type 0 where
  empty_field : String → UseError
  not_digest : UseError

unfoldable pub authorization_use : AuthorizationUse → Result UseError AuthorizationUse
unfolding is_digest
authorization_use u = do
  require (not (is_blank u.organisation_id)) (UseError.empty_field "organisation_id")
  require (not (is_blank u.execution_authorization_id))
      (UseError.empty_field "execution_authorization_id")
  require (not (is_blank u.request_id)) (UseError.empty_field "request_id")
  require (not (is_blank u.claimed_at)) (UseError.empty_field "claimed_at")
  require (is_digest u.authorization_digest) UseError.not_digest
  ok u

abbrev pub Table : Type 0
Table = List AuthorizationUse

-- The `WHERE` of the lookup, and the two unique constraints of the table.
unfoldable pub same_use : AuthorizationUse → AuthorizationUse → Bool
same_use u v =
    (str_eq u.organisation_id v.organisation_id
      && str_eq u.execution_authorization_id v.execution_authorization_id)
    || str_eq u.authorization_digest v.authorization_digest

unfoldable pub is_used : AuthorizationUse → Table → Bool
unfolding same_use
is_used u [] = false
is_used u (v ∷ t) = same_use u v || is_used u t

-- Where the database fails in a call, if it does. A failed `COMMIT` has applied the transaction or
-- not; after it, only closing the cursor and the connection can fail.
pub data Fault : Type 0 where
  no_fault connect_fails cursor_fails statement_fails : Fault
  commit_lost commit_applied close_fails : Fault

-- What a call raises: `AuthorizationConsumptionError`, or the driver's own exception.
pub data StoreError : Type 0 where
  consumption_error driver_error : StoreError

unfoldable pub is_consumed : Fault → Table → AuthorizationUse → Result StoreError Bool
unfolding is_used
is_consumed Fault.no_fault t u = ok (is_used u t)
is_consumed Fault.cursor_fails t u = err StoreError.driver_error
is_consumed Fault.close_fails t u = err StoreError.driver_error
is_consumed _ t u = err StoreError.consumption_error

-- `INSERT ... ON CONFLICT DO NOTHING RETURNING ...`: whether a row came back, and the table.
unfoldable pub insert_use : AuthorizationUse → Table → Bool × Table
unfolding is_used
insert_use u t = if is_used u t then (false, t) else (true, u ∷ t)

unfoldable pub claim_once : Fault → Table → AuthorizationUse → Result StoreError Bool × Table
unfolding insert_use
claim_once Fault.no_fault t u = let (claimed, t') = insert_use u t in (ok claimed, t')
claim_once Fault.connect_fails t u = (err StoreError.consumption_error, t)
claim_once Fault.cursor_fails t u = (err StoreError.driver_error, t)
claim_once Fault.statement_fails t u = (err StoreError.consumption_error, t)
claim_once Fault.commit_lost t u = (err StoreError.consumption_error, t)
claim_once Fault.commit_applied t u =
    let (_, t') = insert_use u t in (err StoreError.consumption_error, t')
claim_once Fault.close_fails t u = let (_, t') = insert_use u t in (err StoreError.driver_error, t')
