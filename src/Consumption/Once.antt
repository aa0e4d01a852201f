-- ===== src/Consumption/Once.antt =====
-- An authorization is claimed at most once, whatever fails and whoever calls.
use cbrain.Prelude.{eq_iff, eq_refl, ◌∙◌, Bool, true, false, List, [], ◌∷◌, ok, ◌≡◌, ◌≢◌, arith}
use cbrain.Consumption.{
  AuthorizationUse, Table, Fault, same_use, is_used, is_consumed, insert_use, claim_once,
}

-- The claims of all workers, in the order in which the database ran them.
pub record Attempt : Type 0 where
  pub fault : Fault
  pub use_of : AuthorizationUse

unfoldable pub after : Table → List Attempt → Table
unfolding claim_once
after t [] = t
after t (a ∷ as') = after (claim_once a.fault t a.use_of).1 as'

insert_use-keeps :
    (u v : AuthorizationUse) (t : Table) → is_used u t ≡ true → is_used u (insert_use v t).1 ≡ true
unfolding insert_use is_used
insert_use-keeps u v t h = ground arith

-- A claim never takes a use away.
claim_once-keeps :
    (f : Fault) (u v : AuthorizationUse) (t : Table)
    → is_used u t ≡ true
    → is_used u (claim_once f t v).1 ≡ true
unfolding claim_once
claim_once-keeps Fault.no_fault u v t h = insert_use-keeps u v t h
claim_once-keeps Fault.commit_applied u v t h = insert_use-keeps u v t h
claim_once-keeps Fault.close_fails u v t h = insert_use-keeps u v t h
claim_once-keeps _ u v t h = h

after-keeps :
    (u : AuthorizationUse) (t : Table) (as' : List Attempt)
    → is_used u t ≡ true
    → is_used u (after t as') ≡ true
unfolding after
after-keeps u t [] h = h
after-keeps u t (a ∷ as') h =
    after-keeps u (claim_once a.fault t a.use_of).1 as' (claim_once-keeps a.fault u a.use_of t h)

-- Two uses are the same authorization's in either order.
same_use_comm : (u v : AuthorizationUse) → same_use u v ≡ same_use v u
unfolding same_use
same_use_comm u v = ground (
  arith,
  eq_iff u.organisation_id v.organisation_id,
  eq_iff v.organisation_id u.organisation_id,
  eq_iff u.execution_authorization_id v.execution_authorization_id,
  eq_iff v.execution_authorization_id u.execution_authorization_id,
  eq_iff u.authorization_digest v.authorization_digest,
  eq_iff v.authorization_digest u.authorization_digest,
)

-- A claim that returned True has put a row in, and no row of this authorization was there.
claim_once-claims :
    (f : Fault) (t : Table) (u : AuthorizationUse)
    → (claim_once f t u).0 ≡ ok true
    → (is_used u t ≡ false) × ((claim_once f t u).1 ≡ u ∷ t)
unfolding claim_once insert_use
claim_once-claims Fault.no_fault t u h = ground arith
claim_once-claims Fault.connect_fails t u h = cc
claim_once-claims _ t u h = cc

-- Once a claim has returned True, no later claim of a use with the same organisation and
-- authorization id, or with the same digest, returns True, whatever claims and faults lie between.
pub claim_once_unique :
    (f g : Fault) (t : Table) (u v : AuthorizationUse) (between : List Attempt)
    → same_use u v ≡ true
    → (claim_once f t u).0 ≡ ok true
    → (claim_once g (after (claim_once f t u).1 between) v).0 ≢ ok true
unfolding is_used
claim_once_unique f g t u v between same first second =
    let (_, inserted) = claim_once-claims f t u first in
    let used : is_used v (claim_once f t u).1 ≡ true = rw (inserted, same_use_comm v u, same) in
    let still = after-keeps v (claim_once f t u).1 between used in
    let (fresh, _) = claim_once-claims g (after (claim_once f t u).1 between) v second in cc

is_consumed-answers :
    (g : Fault) (t : Table) (u : AuthorizationUse) {b : Bool}
    → is_consumed g t u ≡ ok b
    → b ≡ is_used u t
unfolding is_consumed
is_consumed-answers Fault.no_fault t u h = cc
is_consumed-answers Fault.connect_fails t u h = cc
is_consumed-answers _ t u h = cc

same_use_refl : (u : AuthorizationUse) → same_use u u ≡ true
unfolding same_use
same_use_refl u = simp (eq_refl u.organisation_id, eq_refl u.execution_authorization_id)

-- After a claim that returned True, every lookup that answers reports the use as consumed, whatever
-- claims and faults lie between.
pub claim_once-consumed :
    (f g : Fault) (t : Table) (u : AuthorizationUse) (between : List Attempt) {b : Bool}
    → (claim_once f t u).0 ≡ ok true
    → is_consumed g (after (claim_once f t u).1 between) u ≡ ok b
    → b ≡ true
unfolding is_used
claim_once-consumed f g t u between first answer =
    let (_, inserted) = claim_once-claims f t u first in
    let used : is_used u (claim_once f t u).1 ≡ true = rw (inserted, same_use_refl u) in
    is_consumed-answers g _ u answer ∙ after-keeps u (claim_once f t u).1 between used
