-- ===== src/Tests/Approvals.antt =====
-- A review that two workers lease, approve and consume, on a clock that counts seconds.
use cbrain.Prelude.{
  ℕ, ◌+◌, ltb, leb, String, none, true, false, List, [], ◌∷◌, ok, ◌≡◌, refl, is_blank,
}
use cbrain.Approvals.{ApprovalRole, ApprovalPrincipal}
use cbrain.Reviews.{Table, find, load, changed, owner_after, expiry_after, update, replace, insert}
use cbrain.Reviews.Expiry.{
  expire_lease, expire_lease_if_needed, expire_approval, expire_approval_if_needed,
}
use cbrain.Reviews.Methods.{
  Deployment, Clock, park_in, park, lease_in, claim_lease, approve_in, approve,
}
use cbrain.Reviews.Consume.{Call, apply, apply_all, consume_if_approved, consume_in}
use cbrain.Reviews.Moves.{Moved}
use cbrain.Reviews.Calls.{apply_all-Moved}
use cbrain.Reviews.Spent.{Consumed, consume_if_approved-true, consumption_once}

abbrev actors : ApprovalRole → List String
actors ApprovalRole.controller = "alice" ∷ []
actors _ = []

abbrev acme : Deployment ℕ
acme = record {
  organisation_id = "acme";
  allowed_approvers = actors;
  max_ttl_seconds = 3600;
  max_lease_seconds = 300;
  not_positive = λ t. leb t 0;
  exceeds = λ a b. ltb b a;
  reached = λ now t. leb t now;
  before = λ now t. ltb now t;
  plus = λ a b. a + b;
}

abbrev at : ℕ → Clock ℕ
at t = record { expiry = t; expiry_entry = t; now = t; effect = t; entry = t }

abbrev alice : ApprovalPrincipal
alice = record { actor_id = "alice"; role = ApprovalRole.controller }

abbrev until_approved : List (Deployment ℕ × Clock ℕ × Call ℕ)
until_approved =
    (acme, at 10, Call.parks "req-1" "sha256:aa" ApprovalRole.controller)
    ∷ (acme, at 20, Call.claims "req-1" "worker-1" none)
    ∷ (acme, at 30, Call.claims "req-1" "worker-2" none)
    ∷ (acme, at 40, Call.approves "req-1" alice 600)
    ∷ []

abbrev between : List (Deployment ℕ × Clock ℕ × Call ℕ)
between =
    (acme, at 60, Call.parks "req-2" "sha256:bb" ApprovalRole.controller)
    ∷ (acme, at 70, Call.approves "req-1" alice 600)
    ∷ []

abbrev approved_table : Table ℕ
approved_table = apply_all until_approved []

consumed_now :
    (consume_if_approved acme (at 50) "req-1" "sha256:aa" ApprovalRole.controller approved_table).0
    ≡ ok true
unfolding apply_all apply park park_in claim_lease lease_in approve approve_in consume_if_approved
    consume_in load find expire_lease_if_needed expire_lease expire_approval_if_needed
    expire_approval replace changed update insert owner_after expiry_after is_blank
consumed_now = refl

apply_all-Moved_example : Moved approved_table (apply_all between approved_table)
apply_all-Moved_example = apply_all-Moved between approved_table

consume_if_approved-true_example :
    Consumed acme
      (at 50)
      "req-1"
      "sha256:aa"
      ApprovalRole.controller
      approved_table
      (consume_if_approved acme
        (at 50)
        "req-1"
        "sha256:aa"
        ApprovalRole.controller
        approved_table).1
consume_if_approved-true_example =
    consume_if_approved-true acme (at 50) "req-1" "sha256:aa" ApprovalRole.controller approved_table
      consumed_now

consumption_once_example :
    (consume_if_approved acme (at 80) "req-1" "sha256:aa" ApprovalRole.controller (
      apply_all between
        (consume_if_approved acme
          (at 50)
          "req-1"
          "sha256:aa"
          ApprovalRole.controller
          approved_table).1)).0
    ≡ ok false
consumption_once_example =
    consumption_once acme acme (at 50) (at 80) "req-1" "sha256:aa" "sha256:aa"
      ApprovalRole.controller ApprovalRole.controller between approved_table refl consumed_now
