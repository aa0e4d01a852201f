-- ===== src/Reviews/Moves.antt =====
-- How reviews move from state to state, whatever method is called.
use cbrain.Prelude.{
  ◌+◌, String, Option, none, some, true, false, ◌&&◌, List, [], ◌∷◌, ◌++◌, ok, ◌≡◌, refl, sym, ap,
  ◌∙◌, arith, str_eq, eq_iff, eq_refl, if◌then◌else◌, Bool-cases, inl, inr,
}
use mathlib.Core.Path.{subst}
use cbrain.Prelude.Lists.{length, length-append}
use cbrain.Reviews.{
  ReviewState, ReviewRecord, Entry, Row, Table, Change, has_key, find, load, review_of, changed,
  update, replace, insert, is_frozen,
}

-- One change of a review's state.
pub data Step : ReviewState → ReviewState → Type 0 where
  lease : Step ReviewState.parked ReviewState.leased
  renew : Step ReviewState.leased ReviewState.leased
  give_back : Step ReviewState.leased ReviewState.parked
  approve_parked : Step ReviewState.parked ReviewState.approved
  approve_leased : Step ReviewState.leased ReviewState.approved
  expire : Step ReviewState.approved ReviewState.approval_expired
  consume : Step ReviewState.approved ReviewState.consumed
  freeze : {s : ReviewState} → is_frozen s ≡ false → Step s ReviewState.frozen

pub data Reach (s : ReviewState) : ReviewState → Type 0 where
  here : Reach s s
  next : {t u : ReviewState} → Reach s t → Step t u → Reach s u

append_nil : {A : Type 0} (xs : List A) → xs ++ [] ≡ xs
append_nil [] = refl
append_nil (x ∷ xs) = cc (append_nil xs)

append_assoc : {A : Type 0} (xs ys zs : List A) → (xs ++ ys) ++ zs ≡ xs ++ (ys ++ zs)
append_assoc [] ys zs = refl
append_assoc (x ∷ xs) ys zs = cc (append_assoc xs ys zs)

pub Reach-trans : {s t u : ReviewState} → Reach s t → Reach t u → Reach s u
Reach-trans r here = r
Reach-trans r (next q st) = next (Reach-trans r q) st

module _ {Time : Type 0} where
  -- No review is lost; each has moved by steps, and its log has grown by an entry for each new version.
  abbrev pub Moved : Table Time → Table Time → Type 0
  Moved t t' =
      (org id : String) (row : Row Time)
      → find org id t ≡ some row
      → (row' : Row Time) × (find org id t' ≡ some row')
        × Reach row.review.state row'.review.state
        × (added : List (Entry Time)) × (row'.log ≡ row.log ++ added)
        × (row'.review.version ≡ row.review.version + length added)

  pub Moved-refl : (t : Table Time) → Moved t t
  Moved-refl t org id row h = (row, h, here, [], sym (append_nil row.log), omega arith)

  pub Moved-trans : (t u v : Table Time) → Moved t u → Moved u v → Moved t v
  Moved-trans t u v m n org id row h =
      let (row', h', r, added, l, v) = m org id row h in
      let (row'', h'', r', added', l', v') = n org id row' h' in
      (
        row'',
        h'',
        Reach-trans r r',
        added ++ added',
        l' ∙ (ap (λ x. x ++ added') l ∙ append_assoc row.log added added'),
        omega (arith, v, v', length-append added added'),
      )

  -- A row that is found has the key that it is found by.
  pub find-has_key :
      (org id : String) (t : Table Time) (row : Row Time)
      → find org id t ≡ some row
      → has_key org id row ≡ true
  unfolding find
  find-has_key org id [] row h = absurd (cc)
  find-has_key org id (x ∷ t) row h = elim (Bool-cases (has_key org id x)) [
    | inl same ↦ ground (arith)
    | inr other ↦ find-has_key org id t row (rw other at h)
  ]

  pub insert-find :
      (now : Time) (r : ReviewRecord Time) (event : String) (org id : String) (t : Table Time)
      (row : Row Time)
      → find org id t ≡ some row
      → find org id (insert now r event t) ≡ some row
  unfolding find insert
  insert-find now r event org id [] row h = absurd (cc)
  insert-find now r event org id (x ∷ t) row h = elim (Bool-cases (has_key org id x)) [
    | inl same ↦ ground arith
    | inr other ↦ rw other (insert-find now r event org id t row (rw other at h))
  ]

  pub Moved-insert :
      (now : Time) (r : ReviewRecord Time) (event : String) (t : Table Time)
      → Moved t (insert now r event t)
  Moved-insert now r event t org id row h =
      (row, insert-find now r event org id t row h, here, [], sym (append_nil row.log), omega arith)

  -- An update of a row that is there succeeds, and changes what is found by its key only.
  pub update-find :
      (old new : ReviewRecord Time) (entry : Entry Time) (t : Table Time) (row : Row Time)
      → new.organisation_id ≡ old.organisation_id
      → new.request_id ≡ old.request_id
      → find old.organisation_id old.request_id t ≡ some row
      → row.review.version ≡ old.version
      → (t' : Table Time) × (update old new entry t ≡ some t')
        × ((org id : String)
            → find org id t' ≡ (
                if str_eq old.organisation_id org && str_eq old.request_id id
                then some (record { review = new; log = row.log ++ (entry ∷ []) })
                else find org id t))
  unfolding find update
  update-find old new entry [] row o i h v = absurd (cc)
  update-find old new entry (x ∷ t) row o i h v =
      elim (Bool-cases (has_key old.organisation_id old.request_id x)) [
        | inl same ↦
            let e : some x ≡ some row = rw same at h in
            let e' : x ≡ row = cc in
            let w : x.review.version ≡ old.version = rw e' v in
            let l : x.log ≡ row.log = rw e' in
            (
              record { review = new; log = row.log ++ (entry ∷ []) } ∷ t,
              rw (same, w, l) (ground arith),
              λ org id. ground (
                arith,
                o,
                i,
                same,
                eq_iff old.organisation_id org,
                eq_iff old.request_id id,
                eq_iff x.review.organisation_id org,
                eq_iff x.review.request_id id,
                eq_iff x.review.organisation_id old.organisation_id,
                eq_iff x.review.request_id old.request_id,
              ),
            )
        | inr other ↦
            let (t', e, f) = update-find old new entry t row o i (rw other at h) v in
            (
              x ∷ t',
              ground arith,
              λ org id. ground (
                arith,
                f org id,
                eq_iff old.organisation_id org,
                eq_iff old.request_id id,
                eq_iff x.review.organisation_id org,
                eq_iff x.review.request_id id,
                eq_iff x.review.organisation_id old.organisation_id,
                eq_iff x.review.request_id old.request_id,
              ),
            )
      ]

  -- Whatever `_replace` writes over a record that was loaded, it finds the row and changes its state
  -- by the step that it is given; the concurrent update that it guards against does not occur.
  pub record Replaced (now : Time) (c : Change Time) (r : ReviewRecord Time) (t : Table Time)
      : Type 0 where
    pub table : Table Time
    pub succeeds : replace now c r t ≡ ok (changed c r, table)
    pub moved : Moved t table
    pub loaded : load r.organisation_id r.request_id table ≡ some (changed c r)

  pub load-find :
      (org id : String) (t : Table Time) (r : ReviewRecord Time)
      → load org id t ≡ some r
      → (row : Row Time) × (find org id t ≡ some row) × (row.review ≡ r)
  unfolding load
  load-find org id t r h = from (find org id t) h
    where
      from :
          (o : Option (Row Time))
          → review_of o ≡ some r
          → (row : Row Time) × (o ≡ some row) × (row.review ≡ r)
      from none e = absurd (cc)
      from (some row) e = (row, refl, cc)

  -- A table in which one row has made a step.
  one_step-Moved :
      (r : ReviewRecord Time) (row new : Row Time) (entry : Entry Time) (t t' : Table Time)
      → find r.organisation_id r.request_id t ≡ some row
      → row.review ≡ r
      → Step r.state new.review.state
      → new.review.version ≡ r.version + 1
      → new.log ≡ row.log ++ (entry ∷ [])
      → ((org id : String)
          → find org id t' ≡ (
              if str_eq r.organisation_id org && str_eq r.request_id id
              then some new
              else find org id t))
      → Moved t t'
  one_step-Moved r row new entry t t' found same st later logged f org id row' h =
      elim (Bool-cases (str_eq r.organisation_id org && str_eq r.request_id id)) [
        | inl key ↦
            let o : r.organisation_id ≡ org = ground (arith, eq_iff r.organisation_id org) in
            let i : r.request_id ≡ id = ground (arith, eq_iff r.request_id id) in
            let e : some row ≡ some row' =
              sym found ∙ (ap (λ k. find k r.request_id t) o ∙ (ap (λ k. find org k t) i ∙ h)) in
            let e' : row ≡ row' = cc in
            let w : row'.review ≡ r = ap (λ x. x.review) (sym e') ∙ same in
            (
              new,
              f org id ∙ ap (λ b. if b then some new else find org id t) key,
              next here (subst (λ x. Step x.state new.review.state) (sym w) st),
              entry ∷ [],
              logged ∙ ap (λ x. x.log ++ (entry ∷ [])) e',
              omega (arith, later, ap (λ x. x.version) w),
            )
        | inr other ↦ (
          row',
          f org id ∙ (ap (λ b. if b then some new else find org id t) other ∙ h),
          here,
          [],
          sym (append_nil row'.log),
          omega arith,
        )
      ]

  pub replace-Replaced :
      (now : Time) (c : Change Time) (r : ReviewRecord Time) (t : Table Time)
      → load r.organisation_id r.request_id t ≡ some r
      → Step r.state c.state
      → Replaced now c r t
  unfolding replace changed load
  replace-Replaced now c r t h st =
      let (row, found, same) = load-find r.organisation_id r.request_id t r h in
      let entry : Entry Time = record {
        at = now;
        event = c.event;
        state = c.state;
        version = some (r.version + 1);
      } in
      let (t', e, f) = update-find r (changed c r) entry t row refl refl found (rw same) in
      let new : Row Time = record { review = changed c r; log = row.log ++ (entry ∷ []) } in
      record {
        table = t';
        succeeds = rw (e, replace) refl;
        moved = one_step-Moved r row new entry t t' found same st refl refl f;
        loaded =
            rw (f r.organisation_id r.request_id, eq_refl r.organisation_id, eq_refl r.request_id)
              refl;
      }
