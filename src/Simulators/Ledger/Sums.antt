-- ===== src/Simulators/Ledger/Sums.antt =====
-- What a ledger's accounts and transfers come to in sum.
use cbrain.Prelude.{
  ℕ, ◌+◌, ◌-◌, ◌≤◌, String, Option, none, some, false, List, [], ◌∷◌, ◌++◌, ok, ok-injective,
  or_raise, str_eq, eq_iff, eq_refl, ◌≡◌, refl, sym, ap, ◌∙◌, inl, inr, arith, Bool-cases,
  if◌then◌else◌,
}
use cbrain.Prelude.Dict.{lookup, insert, lookup-insert}
use cbrain.Simulators.{SimulatorError}
use cbrain.Simulators.Ledger.{LedgerAccount, Transfer, Ledger}

-- What the transfers have taken from an account.
unfoldable pub sent : String → List Transfer → ℕ
sent id [] = 0
sent id (t ∷ ts) = (if str_eq t.account_id id then t.amount else 0) + sent id ts

-- Each account stands under its own id.
abbrev pub WellKeyed : Ledger → Type 0
WellKeyed s = (id : String) (a : LedgerAccount) → lookup id s.accounts ≡ some a → a.account_id ≡ id

-- No account is lost, and its balance and what was sent from it stay the same in sum.
abbrev pub Balanced : Ledger → Ledger → Type 0
Balanced s s' =
    (id : String) (a : LedgerAccount)
    → lookup id s.accounts ≡ some a
    → (a' : LedgerAccount) × (lookup id s'.accounts ≡ some a')
      × (a'.balance + sent id s'.transfers ≡ a.balance + sent id s.transfers)

pub sent-append :
    (id : String) (ts us : List Transfer) → sent id (ts ++ us) ≡ sent id ts + sent id us
unfolding sent
sent-append id [] us = omega arith
sent-append id (t ∷ ts) us = omega (arith, sent-append id ts us)

pub Balanced-refl : (s : Ledger) → Balanced s s
Balanced-refl s id a h = (a, h, refl)

pub Balanced-trans : (s t u : Ledger) → Balanced s t → Balanced t u → Balanced s u
Balanced-trans s t u m n id a h =
    let (a', h', e) = m id a h in let (a'', h'', e') = n id a' h' in (a'', h'', e' ∙ e)

-- One account is written over, and the transfers grow by what its balance loses.
pub written :
    (s : Ledger) (a new : LedgerAccount) (more : List Transfer)
    → lookup a.account_id s.accounts ≡ some a
    → new.account_id ≡ a.account_id
    → new.balance + sent a.account_id more ≡ a.balance
    → ((id : String) → str_eq a.account_id id ≡ false → sent id more ≡ 0)
    → WellKeyed s
    → Balanced s (record s {
      accounts = insert a.account_id new s.accounts;
      transfers = s.transfers ++ more;
    })
      × WellKeyed (record s {
        accounts = insert a.account_id new s.accounts;
        transfers = s.transfers ++ more;
      })
written s a new more l k sum rest keyed = (balanced, well)
  where
    balanced : Balanced s (record s {
      accounts = insert a.account_id new s.accounts;
      transfers = s.transfers ++ more;
    })
    balanced id b h = elim (Bool-cases (str_eq a.account_id id)) [
      | inl same ↦
          let e : a.account_id ≡ id = ground (arith, eq_iff a.account_id id) in
          let both : some a ≡ some b = sym l ∙ (ap (λ i. lookup i s.accounts) e ∙ h) in
          let b' : a ≡ b = cc in
          (
            new,
            lookup-insert a.account_id id new s.accounts
                ∙ ap (λ c. if c then some new else lookup id s.accounts) same,
            omega (
              arith,
              sum,
              sent-append id s.transfers more,
              ap (λ i. sent i more) e,
              ap (λ x. x.balance) b',
            ),
          )
      | inr other ↦ (
        b,
        lookup-insert a.account_id id new s.accounts
            ∙ (ap (λ c. if c then some new else lookup id s.accounts) other ∙ h),
        omega (arith, sent-append id s.transfers more, rest id other),
      )
    ]

    well : WellKeyed (record s {
      accounts = insert a.account_id new s.accounts;
      transfers = s.transfers ++ more;
    })
    well id b h = elim (Bool-cases (str_eq a.account_id id)) [
      | inl same ↦
          let e : a.account_id ≡ id = ground (arith, eq_iff a.account_id id) in
          let found : some new ≡ some b =
            sym (ap (λ c. if c then some new else lookup id s.accounts) same)
            ∙ (sym (lookup-insert a.account_id id new s.accounts) ∙ h) in
          let b' : new ≡ b = cc in ap (λ x. x.account_id) (sym b') ∙ (k ∙ e)
      | inr other ↦ keyed id b (
          sym (ap (λ c. if c then some new else lookup id s.accounts) other)
          ∙ (sym (lookup-insert a.account_id id new s.accounts) ∙ h))
    ]

pub or_raise-eq-ok :
    {A : Type 0} (o : Option A) (e : SimulatorError) {a : A} → or_raise o e ≡ ok a → o ≡ some a
or_raise-eq-ok none e h = absurd (cc)
or_raise-eq-ok (some b) e h = ap some (ok-injective h)

pub append_nil : {A : Type 0} (xs : List A) → xs ++ [] ≡ xs
append_nil [] = refl
append_nil (x ∷ xs) = cc (append_nil xs)

pub taken :
    (a : LedgerAccount) (amount : ℕ)
    → amount ≤ a.balance
    → (t : Transfer) → t.account_id ≡ a.account_id
    → t.amount ≡ amount
    → a.balance - amount + sent a.account_id (t ∷ []) ≡ a.balance
unfolding sent
taken a amount covered t k e = rw (k, eq_refl a.account_id) (omega (arith, covered, e))

pub others :
    (a : LedgerAccount) (t : Transfer) (j : String)
    → t.account_id ≡ a.account_id
    → str_eq a.account_id j ≡ false
    → sent j (t ∷ []) ≡ 0
unfolding sent
others a t j k o = rw (k, o) refl
