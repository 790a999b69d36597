-- ===== src/Conversions/Once.antt =====
-- A sale is credited once (src/wallet/sell-processing.service.ts), and what a credit writes.
use otsem_api.Common.{
  ◌≡◌, refl, sym, ap, ◌∙◌, Bool, true, false, inl, inr, some, List, [], ◌∷◌, ◌++◌, arith, ==_refl,
  find, Bool-cases, Option-cases, eq_iff,
}
use otsem_api.Numbers.{Numbers}
use otsem_api.Database.Enums.{ConversionStatus, conversion_status_is, type_is}
use otsem_api.Database.Rows.{Account, Conversion, Transaction, Database}
use otsem_api.Database.Action.{ok}
use otsem_api.Conversions.Rows.{id_text, update_conversion}
use otsem_api.Conversions.Deposits.{Deposit, check_deposit_confirmation}
use otsem_api.Conversions.Selling.{
  Exchange, Fresh, Amounts, amounts_of, is_credit_of, credit_row, credit_balance_to_customer,
  sell_usdt_for_brl, process_conversion,
}
use otsem_api.Conversions.Crediting.{credit_again, credit_first-Credits}

module _ {N : Numbers} (exchange : Exchange N) where
  open N use {Number, plus, to_number, to_column}

  check_deposit-accounts :
      (c : Conversion) (deposits : List (Deposit N)) (db : Database)
      → (check_deposit_confirmation N c deposits db).1.accounts ≡ db.accounts
  unfolding check_deposit_confirmation update_conversion
  check_deposit-accounts c deposits db = ground arith

  sell-accounts :
      (c : Conversion) (db : Database) → (sell_usdt_for_brl exchange c db).1.accounts ≡ db.accounts
  unfolding sell_usdt_for_brl update_conversion
  sell-accounts c db = ground arith

  -- The row of a credit is the one that is looked for.
  credit_row-is_credit_of :
      (fresh : Fresh) (c : Conversion) (m : Amounts exchange) (b : Number)
      → is_credit_of c.id c.account_id (credit_row exchange fresh c.id c.account_id m b) ≡ true
  unfolding is_credit_of type_is
  credit_row-is_credit_of fresh c m b =
      rw (==_refl c.account_id, (eq_iff (id_text c.id) (id_text c.id)).1 refl) refl

  find-append :
      (p : Transaction → Bool) (more xs : List Transaction) {t : Transaction}
      → find p xs ≡ some t
      → (u : Transaction) × (find p (more ++ xs) ≡ some u)
  unfolding find
  find-append p [] xs {t} e = (t, e)
  find-append p (m ∷ more) xs {t} e = elim (Bool-cases (p m)) [
    | inl fits ↦ (m, rw fits refl)
    | inr other ↦ let (u, h) = find-append p more xs {t = t} e in (u, rw other h)
  ]

  find_first :
      (p : Transaction → Bool) (t : Transaction) (xs : List Transaction)
      → p t ≡ true
      → find p (t ∷ xs) ≡ some t
  unfolding find
  find_first p t xs h = rw h refl

  -- Once a credit has answered, its row is in the log.
  credit_logged :
      (fresh : Fresh) (c : Conversion) (account : Account) (db d : Database)
      → credit_balance_to_customer exchange fresh c account db ≡ (ok tt, d)
      → (t : Transaction) × (find (is_credit_of c.id c.account_id) d.transactions ≡ some t)
  credit_logged fresh c account db d is =
      elim (Option-cases (find (is_credit_of c.id c.account_id) db.transactions)) [
        | inr (t, e) ↦ elim (credit_again exchange fresh c account db t e) [
          | inl kept ↦ (t, rw (ap (λ r. r.1) (sym is) ∙ kept) e)
          | inr closed ↦ (t, rw (ap (λ r. r.1) (sym is) ∙ closed) e)
        ]
        | inl e ↦ elim (credit_first-Credits exchange fresh c account db e) [
          | inl (kept, threw) ↦ absurd (cc)
          | inr (p, b, f, _, same, _, went) ↦
              let t =
                credit_row exchange fresh c.id c.account_id (amounts_of exchange c (to_number 6 p))
                  (to_number 2 account.balance) in
              (
                t,
                rw (ap (λ r. r.1) (sym is ∙ went)) (
                    find_first (is_credit_of c.id c.account_id) t b.transactions (
                      credit_row-is_credit_of fresh c (amounts_of exchange c (to_number 6 p))
                        (to_number 2 account.balance))),
              )
        ]
      ]

  pub credit_again-accounts :
      (fresh : Fresh) (c : Conversion) (account : Account) (db : Database) (t : Transaction)
      → find (is_credit_of c.id c.account_id) db.transactions ≡ some t
      → (credit_balance_to_customer exchange fresh c account db).1.accounts ≡ db.accounts
  credit_again-accounts fresh c account db t e =
      elim (credit_again exchange fresh c account db t e) [
        | inl kept ↦ rw kept refl
        | inr closed ↦ rw closed refl
      ]

  pub process_sold :
      (fresh : Fresh) (c : Conversion) (account : Account) (deposits : List (Deposit N))
      (db : Database)
      → c.status ≡ ConversionStatus.usdt_sold
      → process_conversion exchange fresh c account deposits db
        ≡ credit_balance_to_customer exchange fresh c account db
  unfolding process_conversion conversion_status_is
  process_sold fresh c account deposits db s =
      let not_pending : conversion_status_is c.status ConversionStatus.pending ≡ false =
        rw s refl in
      let not_received : conversion_status_is c.status ConversionStatus.usdt_received ≡ false =
        rw s refl in
      let is_sold : conversion_status_is c.status ConversionStatus.usdt_sold ≡ true = rw s refl in
      rw (not_pending, not_received, is_sold) refl

  -- Once a sold conversion has been processed and the call has answered, no later processing of it
  -- moves money: whatever the status, the amounts and the account it is loaded with by then and
  -- whatever deposits are listed, every account stays as it is, as long as the log only grows.
  pub process_conversion_once :
      (fresh fresh' : Fresh) (c e : Conversion) (account account' : Account)
      (deposits deposits' : List (Deposit N)) (db d later : Database) (more : List Transaction)
      → c.status ≡ ConversionStatus.usdt_sold
      → process_conversion exchange fresh c account deposits db ≡ (ok tt, d)
      → e.id ≡ c.id
      → e.account_id ≡ c.account_id
      → later.transactions ≡ more ++ d.transactions
      → (process_conversion exchange fresh' e account' deposits' later).1.accounts ≡ later.accounts
  unfolding process_conversion
  process_conversion_once fresh fresh' c e account account' deposits deposits' db d later more s is
        i a grown =
      let run : credit_balance_to_customer exchange fresh c account db ≡ (ok tt, d) =
        sym (process_sold fresh c account deposits db s) ∙ is in
      let (t, logged) = credit_logged fresh c account db d run in
      let (u, found) =
        find-append (is_credit_of c.id c.account_id) more d.transactions {t = t} logged in
      let there : find (is_credit_of e.id e.account_id) later.transactions ≡ some u =
        rw (i, a, grown) found in
      let again = credit_again-accounts fresh' e account' later u there in
      elim (Bool-cases (conversion_status_is e.status ConversionStatus.pending)) [
        | inl p ↦ rw p (check_deposit-accounts e deposits' later)
        | inr np ↦
            elim (Bool-cases (conversion_status_is e.status ConversionStatus.usdt_received)) [
              | inl r ↦ rw (np, r) (sell-accounts e later)
              | inr nr ↦
                  elim (Bool-cases (conversion_status_is e.status ConversionStatus.usdt_sold)) [
                    | inl so ↦ rw (np, nr, so) again
                    | inr ns ↦ rw (np, nr, ns) refl
                  ]
            ]
      ]
