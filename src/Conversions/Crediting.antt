-- ===== src/Conversions/Crediting.antt =====
-- What crediting a sale does to the accounts, the log and the conversions
-- (src/wallet/sell-processing.service.ts).
use otsem_api.Common.{
  ℕ, ℤ, ◌≡◌, refl, false, ◌⊎◌, inl, inr, Option, none, some, ◌∷◌, arith, find, Option-cases,
}
use otsem_api.Numbers.{Numbers}
use otsem_api.Database.Enums.{ConversionStatus}
use otsem_api.Database.Rows.{Account, Affiliate, Conversion, Transaction, Database}
use otsem_api.Database.Tables.{by, update_where}
use otsem_api.Database.Queries.{set_balance, create_transaction, with_balance}
use otsem_api.Database.Action.{
  Action, Result, ok, err, is_ok, Result-cases, bound_to, stopped_by, ◌>>=◌,
}
use otsem_api.Affiliates.Links.{get_affiliate_for_customer}
use otsem_api.Conversions.Rows.{update_conversion}
use otsem_api.Conversions.Selling.{
  Exchange, Fresh, amounts_of, is_credit_of, closed_at, commission_for_sale, credited, credit_row,
  post_credit, credit_new_sale, credit_balance_to_customer,
}
use otsem_api.Conversions.Commissions.{SameBooks, SameBooks-refl, commission_for_sale-SameBooks}

-- The balance, the conversion and the row, written together.
abbrev pub credited_books : Transaction → (Conversion → Conversion) → ℕ → Database → Database
credited_books t f id db = record db {
  accounts = update_where (by (λ a. a.id) t.account_id) (with_balance t.balance_after) db.accounts;
  conversions = update_where (by (λ c. c.id) id) f db.conversions;
  transactions = t ∷ db.transactions;
}

module _ {N : Numbers} (exchange : Exchange N) where
  post_credit-cases :
      (t : Transaction) (f : Conversion → Conversion) (id : ℕ) (db : Database)
      → (((post_credit exchange t f id db).1 ≡ db)
          × (is_ok (post_credit exchange t f id db).0 ≡ false))
        ⊎ (post_credit exchange t f id db ≡ (ok tt, credited_books t f id db))
  unfolding post_credit set_balance create_transaction update_conversion
  post_credit-cases t f id db = ground arith

  module _ (fresh : Fresh) (c : Conversion) (account : Account) where
    abbrev before : N.Number
    before = N.to_number 2 account.balance

    -- A credit that was not made before throws and leaves the books as they were, or writes them.
    abbrev pub Credits : Database → Result (Unit {0}) × Database → Type 0
    Credits db r =
        (SameBooks db r.1 × (is_ok r.0 ≡ false))
        ⊎ ((p : ℤ) × (d : Database) × (f : Conversion → Conversion) × (c.usdt_purchased ≡ some p)
            × SameBooks db d
            × ((x : Conversion) → ((f x).status ≡ ConversionStatus.completed) × ((f x).id ≡ x.id))
            × (r ≡ (
              ok tt,
              credited_books
                  (credit_row exchange fresh c.id c.account_id
                    (amounts_of exchange c (N.to_number 6 p)) before)
                  f c.id d,
            )))

    -- The commission first, then the books.
    paid_out : (p : ℤ) (affiliate : Option Affiliate) → Action (Unit {0})
    paid_out p affiliate =
        let m = amounts_of exchange c (N.to_number 6 p) in
        commission_for_sale exchange fresh c.customer_id (some c.id) m.brl_exchanged m.spread_brl
          m.exchange_rate affiliate
        >>= λ commission.
            post_credit exchange (credit_row exchange fresh c.id c.account_id m before)
              (credited exchange fresh.now affiliate m commission) c.id

    posted-Credits :
        (p : ℤ) (commission : N.Number) (affiliate : Option Affiliate) (db d : Database)
        → c.usdt_purchased ≡ some p
        → SameBooks db d
        → Credits db (
            post_credit exchange
              (credit_row exchange fresh c.id c.account_id
                (amounts_of exchange c (N.to_number 6 p))
                before)
              (credited exchange fresh.now affiliate
                (amounts_of exchange c (N.to_number 6 p))
                commission)
              c.id
              d)
    posted-Credits p commission affiliate db d e same =
        let m = amounts_of exchange c (N.to_number 6 p) in
        let f = credited exchange fresh.now affiliate m commission in
        elim (post_credit-cases (credit_row exchange fresh c.id c.account_id m before) f c.id d) [
          | inl (kept, threw) ↦ inl (rw kept same, threw)
          | inr went ↦ inr (p, d, f, e, same, (λ x. (refl, refl)), went)
        ]

    paid_out-Credits :
        (p : ℤ) (affiliate : Option Affiliate) (db : Database)
        → c.usdt_purchased ≡ some p
        → Credits db (paid_out p affiliate db)
    unfolding paid_out
    paid_out-Credits p affiliate db e =
        let m = amounts_of exchange c (N.to_number 6 p) in
        let first : Action N.Number =
          commission_for_sale exchange fresh c.customer_id (some c.id) m.brl_exchanged m.spread_brl
            m.exchange_rate affiliate in
        let rest : N.Number → Action (Unit {0}) = λ commission.
          post_credit exchange (credit_row exchange fresh c.id c.account_id m before)
            (credited exchange fresh.now affiliate m commission) c.id in
        let same =
          commission_for_sale-SameBooks exchange fresh c.customer_id (some c.id) m.brl_exchanged
            m.spread_brl m.exchange_rate affiliate db in
        elim (Result-cases (first db).0) [
          | inl (x, h) ↦
              let is : first db ≡ (err x, (first db).1) = ground (arith, h) in
              rw (stopped_by first rest is) (inl (same, refl))
          | inr (commission, h) ↦
              let is : first db ≡ (ok commission, (first db).1) = ground (arith, h) in
              rw (bound_to first rest is)
                (posted-Credits p commission affiliate db (first db).1 e same)
        ]

    credit_new_sale_known :
        (p : ℤ) (db : Database)
        → c.usdt_purchased ≡ some p
        → credit_new_sale exchange fresh c account db
          ≡ paid_out p (get_affiliate_for_customer c.customer_id db) db
    unfolding credit_new_sale paid_out
    credit_new_sale_known p db e = rw e refl

    credit_new_sale_unknown :
        (db : Database)
        → c.usdt_purchased ≡ none
        → ((credit_new_sale exchange fresh c account db).1 ≡ db)
          × (is_ok (credit_new_sale exchange fresh c account db).0 ≡ false)
    unfolding credit_new_sale
    credit_new_sale_unknown db e = rw e (refl, refl)

    credit_new_sale-Credits :
        (db : Database) → Credits db (credit_new_sale exchange fresh c account db)
    credit_new_sale-Credits db = elim (Option-cases c.usdt_purchased) [
      | inl e ↦
          let (kept, threw) = credit_new_sale_unknown db e in
          inl (rw kept (SameBooks-refl db), threw)
      | inr (p, e) ↦
          rw (credit_new_sale_known p db e)
            (paid_out-Credits p (get_affiliate_for_customer c.customer_id db) db e)
    ]

    -- A credit that is in the log is not made again: only the conversion is closed.
    pub credit_again :
        (db : Database) (t : Transaction)
        → find (is_credit_of c.id c.account_id) db.transactions ≡ some t
        → ((credit_balance_to_customer exchange fresh c account db).1 ≡ db)
          ⊎ ((credit_balance_to_customer exchange fresh c account db).1 ≡ record db {
            conversions = update_where (by (λ c. c.id) c.id) (closed_at fresh.now) db.conversions;
          })
    unfolding credit_balance_to_customer update_conversion
    credit_again db t e = ground (arith, e)

    pub credit_first :
        (db : Database)
        → find (is_credit_of c.id c.account_id) db.transactions ≡ none
        → credit_balance_to_customer exchange fresh c account db
          ≡ credit_new_sale exchange fresh c account db
    unfolding credit_balance_to_customer
    credit_first db e = ground (arith, e)

    pub credit_first-Credits :
        (db : Database)
        → find (is_credit_of c.id c.account_id) db.transactions ≡ none
        → Credits db (credit_balance_to_customer exchange fresh c account db)
    credit_first-Credits db e = rw (credit_first db e) (credit_new_sale-Credits db)
