-- ===== src/Conversions/Stages.antt =====
-- What each of the runs of a sale does on its way to the credit
-- (src/wallet/sell-processing.service.ts).
use otsem_api.Common.{
  ℕ, ℤ, ◌≡◌, refl, ap, ◌∙◌, true, false, none, some, List, [], ◌∷◌, arith, ==_refl, find, any,
}
use otsem_api.Numbers.{Numbers}
use otsem_api.Database.Enums.{ConversionStatus, conversion_status_is}
use otsem_api.Database.Rows.{Account, Conversion, Transaction, Database}
use otsem_api.Database.Tables.{by, update_where, find-update_where}
use otsem_api.Database.Queries.{
  account_by_id, customer_by_id, set_balance, create_transaction, with_balance, transaction_clash,
}
use otsem_api.Database.Action.{ok}
use otsem_api.Affiliates.Commissions.{affiliate_by_id}
use otsem_api.Affiliates.Links.{get_affiliate_for_customer}
use otsem_api.Conversions.Rows.{conversion_by_id, update_conversion, id_text}
use otsem_api.Conversions.Deposits.{Deposit, matching_deposit, check_deposit_confirmation, received}
use otsem_api.Conversions.Selling.{
  Exchange, Fresh, Sold, sold, amounts_of, is_credit_of, commission_for_sale, credited, credit_row,
  post_credit, credit_new_sale, sell_usdt_for_brl, process_conversion, manual_process_conversion,
}
use otsem_api.Conversions.Crediting.{credited_books, credit_first}
use otsem_api.Conversions.Once.{process_sold}

abbrev pub with_conversion : ℕ → (Conversion → Conversion) → Database → Database
with_conversion id f db = record db {
  conversions = update_where (by (λ c. c.id) id) f db.conversions;
}

pub conversion_by_id-with_conversion :
    (id : ℕ) (f : Conversion → Conversion) (db : Database) (c : Conversion)
    → ((x : Conversion) → (f x).id ≡ x.id)
    → conversion_by_id id db ≡ some c
    → conversion_by_id id (with_conversion id f db) ≡ some (f c)
unfolding conversion_by_id
conversion_by_id-with_conversion id f db c keep e =
    find-update_where (λ c. c.id) f keep id id db.conversions ∙ rw (==_refl id, e) refl

pub affiliate-with_conversion :
    (customer_id id : ℕ) (f : Conversion → Conversion) (db : Database)
    → get_affiliate_for_customer customer_id (with_conversion id f db)
      ≡ get_affiliate_for_customer customer_id db
unfolding get_affiliate_for_customer customer_by_id affiliate_by_id
affiliate-with_conversion customer_id id f db = ground arith

-- A row that clashes with none is no credit yet.
credit_clashes :
    (id account_id : ℕ) (t u : Transaction)
    → t.external_id ≡ some (id_text id)
    → is_credit_of id account_id u ≡ true
    → transaction_clash t u ≡ true
unfolding is_credit_of transaction_clash
credit_clashes id account_id t u e h = ground (arith, e, h)

no_credit :
    (id account_id : ℕ) (t : Transaction) (us : List Transaction)
    → t.external_id ≡ some (id_text id)
    → any (transaction_clash t) us ≡ false
    → find (is_credit_of id account_id) us ≡ none
unfolding find any
no_credit id account_id t [] e h = refl
no_credit id account_id t (u ∷ us) e h =
    ground (arith, credit_clashes id account_id t u e, no_credit id account_id t us e)

module _ {N : Numbers} (exchange : Exchange N) where
  open N use {to_number, to_column}

  pub run_known :
      (fresh : Fresh) (id : ℕ) (c : Conversion) (a : Account) (deposits : List (Deposit N))
      (db : Database)
      → conversion_by_id id db ≡ some c
      → account_by_id c.account_id db ≡ some a
      → exchange.recent_deposits ≡ ok deposits
      → (manual_process_conversion exchange fresh id db).1
        ≡ (process_conversion exchange fresh c a deposits db).1
  unfolding manual_process_conversion
  run_known fresh id c a deposits db e k r = ground (arith, e, k, r)

  pub process_pending :
      (fresh : Fresh) (c : Conversion) (a : Account) (deposits : List (Deposit N)) (dep : Deposit N)
      (db : Database)
      → c.status ≡ ConversionStatus.pending
      → conversion_by_id c.id db ≡ some c
      → matching_deposit N c deposits ≡ ok (some dep)
      → (process_conversion exchange fresh c a deposits db).1
        ≡ with_conversion c.id (received N dep) db
  unfolding process_conversion check_deposit_confirmation update_conversion conversion_status_is
  process_pending fresh c a deposits dep db s e m =
      let is_pending : conversion_status_is c.status ConversionStatus.pending ≡ true = rw s refl in
      ground (arith, is_pending, e, m)

  pub process_received :
      (fresh : Fresh) (c : Conversion) (a : Account) (deposits : List (Deposit N)) (p : ℤ)
      (s : Sold N) (db : Database)
      → c.status ≡ ConversionStatus.usdt_received
      → c.usdt_purchased ≡ some p
      → conversion_by_id c.id db ≡ some c
      → exchange.transfer_usdt_to_trading (to_number 6 p) ≡ ok tt
      → exchange.sell_usdt_for_brl (to_number 6 p) ≡ ok s
      → (process_conversion exchange fresh c a deposits db).1
        ≡ with_conversion c.id (sold exchange (to_number 6 p) s) db
  unfolding process_conversion sell_usdt_for_brl update_conversion conversion_status_is
  process_received fresh c a deposits p s db st u e t h =
      let not_pending : conversion_status_is c.status ConversionStatus.pending ≡ false =
        rw st refl in
      let is_received : conversion_status_is c.status ConversionStatus.usdt_received ≡ true =
        rw st refl in
      ground (arith, not_pending, is_received, u, e, t, h)

  post_done :
      (t : Transaction) (f : Conversion → Conversion) (id : ℕ) (db : Database) (a : Account)
      (c : Conversion)
      → account_by_id t.account_id db ≡ some a
      → conversion_by_id id db ≡ some c
      → any (transaction_clash t) db.transactions ≡ false
      → post_credit exchange t f id db ≡ (ok tt, credited_books t f id db)
  unfolding post_credit set_balance create_transaction update_conversion account_by_id
      conversion_by_id
  post_done t f id db a c k e free =
      let kept : find (by (λ a. a.id) t.account_id)
            (update_where (by (λ a. a.id) t.account_id) (with_balance t.balance_after) db.accounts)
          ≡ some (with_balance t.balance_after a) =
        find-update_where (λ a. a.id) (with_balance t.balance_after) (λ a. refl) t.account_id
          t.account_id db.accounts
        ∙ rw (==_refl t.account_id, k) refl in
      ground (arith, k, e, free, kept)

  new_sale_plain :
      (fresh : Fresh) (c : Conversion) (a : Account) (p : ℤ) (db : Database)
      → c.usdt_purchased ≡ some p
      → get_affiliate_for_customer c.customer_id db ≡ none
      → credit_new_sale exchange fresh c a db
        ≡ post_credit exchange
            (credit_row exchange fresh c.id c.account_id
              (amounts_of exchange c (to_number 6 p))
              (to_number 2 a.balance))
            (credited exchange fresh.now none
              (amounts_of exchange c (to_number 6 p))
              (N.literal 0 0))
            c.id
            db
  unfolding credit_new_sale commission_for_sale
  new_sale_plain fresh c a p db u af = ground (arith, u, af)

  -- A credit without an affiliate writes the books.
  pub process_credited :
      (fresh : Fresh) (c : Conversion) (a : Account) (deposits : List (Deposit N)) (p : ℤ)
      (db : Database)
      → c.status ≡ ConversionStatus.usdt_sold
      → c.usdt_purchased ≡ some p
      → conversion_by_id c.id db ≡ some c
      → account_by_id c.account_id db ≡ some a
      → get_affiliate_for_customer c.customer_id db ≡ none
      → any
          (transaction_clash (
            credit_row exchange fresh c.id c.account_id
              (amounts_of exchange c (to_number 6 p))
              (to_number 2 a.balance)))
          db.transactions
        ≡ false
      → (process_conversion exchange fresh c a deposits db).1
        ≡ credited_books
            (credit_row exchange fresh c.id c.account_id
              (amounts_of exchange c (to_number 6 p))
              (to_number 2 a.balance))
            (credited exchange fresh.now none
              (amounts_of exchange c (to_number 6 p))
              (N.literal 0 0))
            c.id
            db
  process_credited fresh c a deposits p db s u e k af free =
      let t =
        credit_row exchange fresh c.id c.account_id (amounts_of exchange c (to_number 6 p))
          (to_number 2 a.balance) in
      let f =
        credited exchange fresh.now none (amounts_of exchange c (to_number 6 p)) (N.literal 0 0) in
      ap (λ r. r.1)
        (process_sold exchange fresh c a deposits db s
          ∙ credit_first exchange fresh c a db
              (no_credit c.id c.account_id t db.transactions refl free)
          ∙ new_sale_plain fresh c a p db u af
          ∙ post_done t f c.id db a c k e free)
