-- ===== src/Kyc/Usage.antt =====
-- What src/customers/kyc-limits.service.ts counts of the ledger of
-- src/transactions/transactions.service.ts.
use otsem_api.Common.{
  ℕ, ℤ, String, Bool, true, ◌≡◌, refl, sym, ap, ◌∙◌, Option, none, some, List, ◌∷◌, arith, select,
  if◌then◌else◌, Option-cases, ◌⊎◌, inl, inr,
}
use mathlib.Core.Option
use otsem_api.Numbers.{Numbers}
use otsem_api.Database.Enums.{TransactionStatus, status_is}
use otsem_api.Database.Rows.{Customer, Account, Transaction, Database}
use otsem_api.Database.Tables.{by, find-update_where_any}
use otsem_api.Database.Action.{Result-cases, Result, ok, err, bad_request}
use otsem_api.Database.Queries.{
  customer_by_id, account_by_customer, create_transaction, set_balance, with_balance,
}
use otsem_api.Ledger.Posting.{posted}
use otsem_api.Ledger.Deposits.{process_pix_withdraw}
use otsem_api.Kyc.Limits.{
  Month, conversions_total, pix_out_total, id_of, used_this_month, config_by, get_monthly_limit,
  get_monthly_usage, validate_transaction_limit, verdict, limit_or_zero, usage,
}

id_of-written :
    (a : Account → Bool) (b : ℤ) (o : Option Account)
    → id_of (Option.map (λ x. if a x then with_balance b x else x) o) ≡ id_of o
id_of-written a b none = refl
id_of-written a b (some x) = ground arith

-- A post leaves the account of a customer in place.
account_id-posted :
    (t : Transaction) (u : ℕ) (db : Database)
    → id_of (account_by_customer u (posted t db)) ≡ id_of (account_by_customer u db)
unfolding account_by_customer
account_id-posted t u db =
    ap id_of (
      find-update_where_any (λ a. a.customer_id) (by (λ a. a.id) t.account_id)
        (with_balance t.balance_after) (λ a. refl) u db.accounts)
    ∙ id_of-written (by (λ a. a.id) t.account_id) t.balance_after _

pix_out_total-pending :
    (m : Month) (o : Option ℕ) (t : Transaction) (rows : List Transaction)
    → t.status ≡ TransactionStatus.processing
    → pix_out_total m o (t ∷ rows) ≡ pix_out_total m o rows
unfolding pix_out_total select status_is
pix_out_total-pending m none t rows s = refl
pix_out_total-pending m (some k) t rows s = ground arith

module _ (N : Numbers) (m : Month) (u : ℕ) where
  used-posted :
      (t : Transaction) (db : Database)
      → t.status ≡ TransactionStatus.processing
      → used_this_month N m u (posted t db) ≡ used_this_month N m u db
  unfolding used_this_month
  used-posted t db s =
      ap (λ x. N.plus (N.to_number 2 (conversions_total m u db.conversions)) (N.to_number 2 x))
        (ap (λ o. pix_out_total m o (t ∷ db.transactions)) (account_id-posted t u db)
          ∙ pix_out_total-pending m (id_of (account_by_customer u db)) t db.transactions s)

  abbrev answer : N.Number → Customer → ℤ → N.Number → Result (Bool × Option String)
  answer amount c limit used =
      ok (verdict N c.kyc_level (usage N c limit used u).available_this_month amount)

  answered :
      (amount : N.Number) (db : Database) (c : Customer)
      → customer_by_id u db ≡ some c
      → (validate_transaction_limit N m u amount db).0
        ≡ answer amount c
            (limit_or_zero (config_by c.kyc_level c.kind db))
            (used_this_month N m u db)
  unfolding validate_transaction_limit get_monthly_usage get_monthly_limit
  answered amount db c e = ground arith

  unanswered :
      (amount : N.Number) (db : Database)
      → customer_by_id u db ≡ none
      → (validate_transaction_limit N m u amount db).0 ≡ err (bad_request "Cliente não encontrado")
  unfolding validate_transaction_limit get_monthly_usage
  unanswered amount db e = ground arith

  -- A customer whose type and level have no config may move any amount.
  pub validate_unconfigured :
      (amount : N.Number) (db : Database) {c : Customer}
      → customer_by_id u db ≡ some c
      → config_by c.kyc_level c.kind db ≡ none
      → (validate_transaction_limit N m u amount db).0 ≡ ok (true, none)
  validate_unconfigured amount db {c} e missing =
      answered amount db c e
      ∙ ap (λ o. answer amount c (limit_or_zero o) (used_this_month N m u db)) missing

  validate-posted :
      (amount : N.Number) (t : Transaction) (db : Database)
      → t.status ≡ TransactionStatus.processing
      → (validate_transaction_limit N m u amount (posted t db)).0
        ≡ (validate_transaction_limit N m u amount db).0
  unfolding customer_by_id config_by
  validate-posted amount t db s = elim (Option-cases (customer_by_id u db)) [
    | inl e ↦ unanswered amount (posted t db) e ∙ sym (unanswered amount db e)
    | inr (c, e) ↦
        answered amount (posted t db) c e
        ∙ ap (answer amount c (limit_or_zero (config_by c.kyc_level c.kind db)))
            (used-posted t db s)
        ∙ sym (answered amount db c e)
  ]

-- A withdrawal posts one row that is in PROCESSING, or writes nothing.
withdrawn-cases :
    (id now customer_id : ℕ) (amount : ℤ) (destination : String) (description : Option String)
    (db : Database)
    → ((process_pix_withdraw id now customer_id amount destination description db).1 ≡ db)
      ⊎ ((t : Transaction) × (t.status ≡ TransactionStatus.processing)
          × ((process_pix_withdraw id now customer_id amount destination description db).1
              ≡ posted t db))
unfolding process_pix_withdraw create_transaction set_balance
withdrawn-cases id now u n k d db = elim (Option-cases (account_by_customer u db)) [
  | inl e ↦ inl (ground (arith, e))
  | inr (a, e) ↦ elim (Result-cases (process_pix_withdraw id now u n k d db).0) [
    | inl (x, threw) ↦ inl (ground (arith, e, threw))
    | inr (t, went) ↦ inr (t, ground (arith, e, went), ground (arith, e, went))
  ]
]

module _ (N : Numbers) (m : Month) where
  -- A withdrawal, which starts in PROCESSING, does not count toward the monthly limit: the check
  -- answers any customer and amount after it as before.
  pub validate-process_pix_withdraw :
      (id now customer_id : ℕ) (n : ℤ) (destination : String) (description : Option String) (u : ℕ)
      (amount : N.Number) (db : Database)
      → (validate_transaction_limit N m u amount
          (process_pix_withdraw id now customer_id n destination description db).1).0
        ≡ (validate_transaction_limit N m u amount db).0
  validate-process_pix_withdraw id now customer n k d u amount db =
      elim (withdrawn-cases id now customer n k d db) [
        | inl e ↦ ap (λ x. (validate_transaction_limit N m u amount x).0) e
        | inr (t, s, e) ↦
            ap (λ x. (validate_transaction_limit N m u amount x).0) e
            ∙ validate-posted N m u amount t db s
      ]
