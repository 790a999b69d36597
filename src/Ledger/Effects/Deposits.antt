-- ===== src/Ledger/Effects/Deposits.antt =====
-- Deposits and withdrawals as posts.
use otsem_api.Common.{ℕ, ℤ, String, ◌≡◌, ◌⊎◌, Option, none, some, [], ◌∷◌, arith, false, ◌≤ℤ◌}
use otsem_api.Database.Enums.{TransactionType}
use otsem_api.Ledger.Amounts.{booked, IsClear, booked_sum, booked_difference, booked_covered}
use otsem_api.Ledger.Rows.{available_balance, is_inactive}
use otsem_api.Database.Rows.{Account, Transaction, Database}
use otsem_api.Database.Action.{Result, ok, err}
use otsem_api.Database.Queries.{
  account_by_pix_key, account_by_customer, transaction_by_external_id, create_transaction,
  set_balance,
}
use otsem_api.Ledger.Audit.{added}
use otsem_api.Ledger.Posting.{Posts, IsConsistent}
use otsem_api.Ledger.Deposits.{process_pix_deposit, process_pix_withdraw}
use otsem_api.Ledger.Effects.Found.{found_by_pix_key, found_by_customer}

-- A deposit raises and writes nothing, returns the row that has its external id and writes
-- nothing, or posts one credit of the amount to the account, which is active.
abbrev pub Deposits : Database → Account → ℤ → String → Result Transaction × Database → Type 0
Deposits db a amount e (err _, db') = db' ≡ db
Deposits db a amount e (ok t, db') =
    ((transaction_by_external_id e db ≡ some t) × (db' ≡ db))
    ⊎ ((transaction_by_external_id e db ≡ none)
        × (t.external_id ≡ some e)
        × (t.account_id ≡ a.id)
        × (t.kind ≡ TransactionType.pix_in)
        × (t.amount ≡ amount)
        × (is_inactive a ≡ false)
        × Posts db (t ∷ []) db')

module _ (id now : ℕ) (pix_key : String) (amount : ℤ) (payer_name : Option String)
    (external_id : String) where
  pub process_pix_deposit-Deposits :
      {db : Database} {a : Account}
      → IsConsistent db
      → account_by_pix_key pix_key db ≡ some a
      → IsClear amount
      → Deposits db a
          (booked amount)
          external_id
          (process_pix_deposit id now pix_key amount payer_name external_id db)
  unfolding process_pix_deposit create_transaction set_balance added
  process_pix_deposit-Deposits {a = a} c found clear =
      ground (arith, found_by_pix_key c pix_key found, booked_sum a.balance amount clear)

  pub process_pix_deposit_unknown :
      (db : Database)
      → account_by_pix_key pix_key db ≡ none
      → (process_pix_deposit id now pix_key amount payer_name external_id db).1 ≡ db
  unfolding process_pix_deposit
  process_pix_deposit_unknown db missing = ground arith

  -- A deposit whose external id is in the log writes nothing.
  pub process_pix_deposit_known :
      (db : Database) {t : Transaction}
      → transaction_by_external_id external_id db ≡ some t
      → (process_pix_deposit id now pix_key amount payer_name external_id db).1 ≡ db
  unfolding process_pix_deposit
  process_pix_deposit_known db known = ground arith

-- A withdrawal from an account raises and writes nothing, or posts one debit of the amount; then
-- the account is active and its available balance covers the amount.
abbrev pub Withdraws : Database → Account → ℤ → Result Transaction × Database → Type 0
Withdraws db a amount (err _, db') = db' ≡ db
Withdraws db a amount (ok t, db') =
    (t.account_id ≡ a.id)
    × (t.kind ≡ TransactionType.pix_out)
    × (t.amount ≡ amount)
    × (is_inactive a ≡ false)
    × (amount ≤ℤ available_balance a)
    × Posts db (t ∷ []) db'

pub process_pix_withdraw-Withdraws :
    (id now customer_id : ℕ) (amount : ℤ) (destination : String) (description : Option String)
    {db : Database} {a : Account}
    → IsConsistent db
    → account_by_customer customer_id db ≡ some a
    → IsClear amount
    → Withdraws db a
        (booked amount)
        (process_pix_withdraw id now customer_id amount destination description db)
unfolding process_pix_withdraw create_transaction set_balance added
process_pix_withdraw-Withdraws id now customer_id amount destination description {a = a} c found
      clear =
    ground (
      arith,
      found_by_customer c customer_id found,
      booked_difference a.balance amount clear,
      booked_covered (available_balance a) amount,
    )

pub process_pix_withdraw_unknown :
    (id now customer_id : ℕ) (amount : ℤ) (destination : String) (description : Option String)
    (db : Database)
    → account_by_customer customer_id db ≡ none
    → (process_pix_withdraw id now customer_id amount destination description db).1 ≡ db
unfolding process_pix_withdraw
process_pix_withdraw_unknown id now customer_id amount destination description db missing =
    ground arith
