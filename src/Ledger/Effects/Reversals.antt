-- ===== src/Ledger/Effects/Reversals.antt =====
-- Reversals, adjustments and status updates as posts.
use otsem_api.Common.{ℕ, ℤ, String, ◌≡◌, Option, none, some, [], ◌∷◌, arith, false, if◌then◌else◌}
use otsem_api.Database.Enums.{TransactionType, TransactionStatus, status_is, type_is}
use otsem_api.Database.Rows.{Account, Transaction, Database}
use otsem_api.Database.Tables.{by, update_where}
use otsem_api.Database.Action.{Result, ok, err}
use otsem_api.Database.Queries.{
  account_by_id, account_by_customer, transaction_by_id, create_transaction, set_balance,
}
use otsem_api.Ledger.Amounts.{booked, IsClear, booked_sum, booked_difference}
use otsem_api.Ledger.Rows.{is_inactive}
use otsem_api.Ledger.Audit.{added}
use otsem_api.Ledger.Posting.{Fits, Posts, IsConsistent, posted}
use otsem_api.Ledger.Reversals.{reverse_transaction, with_status, update_status, status_update}
use otsem_api.Ledger.Accounts.{AdjustmentType, adjust_balance}
use otsem_api.Ledger.Effects.Found.{found_by_customer}

-- Writing a transaction, wherever the columns of the log are kept.
abbrev pub rewritten : ℕ → (Transaction → Transaction) → Database → Database
rewritten id f db = record db { transactions = update_where (by (λ t. t.id) id) f db.transactions }

-- A reversal raises and writes nothing, or posts one row of the amount to the account of the
-- original, against a PIX_IN and for any other type, and marks the original.
abbrev pub Reverses : Database → ℕ → Transaction → Result Transaction × Database → Type 0
Reverses db id o (err _, db') = db' ≡ db
Reverses db id o (ok t, db') =
    (status_is o.status TransactionStatus.reversed ≡ false)
    × (t.account_id ≡ o.account_id)
    × (t.amount ≡ o.amount)
    × (t.kind ≡ (
        if type_is o.kind TransactionType.pix_in
        then TransactionType.pix_out
        else TransactionType.pix_in))
    × (t.related_tx_id ≡ some o.id)
    × Fits db t
    × (db' ≡ rewritten id (with_status TransactionStatus.reversed) (posted t db))

pub reverse_transaction-Reverses :
    (id now transaction_id : ℕ) (reason : Option String) (db : Database) {o : Transaction}
    {a : Account}
    → transaction_by_id transaction_id db ≡ some o
    → account_by_id o.account_id db ≡ some a
    → Reverses db transaction_id o (reverse_transaction id now transaction_id reason db)
unfolding reverse_transaction create_transaction set_balance added transaction_by_id
reverse_transaction-Reverses id now transaction_id reason db ho ha = ground arith

-- An adjustment raises and writes nothing, or posts one row; then the account is active.
abbrev pub Adjusts : Database → Account → ℤ → Result (Transaction × ℤ) × Database → Type 0
Adjusts db a amount (err _, db') = db' ≡ db
Adjusts db a amount (ok (t, b), db') =
    (t.account_id ≡ a.id) × (t.amount ≡ amount) × (is_inactive a ≡ false) × Posts db (t ∷ []) db'

pub adjust_balance-Adjusts :
    (id now customer_id : ℕ) (kind : AdjustmentType) (amount : ℤ) (reason : String) {db : Database}
    {a : Account}
    → IsConsistent db
    → account_by_customer customer_id db ≡ some a
    → IsClear amount
    → Adjusts db a (booked amount) (adjust_balance id now customer_id kind amount reason db)
unfolding adjust_balance create_transaction set_balance added
adjust_balance-Adjusts id now customer_id AdjustmentType.credit amount reason {a = a} c found
      clear =
    ground (arith, found_by_customer c customer_id found, booked_sum a.balance amount clear)
adjust_balance-Adjusts id now customer_id AdjustmentType.debit amount reason {a = a} c found clear =
    ground (arith, found_by_customer c customer_id found, booked_difference a.balance amount clear)

-- A status update raises and writes nothing, or writes one row of the log.
abbrev pub Updates :
    Database → ℕ → (Transaction → Transaction) → Result Transaction × Database → Type 0
Updates db id f (err _, db') = db' ≡ db
Updates db id f (ok t, db') = db' ≡ rewritten id f db

pub update_status-Updates :
    (now id : ℕ) (status : TransactionStatus) (external_id : Option String) (db : Database)
    → Updates db id
        (status_update status external_id now)
        (update_status now id status external_id db)
unfolding update_status
update_status-Updates now id status external_id db = ground arith

-- Where a row is not found nothing is written.
module _ (id now : ℕ) (db : Database) where
  pub reverse_transaction_unknown :
      (transaction_id : ℕ) (reason : Option String)
      → transaction_by_id transaction_id db ≡ none
      → (reverse_transaction id now transaction_id reason db).1 ≡ db
  unfolding reverse_transaction
  reverse_transaction_unknown transaction_id reason missing = ground arith

  pub reverse_transaction_orphan :
      (transaction_id : ℕ) (reason : Option String) {o : Transaction}
      → transaction_by_id transaction_id db ≡ some o
      → account_by_id o.account_id db ≡ none
      → (reverse_transaction id now transaction_id reason db).1 ≡ db
  unfolding reverse_transaction
  reverse_transaction_orphan transaction_id reason found missing = ground arith

  pub adjust_balance_unknown :
      (customer_id : ℕ) (kind : AdjustmentType) (amount : ℤ) (reason : String)
      → account_by_customer customer_id db ≡ none
      → (adjust_balance id now customer_id kind amount reason db).1 ≡ db
  unfolding adjust_balance
  adjust_balance_unknown customer_id kind amount reason missing = ground arith
