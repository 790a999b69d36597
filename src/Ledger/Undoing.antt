-- ===== src/Ledger/Undoing.antt =====
-- What `reverseTransaction` of src/transactions/transactions.service.ts does to balances and rows.
use otsem_api.Common.{
  ℕ, String, Bool, true, false, ◌≡◌, refl, ap, ◌∙◌, sym, subst, Option, some, List, [], ◌∷◌, arith,
  ◌==◌, ◌+ℤ◌, ◌-ℤ◌, if◌then◌else◌, any, find, ==_refl, Bool-cases, inl, inr,
}
use mathlib.Core.Option
use otsem_api.Database.Enums.{TransactionType, TransactionStatus, type_is, status_is}
use otsem_api.Database.Rows.{Account, Transaction, Database}
use otsem_api.Database.Action.{ok, err, bad_request, unique_violation}
use otsem_api.Database.Tables.{find-update_where}
use otsem_api.Database.Queries.{
  account_by_id, transaction_by_id, transaction_clash, option_is, create_transaction, with_balance,
}
use otsem_api.Ledger.Audit.{added}
use otsem_api.Ledger.Posting.{
  posted, balance_at, balance_or_zero, balance_at-posted_self, account_by_id-posted,
}
use otsem_api.Ledger.Reversals.{reverse_transaction, reversal_row, with_status}
use otsem_api.Ledger.Effects.Reversals.{Reverses, rewritten, reverse_transaction-Reverses}

any_mono :
    (p q : Transaction → Bool) (xs : List Transaction)
    → ((x : Transaction) → p x ≡ true → q x ≡ true)
    → any p xs ≡ true
    → any q xs ≡ true
unfolding any
any_mono p q [] h e = e
any_mono p q (x ∷ xs) h e = ground (arith, h x, any_mono p q xs h)

referenced_clash :
    (t : Transaction) (k : ℕ)
    → t.related_tx_id ≡ some k
    → (u : Transaction) → option_is u.related_tx_id k ≡ true
    → transaction_clash t u ≡ true
unfolding transaction_clash
referenced_clash t k e u h = ground arith

-- A transaction that another row refers to cannot be reversed: `relatedTxId` is unique, so the
-- call raises the violation and writes nothing. The rows that are referred to are the debits of
-- the transfers, and originals that were reversed.
pub reverse_transaction_referenced :
    (id now transaction_id : ℕ) (reason : Option String) (db : Database) {o : Transaction}
    {a : Account}
    → transaction_by_id transaction_id db ≡ some o
    → account_by_id o.account_id db ≡ some a
    → status_is o.status TransactionStatus.reversed ≡ false
    → any (λ u. option_is u.related_tx_id o.id) db.transactions ≡ true
    → reverse_transaction id now transaction_id reason db ≡ (err unique_violation, db)
unfolding reverse_transaction create_transaction
reverse_transaction_referenced id now k reason db {o} {a} ho ha live referenced =
    let t = reversal_row id now o a reason in
    ground (
      arith,
      any_mono _ (transaction_clash t) db.transactions (referenced_clash t o.id refl) referenced,
    )

reversal_after :
    (was_pix_in : Bool) (t : Transaction)
    → t.kind ≡ (if was_pix_in then TransactionType.pix_out else TransactionType.pix_in)
    → t.balance_after ≡ added t.kind t.balance_before t.amount
    → t.balance_after
      ≡ (if was_pix_in then t.balance_before -ℤ t.amount else t.balance_before +ℤ t.amount)
unfolding added
reversal_after true t k e = rw k at e
reversal_after false t k e = rw k at e

-- Marking a row of the log leaves the balances.
unmarked :
    (k : ℕ) (t : Transaction) (db : Database)
    → balance_at t.account_id (rewritten k (with_status TransactionStatus.reversed) (posted t db))
      ≡ balance_at t.account_id (posted t db)
unfolding account_by_id
unmarked k t db = refl

-- A reversal that answers subtracts the amount from the account of a PIX_IN, and adds it to the
-- account of a transaction of any other type, a credit such as TRANSFER_IN or DEPOSIT included.
pub reverse_transaction-balance :
    (id now transaction_id : ℕ) (reason : Option String) (db : Database) {db' : Database}
    {o t : Transaction} {a : Account}
    → transaction_by_id transaction_id db ≡ some o
    → account_by_id o.account_id db ≡ some a
    → reverse_transaction id now transaction_id reason db ≡ (ok t, db')
    → balance_at o.account_id db' ≡ (
        if type_is o.kind TransactionType.pix_in
        then a.balance -ℤ o.amount
        else a.balance +ℤ o.amount)
reverse_transaction-balance id now k reason db {db'} {o} {t} {a} ho ha e =
    let (_, account, same, kind, _, f, p) =
      subst (Reverses db k o) e (reverse_transaction-Reverses id now k reason db ho ha) in
    let before : t.balance_before ≡ a.balance =
      f.before
      ∙ ap balance_or_zero {x = account_by_id t.account_id db} {y = some a} (rw account ha) in
    rw (p, ← account, unmarked k t db, balance_at-posted_self t f, ← before, ← same)
      (reversal_after (type_is o.kind TransactionType.pix_in) t kind f.adds)

marked_lookup :
    (k : ℕ) (t : Transaction) (db : Database)
    → transaction_by_id k (rewritten k (with_status TransactionStatus.reversed) (posted t db))
      ≡ Option.map
          (with_status TransactionStatus.reversed)
          (if t.id == k then some t else transaction_by_id k db)
unfolding transaction_by_id find
marked_lookup k t db =
    find-update_where (λ u. u.id) (with_status TransactionStatus.reversed) (λ _. refl) k k
      (t ∷ db.transactions)
    ∙ (rw (==_refl k) refl)

-- The row that the id of a reversed transaction finds is marked, and its account is the same.
reversed_found :
    (transaction_id : ℕ) (db : Database) (o t : Transaction)
    → transaction_by_id transaction_id db ≡ some o
    → t.account_id ≡ o.account_id
    → (u : Transaction) × (transaction_by_id transaction_id
          (rewritten transaction_id (with_status TransactionStatus.reversed) (posted t db))
        ≡ some (with_status TransactionStatus.reversed u))
      × (u.account_id ≡ o.account_id)
reversed_found k db o t ho e = elim (Bool-cases (t.id == k)) [
  | inl same ↦ (t, rw (marked_lookup k t db, same) refl, e)
  | inr other ↦ (o, rw (marked_lookup k t db, other, ho) refl, refl)
]

account_by_id-rewritten :
    (k : ℕ) (t : Transaction) (db : Database) (id : ℕ)
    → account_by_id id (rewritten k (with_status TransactionStatus.reversed) (posted t db))
      ≡ account_by_id id (posted t db)
unfolding account_by_id
account_by_id-rewritten k t db id = refl

account_kept :
    (k : ℕ) (t : Transaction) (db : Database) {id : ℕ} {a : Account}
    → t.account_id ≡ id
    → account_by_id id db ≡ some a
    → account_by_id id (rewritten k (with_status TransactionStatus.reversed) (posted t db))
      ≡ some (with_balance t.balance_after a)
account_kept k t db {id} e ha =
    account_by_id-rewritten k t db id ∙ account_by_id-posted t db id ∙ (rw (e, ==_refl id, ha) refl)

already_reversed :
    (id now transaction_id : ℕ) (reason : Option String) (db : Database) (u : Transaction)
    {a : Account}
    → transaction_by_id transaction_id db ≡ some (with_status TransactionStatus.reversed u)
    → account_by_id u.account_id db ≡ some a
    → reverse_transaction id now transaction_id reason db
      ≡ (err (bad_request "Transação já foi revertida"), db)
unfolding reverse_transaction status_is
already_reversed id now k reason db u hu ha = ground arith

-- Once a reversal has answered, reversing the same transaction again raises "já foi revertida" and
-- writes nothing.
pub reverse_transaction_once :
    (id now id' now' transaction_id : ℕ) (reason reason' : Option String) (db : Database)
    {db' : Database} {o t : Transaction} {a : Account}
    → transaction_by_id transaction_id db ≡ some o
    → account_by_id o.account_id db ≡ some a
    → reverse_transaction id now transaction_id reason db ≡ (ok t, db')
    → reverse_transaction id' now' transaction_id reason' db'
      ≡ (err (bad_request "Transação já foi revertida"), db')
reverse_transaction_once id now id' now' k reason reason' db {db'} {o} {t} {a} ho ha e =
    let (_, account, _, _, _, f, p) =
      subst (Reverses db k o) e (reverse_transaction-Reverses id now k reason db ho ha) in
    let (u, found, same) = reversed_found k db o t ho account in
    let mine : account_by_id u.account_id db ≡ some a = rw same ha in
    rw p (
      already_reversed id' now' k reason' _ u found (account_kept k t db (account ∙ sym same) mine))
