-- ===== src/Ledger/Reversals.antt =====
-- `updateStatus` and `reverseTransaction` of src/transactions/transactions.service.ts. The JSON
-- column `externalData` is left out.
use otsem_api.Common.{
  ℕ, ℤ, String, not, ◌&&◌, Option, none, some, [], ◌∷◌, ◌==◌, ◌+ℤ◌, ◌-ℤ◌, or_text, template,
  if◌then◌else◌, any, str_eq,
}
use otsem_api.Database.Enums.{TransactionType, TransactionStatus, type_is, status_is}
use otsem_api.Database.Rows.{Account, Transaction}
use otsem_api.Database.Tables.{by, update_where}
use otsem_api.Database.Action.{
  Action, bad_request, record_missing, unique_violation, foreign_key, pure, transaction, gets,
  or_throw, throw_if, modify, ◌>>=◌, ◌>>◌,
}
use otsem_api.Database.Queries.{
  account_by_id, transaction_by_id, create_transaction, set_balance, text_clash,
}
use otsem_api.Ledger.Rows.{row}
use otsem_api.Ledger.Transfers.{text_of}

-- `transaction.update({ where: { id }, data })`
unfoldable pub update_transaction : ℕ → (Transaction → Transaction) → Action Transaction
update_transaction id f = do
  t ← or_throw (← gets (transaction_by_id id)) record_missing
  modify λ db. record db { transactions = update_where (by (λ u. u.id) id) f db.transactions }
  pure (f t)

-- `...(externalId && { externalId })`
abbrev pub external_id_update : Option String → Transaction → Option String
external_id_update none t = t.external_id
external_id_update (some s) t = if str_eq s "" then t.external_id else some s

abbrev pub status_update : TransactionStatus → Option String → ℕ → Transaction → Transaction
status_update status external_id now t = record t {
  status = status;
  external_id = external_id_update external_id t;
  completed_at = if status_is status TransactionStatus.completed then some now else t.completed_at;
}

unfoldable pub update_status :
    (now : ℕ) → ℕ → TransactionStatus → Option String → Action Transaction
unfolding update_transaction
update_status now id status external_id = do
  t ← or_throw (← gets (transaction_by_id id)) record_missing
  let taken = λ (u : Transaction).
      not (u.id == id) && text_clash u.external_id (external_id_update external_id t)
  throw_if (any taken (← gets (λ db. db.transactions))) unique_violation
  update_transaction id (status_update status external_id now)

abbrev pub with_status : TransactionStatus → Transaction → Transaction
with_status s t = record t { status = s }

-- The row that step 2 creates, and the balance that step 3 writes.
abbrev pub reversed_balance : Transaction → Account → ℤ
reversed_balance original account =
    if type_is original.kind TransactionType.pix_in
    then account.balance -ℤ original.amount
    else account.balance +ℤ original.amount

abbrev pub reversal_row : (id now : ℕ) → Transaction → Account → Option String → Transaction
reversal_row id now original account reason =
    let draft =
      row id original.account_id
        (if type_is original.kind TransactionType.pix_in
          then TransactionType.pix_out
          else TransactionType.pix_in)
        TransactionStatus.completed original.amount account.balance
        (reversed_balance original account) now in
    record draft {
      description =
          some (template ("Estorno: " ∷ or_text reason (text_of original.description) ∷ []));
      related_tx_id = some original.id;
      completed_at = some now;
    }

unfoldable pub reverse_transaction : (id now : ℕ) → ℕ → Option String → Action Transaction
unfolding update_transaction
reverse_transaction id now transaction_id reason = transaction (do
  original ←
      or_throw (← gets (transaction_by_id transaction_id)) (bad_request "Transação não encontrada")
  account ← or_throw (← gets (account_by_id original.account_id)) foreign_key
  throw_if (status_is original.status TransactionStatus.reversed)
      (bad_request "Transação já foi revertida")
  reverse ← create_transaction (reversal_row id now original account reason)
  set_balance original.account_id (reversed_balance original account)
  update_transaction transaction_id (with_status TransactionStatus.reversed)
  pure reverse)
