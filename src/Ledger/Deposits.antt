-- ===== src/Ledger/Deposits.antt =====
-- `processPixDeposit` and `processPixWithdraw` of src/transactions/transactions.service.ts. The ids
-- that the database draws and the clock are arguments; `amount` is in ten-millionths of a real.
use otsem_api.Common.{
  ℕ, ℤ, String, Option, none, some, [], ◌∷◌, ◌+ℤ◌, ◌-ℤ◌, ltb_ℤ, or_text, template,
}
use otsem_api.Database.Enums.{TransactionType, TransactionStatus}
use otsem_api.Database.Rows.{Account, Transaction}
use otsem_api.Database.Action.{
  Action, bad_request, pure, transaction, gets, or_throw, throw_if, ◌>>=◌, ◌>>◌,
}
use otsem_api.Database.Queries.{
  account_by_pix_key, account_by_customer, transaction_by_external_id, create_transaction,
  set_balance,
}
use otsem_api.Ledger.Amounts.{in_units, booked}
use otsem_api.Ledger.Rows.{row, available_balance, is_inactive}

-- Steps 3 and 4: create the transaction, write the balance.
credit_deposit : (id now : ℕ) → Account → ℤ → Option String → String → Action Transaction
credit_deposit id now account amount payer_name external_id = do
  let balance_before = account.balance
  let balance_after = booked (in_units balance_before +ℤ amount)
  let draft =
      row id account.id TransactionType.pix_in TransactionStatus.completed (booked amount)
        balance_before balance_after now
  created ← create_transaction (record draft {
    description = some (template ("Pix recebido de " ∷ or_text payer_name "N/A" ∷ []));
    external_id = some external_id;
    completed_at = some now;
  })
  set_balance account.id balance_after
  pure created

unfoldable pub process_pix_deposit :
    (id now : ℕ) → String → ℤ → Option String → String → Action Transaction
unfolding credit_deposit
process_pix_deposit id now pix_key amount payer_name external_id = transaction (do
  account ←
      or_throw (← gets (account_by_pix_key pix_key))
        (bad_request (template ("Chave Pix " ∷ pix_key ∷ " não encontrada" ∷ [])))
  throw_if (is_inactive account) (bad_request "Conta inativa")
  existing ← gets (transaction_by_external_id external_id)
  elim existing [
    | some t ↦ pure t
    | none ↦ credit_deposit id now account amount payer_name external_id
  ])

unfoldable pub process_pix_withdraw :
    (id now : ℕ) → ℕ → ℤ → String → Option String → Action Transaction
process_pix_withdraw id now customer_id amount pix_key_destination description = transaction (do
  account ← or_throw (← gets (account_by_customer customer_id)) (bad_request "Conta não encontrada")
  throw_if (is_inactive account) (bad_request "Conta inativa")
  throw_if (ltb_ℤ (in_units (available_balance account)) amount) (bad_request "Saldo insuficiente")
  let balance_before = account.balance
  let balance_after = booked (in_units balance_before -ℤ amount)
  let draft =
      row id account.id TransactionType.pix_out TransactionStatus.processing (booked amount)
        balance_before balance_after now
  created ← create_transaction (record draft {
    description =
        some (or_text description (template ("Pix enviado para " ∷ pix_key_destination ∷ [])));
  })
  set_balance account.id balance_after
  pure created)
