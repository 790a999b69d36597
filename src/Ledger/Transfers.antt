-- ===== src/Ledger/Transfers.antt =====
-- `processTransfer` and `processTransferByUsername` of src/transactions/transactions.service.ts,
-- and `createTransfer` of src/transfers/transfers.service.ts; `amount` is in ten-millionths of a real.
use otsem_api.Common.{
  ℕ, ℤ, pos, String, Option, none, some, [], ◌∷◌, ◌==◌, ◌+ℤ◌, ◌-ℤ◌, ltb_ℤ, leb_ℤ, or_text, template,
}
use otsem_api.Database.Enums.{TransactionType, TransactionStatus}
use otsem_api.Database.Rows.{Customer, Account, Transaction}
use otsem_api.Database.Action.{
  Action, bad_request, not_found, foreign_key, pure, transaction, gets, or_throw, throw_if, ◌>>=◌,
  ◌>>◌,
}
use otsem_api.Database.Queries.{
  account_by_pix_key, account_by_customer, customer_by_id, customer_by_username, create_transaction,
  set_balance,
}
use otsem_api.Ledger.Amounts.{in_units, booked}
use otsem_api.Ledger.Rows.{row, available_balance, is_inactive}

-- The names that the two rows of a transfer carry.
pub record Labels : Type 0 where
  pub out_description : String
  pub in_description : String
  pub receiver_name : Option String
  pub payer_name : Option String

-- The debit row, the credit row and the two balances, which both methods write alike.
unfoldable pub move_funds :
    (out_id in_id now : ℕ) → Account → Account → ℤ → Labels → Action (Transaction × Transaction)
move_funds out_id in_id now from_account to_account amount labels = do
  let from_after = booked (in_units from_account.balance -ℤ amount)
  let to_after = booked (in_units to_account.balance +ℤ amount)
  let draft_out =
      row out_id from_account.id TransactionType.transfer_out TransactionStatus.completed
        (booked amount) from_account.balance from_after now
  tx_out ← create_transaction (record draft_out {
    description = some labels.out_description;
    receiver_name = labels.receiver_name;
    completed_at = some now;
  })
  let draft_in =
      row in_id to_account.id TransactionType.transfer_in TransactionStatus.completed
        (booked amount) to_account.balance to_after now
  tx_in ← create_transaction (record draft_in {
    description = some labels.in_description;
    payer_name = labels.payer_name;
    related_tx_id = some tx_out.id;
    completed_at = some now;
  })
  set_balance from_account.id from_after
  set_balance to_account.id to_after
  pure (tx_out, tx_in)

abbrev pub key_labels : String → Option String → Labels
key_labels to_pix_key description = record {
  out_description = or_text description (template ("Transferência para " ∷ to_pix_key ∷ []));
  in_description = or_text description "Transferência recebida";
  receiver_name = none;
  payer_name = none;
}

unfoldable pub process_transfer :
    (out_id in_id now : ℕ) → ℕ → String → ℤ → Option String → Action (Transaction × Transaction)
process_transfer out_id in_id now from_customer_id to_pix_key amount description = transaction (do
  from_account ←
      or_throw (← gets (account_by_customer from_customer_id))
        (bad_request "Conta de origem não encontrada")
  to_account ←
      or_throw (← gets (account_by_pix_key to_pix_key))
        (bad_request "Chave Pix de destino não encontrada")
  throw_if (from_account.id == to_account.id)
      (bad_request "Não é possível transferir para si mesmo")
  throw_if (ltb_ℤ (in_units (available_balance from_account)) amount)
      (bad_request "Saldo insuficiente")
  move_funds out_id in_id now from_account to_account amount (key_labels to_pix_key description))

-- A template literal prints `null` for a column that is null.
abbrev pub text_of : Option String → String
text_of none = "null"
text_of (some s) = s

abbrev pub Party : Type 0
Party = String × Option String

pub record TransferResult : Type 0 where
  pub tx_out : Transaction
  pub tx_in : Transaction
  pub sender : Party
  pub receiver : Party

abbrev pub username_labels : Option String → (sender receiver : Customer) → Labels
username_labels description sender receiver = record {
  out_description =
      or_text description (template ("Transferência para @" ∷ text_of receiver.username ∷ []));
  in_description =
      or_text description (template ("Transferência recebida de @" ∷ text_of sender.username ∷ []));
  receiver_name = some receiver.name;
  payer_name = some sender.name;
}

-- Steps 4 to 8, once both accounts are known and active.
unfoldable pub transfer_between :
    (out_id in_id now : ℕ)
    → (sender receiver : Customer) → (from_account to_account : Account) → ℤ
    → Option String
    → Action TransferResult
transfer_between out_id in_id now from_customer to_customer from_account to_account amount
      description =
    do
      throw_if (from_account.id == to_account.id)
          (bad_request "Não é possível transferir para si mesmo")
      throw_if (ltb_ℤ (in_units (available_balance from_account)) amount)
          (bad_request "Saldo insuficiente")
      moved ←
          move_funds out_id in_id now from_account to_account amount
            (username_labels description from_customer to_customer)
      pure (record {
        tx_out = moved.0;
        tx_in = moved.1;
        sender = (from_customer.name, from_customer.username);
        receiver = (to_customer.name, to_customer.username);
      })

unfoldable pub process_transfer_by_username :
    (out_id in_id now : ℕ) → ℕ → String → ℤ → Option String → Action TransferResult
process_transfer_by_username out_id in_id now from_customer_id to_username amount description =
    transaction (do
      to_customer ←
          or_throw (← gets (customer_by_username to_username)) (not_found "username_not_found")
      from_account ←
          or_throw (← gets (account_by_customer from_customer_id))
            (bad_request "Conta de origem não encontrada")
      from_customer ← or_throw (← gets (customer_by_id from_account.customer_id)) foreign_key
      throw_if (is_inactive from_account) (bad_request "Conta de origem inativa")
      to_account ←
          or_throw (← gets (account_by_customer to_customer.id))
            (bad_request "Conta de destino não encontrada")
      throw_if (is_inactive to_account) (bad_request "Conta de destino inativa")
      transfer_between out_id in_id now from_customer to_customer from_account to_account amount
          description)

-- `createTransfer`; its answer picks fields of the result.
unfoldable pub create_transfer :
    (out_id in_id now : ℕ) → ℕ → String → ℤ → Option String → Action TransferResult
create_transfer out_id in_id now from_customer_id username amount description = do
  throw_if (leb_ℤ amount (pos 0)) (bad_request "Valor deve ser maior que zero")
  process_transfer_by_username out_id in_id now from_customer_id username amount description
