-- ===== src/Ledger/Effects/Transfers.antt =====
-- Transfers as two posts, a debit and a credit.
use otsem_api.Common.{
  ℕ, ℤ, String, ◌≡◌, ◌≢◌, inl, inr, Option, none, some, [], ◌∷◌, arith, Option-cases, ◌≤ℤ◌, ◌-ℤ◌,
  refl,
}
use otsem_api.Database.Enums.{TransactionType}
use otsem_api.Database.Rows.{Customer, Account, Transaction, Database}
use otsem_api.Database.Action.{Result, ok, err}
use otsem_api.Database.Queries.{
  account_by_pix_key, account_by_customer, account_by_id, customer_by_username, customer_by_id,
  create_transaction, set_balance, with_balance,
}
use otsem_api.Database.Tables.{find-update_where}
use otsem_api.Ledger.Amounts.{booked, IsClear, booked_sum, booked_difference, booked_covered}
use otsem_api.Ledger.Rows.{available_balance}
use otsem_api.Ledger.Audit.{added}
use otsem_api.Ledger.Posting.{Posts, IsConsistent}
use otsem_api.Ledger.Transfers.{
  Labels, TransferResult, move_funds, process_transfer, process_transfer_by_username,
  transfer_between, key_labels, username_labels,
}
use otsem_api.Ledger.Effects.Found.{found_by_pix_key, found_by_customer}

-- The two rows of a transfer of an amount between two accounts.
pub record IsTransfer (from to : Account) (amount : ℤ) (o i : Transaction) : Type 0 where
  pub out_account : o.account_id ≡ from.id
  pub in_account : i.account_id ≡ to.id
  pub out_kind : o.kind ≡ TransactionType.transfer_out
  pub in_kind : i.kind ≡ TransactionType.transfer_in
  pub out_amount : o.amount ≡ amount
  pub in_amount : i.amount ≡ amount
  pub related : i.related_tx_id ≡ some o.id

abbrev Moves :
    Database → (from to : Account) → ℤ → Result (Transaction × Transaction) × Database → Type 0
Moves db from to amount (err _, db') = Unit
Moves db from to amount (ok (o, i), db') = IsTransfer from to amount o i × Posts db (o ∷ i ∷ []) db'

move_funds-Moves :
    (out_id in_id now : ℕ) (from to : Account) (amount : ℤ) (labels : Labels) (db : Database)
    → account_by_id from.id db ≡ some from
    → account_by_id to.id db ≡ some to
    → from.id ≢ to.id
    → IsClear amount
    → Moves db from to (booked amount) (move_funds out_id in_id now from to amount labels db)
unfolding move_funds create_transaction set_balance added
move_funds-Moves out_id in_id now from to amount labels db hf ht ne clear =
    let left = booked_difference from.balance amount clear in
    let right = booked_sum to.balance amount clear in
    ground (
      arith,
      left,
      right,
      find-update_where (λ a. a.id) (with_balance (from.balance -ℤ booked amount)) (λ _. refl)
          from.id to.id db.accounts,
    )

-- A transfer raises and writes nothing, or posts its two rows; then the accounts are two, and the
-- source's available balance covers the amount.
abbrev pub Transfers :
    Database → (from to : Account) → ℤ → Result (Transaction × Transaction) × Database → Type 0
Transfers db from to amount (err _, db') = db' ≡ db
Transfers db from to amount (ok (o, i), db') =
    IsTransfer from to amount o i
    × (from.id ≢ to.id)
    × (amount ≤ℤ available_balance from)
    × Posts db (o ∷ i ∷ []) db'

pub process_transfer-Transfers :
    (out_id in_id now customer_id : ℕ) (key : String) (amount : ℤ) (description : Option String)
    {db : Database} {from to : Account}
    → IsConsistent db
    → account_by_customer customer_id db ≡ some from
    → account_by_pix_key key db ≡ some to
    → IsClear amount
    → Transfers db from to
        (booked amount)
        (process_transfer out_id in_id now customer_id key amount description db)
unfolding process_transfer
process_transfer-Transfers out_id in_id now customer_id key amount description {db} {from} {to} c hf
      ht clear =
    ground (
      arith,
      move_funds-Moves out_id in_id now from to amount (key_labels key description) db
          (found_by_customer c customer_id hf) (found_by_pix_key c key ht),
      clear,
      booked_covered (available_balance from) amount,
    )

-- The same of the answer that also names the parties.
abbrev pub NamedTransfers :
    Database → (from to : Account) → ℤ → Result TransferResult × Database → Type 0
NamedTransfers db from to amount (err _, db') = db' ≡ db
NamedTransfers db from to amount (ok r, db') =
    Transfers db from to amount (ok (r.tx_out, r.tx_in), db')

abbrev Between : Database → (from to : Account) → ℤ → Result TransferResult × Database → Type 0
Between db from to amount (err _, db') = Unit
Between db from to amount (ok r, db') = Transfers db from to amount (ok (r.tx_out, r.tx_in), db')

transfer_between-Between :
    (out_id in_id now : ℕ) (sender receiver : Customer) (from to : Account) (amount : ℤ)
    (description : Option String) (db : Database)
    → account_by_id from.id db ≡ some from
    → account_by_id to.id db ≡ some to
    → IsClear amount
    → Between db from to
        (booked amount)
        (transfer_between out_id in_id now sender receiver from to amount description db)
unfolding transfer_between
transfer_between-Between out_id in_id now sender receiver from to amount description db hf ht
      clear =
    ground (
      arith,
      move_funds-Moves out_id in_id now from to amount (username_labels description sender receiver)
          db hf ht,
      clear,
      booked_covered (available_balance from) amount,
    )

module _ (out_id in_id now customer_id : ℕ) (username : String) (amount : ℤ)
    (description : Option String) {db : Database} {from to : Account} {receiver : Customer}
    (c : IsConsistent db) (clear : IsClear amount)
    (hf : account_by_customer customer_id db ≡ some from)
    (hr : customer_by_username username db ≡ some receiver)
    (ht : account_by_customer receiver.id db ≡ some to) where
  transfer_from_unknown :
      customer_by_id from.customer_id db ≡ none
      → NamedTransfers db from to
          (booked amount)
          (process_transfer_by_username out_id in_id now customer_id username amount description db)
  unfolding process_transfer_by_username
  transfer_from_unknown e = ground arith

  transfer_from_known :
      (sender : Customer)
      → customer_by_id from.customer_id db ≡ some sender
      → NamedTransfers db from to
          (booked amount)
          (process_transfer_by_username out_id in_id now customer_id username amount description db)
  unfolding process_transfer_by_username
  transfer_from_known sender e = ground (
    arith,
    transfer_between-Between out_id in_id now sender receiver from to amount description db
        (found_by_customer c customer_id hf) (found_by_customer c receiver.id ht) clear,
  )

  pub process_transfer_by_username-NamedTransfers :
      NamedTransfers db from to
        (booked amount)
        (process_transfer_by_username out_id in_id now customer_id username amount description db)
  process_transfer_by_username-NamedTransfers =
      elim (Option-cases (customer_by_id from.customer_id db)) [
        | inl missing ↦ transfer_from_unknown missing
        | inr (sender, e) ↦ transfer_from_known sender e
      ]

-- Where a row is not found nothing is written.
module _ (out_id in_id now customer_id : ℕ) (amount : ℤ) (description : Option String)
    (db : Database) where
  pub process_transfer_no_source :
      (key : String)
      → account_by_customer customer_id db ≡ none
      → (process_transfer out_id in_id now customer_id key amount description db).1 ≡ db
  unfolding process_transfer
  process_transfer_no_source key missing = ground arith

  pub process_transfer_no_target :
      (key : String) {from : Account}
      → account_by_customer customer_id db ≡ some from
      → account_by_pix_key key db ≡ none
      → (process_transfer out_id in_id now customer_id key amount description db).1 ≡ db
  unfolding process_transfer
  process_transfer_no_target key found missing = ground arith

  pub transfer_no_receiver :
      (username : String)
      → customer_by_username username db ≡ none
      → (process_transfer_by_username out_id in_id now customer_id username amount description db).1
        ≡ db
  unfolding process_transfer_by_username
  transfer_no_receiver username missing = ground arith

  pub transfer_no_source :
      (username : String) {receiver : Customer}
      → customer_by_username username db ≡ some receiver
      → account_by_customer customer_id db ≡ none
      → (process_transfer_by_username out_id in_id now customer_id username amount description db).1
        ≡ db
  unfolding process_transfer_by_username
  transfer_no_source username found missing = ground arith

  pub transfer_no_target :
      (username : String) {receiver : Customer} {from : Account}
      → customer_by_username username db ≡ some receiver
      → account_by_customer customer_id db ≡ some from
      → account_by_customer receiver.id db ≡ none
      → (process_transfer_by_username out_id in_id now customer_id username amount description db).1
        ≡ db
  unfolding process_transfer_by_username
  transfer_no_target username found source missing = ground arith
