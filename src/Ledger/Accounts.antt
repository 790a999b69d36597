-- ===== src/Ledger/Accounts.antt =====
-- src/accounts/accounts.service.ts, but for `getAccountSummary`, which lists payments.
use otsem_api.Common.{
  ℕ, ℤ, pos, String, Bool, not, ◌&&◌, ◌||◌, Option, none, some, ◌∷◌, ◌==◌, ◌+ℤ◌, ◌-ℤ◌, ltb_ℤ,
  if◌then◌else◌, any, is_some, str_eq, text_is,
}
use otsem_api.Database.Enums.{TransactionType, TransactionStatus, PixKeyType}
use otsem_api.Database.Rows.{Account, Transaction}
use otsem_api.Database.Tables.{by, update_where}
use otsem_api.Database.Action.{
  Action, bad_request, unique_violation, foreign_key, pure, transaction, gets, or_throw, throw_if,
  modify, ◌>>=◌, ◌>>◌,
}
use otsem_api.Database.Queries.{
  account_by_customer, account_by_pix_key, customer_by_id, create_transaction, set_balance,
  text_clash,
}
use otsem_api.Ledger.Amounts.{in_units, booked}
use otsem_api.Ledger.Rows.{row, available_balance, is_inactive}

-- `pixKey || null`
abbrev or_null : Option String → Option String
or_null none = none
or_null (some s) = if str_eq s "" then none else some s

-- The columns of the model Account that are unique.
unfoldable pub account_clash : Account → Account → Bool
account_clash a b = a.id == b.id || a.customer_id == b.customer_id || text_clash a.pix_key b.pix_key

-- The limits are the defaults of the schema, R$ 5.000 and R$ 20.000.
unfoldable pub create_account : (id : ℕ) → ℕ → Option String → Action Account
unfolding account_clash
create_account id customer_id pix_key = do
  existing ← gets (account_by_customer customer_id)
  throw_if (is_some existing) (bad_request "Customer já possui conta")
  let key = or_null pix_key
  let account : Account = record {
    id = id;
    customer_id = customer_id;
    balance = pos 0;
    pix_key = key;
    pix_key_type = if is_some key then some PixKeyType.random else none;
    daily_limit = pos 500_000;
    monthly_limit = pos 2_000_000;
    status = "active";
    blocked_amount = pos 0;
  }
  throw_if (any (account_clash account) (← gets (λ db. db.accounts))) unique_violation
  or_throw (← gets (customer_by_id customer_id)) foreign_key
  modify λ db. record db { accounts = account ∷ db.accounts }
  pure account

abbrev pub with_pix_key : String → PixKeyType → Account → Account
with_pix_key key kind a = record a { pix_key = some key; pix_key_type = some kind }

unfoldable pub update_pix_key : ℕ → String → PixKeyType → Action Account
update_pix_key customer_id pix_key kind = do
  account ← or_throw (← gets (account_by_customer customer_id)) (bad_request "Conta não encontrada")
  let taken = λ (a : Account). not (a.customer_id == customer_id) && text_is a.pix_key pix_key
  throw_if (any taken (← gets (λ db. db.accounts))) unique_violation
  modify λ db. record db {
    accounts =
        update_where (by (λ a. a.customer_id) customer_id) (with_pix_key pix_key kind) db.accounts;
  }
  pure (with_pix_key pix_key kind account)

unfoldable pub get_account_by_pix_key : String → Action (Option Account)
get_account_by_pix_key pix_key = gets (account_by_pix_key pix_key)

pub record Balance : Type 0 where
  pub customer_id : ℕ
  pub balance : ℤ
  pub blocked_amount : ℤ
  pub available_balance : ℤ
  pub pix_key : Option String
  pub status : String

unfoldable pub get_balance : ℕ → Action Balance
get_balance customer_id = do
  account ← or_throw (← gets (account_by_customer customer_id)) (bad_request "Conta não encontrada")
  pure (record {
    customer_id = account.customer_id;
    balance = account.balance;
    blocked_amount = account.blocked_amount;
    available_balance = available_balance account;
    pix_key = account.pix_key;
    status = account.status;
  })

-- `AdjustmentType` of src/accounts/dto/adjust-balance.dto.ts
pub data AdjustmentType : Type 0 where
  credit debit : AdjustmentType

abbrev pub adjusted : AdjustmentType → ℤ → ℤ → ℤ
adjusted AdjustmentType.credit balance amount = balance +ℤ amount
adjusted AdjustmentType.debit balance amount = balance -ℤ amount

abbrev pub adjustment_kind : AdjustmentType → TransactionType
adjustment_kind AdjustmentType.credit = TransactionType.deposit
adjustment_kind AdjustmentType.debit = TransactionType.withdraw

-- `amount` and the new balance of the answer are in ten-millionths of a real. The text of a balance
-- in the message is left out.
unfoldable pub adjust_balance :
    (id now : ℕ) → ℕ → AdjustmentType → ℤ → String → Action (Transaction × ℤ)
adjust_balance id now customer_id kind amount reason = transaction (do
  account ← or_throw (← gets (account_by_customer customer_id)) (bad_request "Conta não encontrada")
  throw_if (is_inactive account) (bad_request "Conta inativa")
  let balance_before = account.balance
  let balance_after = adjusted kind (in_units balance_before) amount
  throw_if (ltb_ℤ balance_after (pos 0)) (bad_request "Saldo insuficiente para débito")
  let draft =
      row id account.id (adjustment_kind kind) TransactionStatus.completed (booked amount)
        balance_before (booked balance_after) now
  created ← create_transaction (record draft {
    sub_type = some "ADMIN_ADJUSTMENT";
    description = some reason;
    completed_at = some now;
  })
  set_balance account.id (booked balance_after)
  pure (created, balance_after))
