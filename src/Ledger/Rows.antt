-- ===== src/Ledger/Rows.antt =====
-- The rows that the ledger's services create; a column left out of `data` is null.
use otsem_api.Common.{ℕ, ℤ, Bool, not, none, ◌-ℤ◌, str_eq}
use otsem_api.Database.Enums.{TransactionType, TransactionStatus}
use otsem_api.Database.Rows.{Account, Transaction}

abbrev pub row :
    (id account_id : ℕ)
    → TransactionType
    → TransactionStatus
    → (amount before after : ℤ) → ℕ
    → Transaction
row id account_id kind status amount before after now = record {
  id = id;
  account_id = account_id;
  kind = kind;
  sub_type = none;
  status = status;
  bank_provider = none;
  amount = amount;
  balance_before = before;
  balance_after = after;
  description = none;
  payer_name = none;
  payer_tax_number = none;
  payer_message = none;
  receiver_name = none;
  receiver_tax_number = none;
  receiver_pix_key = none;
  receiver_bank_code = none;
  pix_key = none;
  external_id = none;
  end_to_end = none;
  txid = none;
  related_tx_id = none;
  created_at = now;
  completed_at = none;
}

-- `new Prisma.Decimal(account.balance).sub(account.blockedAmount)`
abbrev pub available_balance : Account → ℤ
available_balance a = a.balance -ℤ a.blocked_amount

abbrev pub is_inactive : Account → Bool
is_inactive a = not (str_eq a.status "active")
