-- ===== src/Ledger/ReadingTests.antt =====
-- A receipt and its details at a concrete deposit.
use otsem_api.Common.{pos, ◌≡◌, refl, some, none, true, false, find, any, ◌+ℤ◌}
use otsem_api.Samples.{bank}
use otsem_api.Database.Enums.{
  TransactionType, TransactionStatus, type_is, status_is, customer_type_is,
}
use otsem_api.Database.Rows.{Account, Transaction, Database}
use otsem_api.Database.Tables.{update_where}
use otsem_api.Database.Action.{Result, ok, err}
use otsem_api.Database.Queries.{
  account_by_id, account_by_pix_key, customer_by_id, transaction_by_id, transaction_by_external_id,
  transaction_clash, create_transaction, set_balance,
}
use otsem_api.Documents.Masking.{mask_tax_number}
use otsem_api.Ledger.Rows.{row}
use otsem_api.Ledger.Deposits.{process_pix_deposit}
use otsem_api.Ledger.Receipts.{
  Side, Receipt, Details, read_transaction, get_receipt, get_transaction_details, details_of,
  receipt_in, or_none, is_pix_in, is_pix_out, customer_tax_number,
}
use otsem_api.Ledger.Reading.{get_receipt_owner, get_transaction_details-get_receipt}

reading : Unit {0}
unfolding account_by_id account_by_pix_key customer_by_id transaction_by_id
    transaction_by_external_id transaction_clash create_transaction set_balance process_pix_deposit
    read_transaction get_receipt get_transaction_details details_of receipt_in or_none is_pix_in
    is_pix_out customer_tax_number mask_tax_number type_is status_is customer_type_is update_where
    find any ◌+ℤ◌
reading = tt

-- Ana has received R$ 50.
abbrev funded : Database
funded = (process_pix_deposit 100 7 "k1" (pos 500_000_000) none "e1" bank).1

abbrev no_side : Side
no_side = record { name = none; tax_number = none; pix_key = none; bank_code = none }

abbrev no_row : Transaction
no_row = row 0 0 TransactionType.fee TransactionStatus.failed (pos 0) (pos 0) (pos 0) 0

abbrev receipt_or : Result Receipt → Receipt
receipt_or (ok r) = r
receipt_or (err _) = record {
  title = "";
  transaction = no_row;
  end_to_end = none;
  payer = no_side;
  receiver = no_side;
  payer_message = none;
}

abbrev details_or : Result Details → Details
details_or (ok d) = d
details_or (err _) = record {
  transaction = no_row;
  end_to_end = none;
  payer = none;
  receiver = none;
  payer_message = none;
  has_receipt = false;
}

abbrev receipt : Receipt
receipt = receipt_or (get_receipt 100 10 funded).0

receipt_ok : get_receipt 100 10 funded ≡ (ok receipt, funded)
unfolding reading
receipt_ok = refl

get_receipt_owner_example :
    (transaction_by_id 100 funded ≡ some receipt.transaction)
    × (a : Account) × (account_by_id receipt.transaction.account_id funded ≡ some a)
    × (a.customer_id ≡ 10)
get_receipt_owner_example = get_receipt_owner 100 10 funded receipt_ok

abbrev details : Details
details = details_or (get_transaction_details 100 10 funded).0

details_ok : get_transaction_details 100 10 funded ≡ (ok details, funded)
unfolding reading
details_ok = refl

details_announce : details.has_receipt ≡ true
unfolding reading
details_announce = refl

get_transaction_details-get_receipt_example :
    (r : Receipt) × (get_receipt 100 10 funded ≡ (ok r, funded))
    × (r.transaction ≡ details.transaction)
    × (details.payer ≡ some r.payer)
    × (details.receiver ≡ some r.receiver)
get_transaction_details-get_receipt_example =
    get_transaction_details-get_receipt 100 10 funded details_ok details_announce
