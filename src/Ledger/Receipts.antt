-- ===== src/Ledger/Receipts.antt =====
-- Reading transactions: `findByAccount`, `getReceipt` and `getTransactionDetails` of
-- src/transactions/transactions.service.ts. A field that is undefined or null is `none`.
use otsem_api.Common.{
  ℕ, String, Bool, not, ◌&&◌, ◌||◌, Option, none, some, ◌==◌, or_else, if◌then◌else◌,
}
use otsem_api.Database.Enums.{
  TransactionType, TransactionStatus, CustomerType, type_is, status_is, customer_type_is,
}
use otsem_api.Database.Rows.{Customer, Account, Transaction}
use otsem_api.Database.Paging.{Page, page_of}
use otsem_api.Database.Tables.{by}
use otsem_api.Database.Queries.{transaction_by_id, account_by_id, customer_by_id}
use otsem_api.Database.Action.{
  Action, bad_request, not_found, forbidden, foreign_key, pure, gets, or_throw, throw_if, ◌>>=◌,
  ◌>>◌,
}
use otsem_api.Documents.Masking.{mask_tax_number}

-- `hasNext` and `hasPrev` of the answer compare `page` with `total_pages` and 1.
unfoldable pub find_by_account : ℕ → (page limit : ℕ) → Action (Page Transaction)
find_by_account account_id page limit =
    gets λ db.
      page_of (λ t. t.created_at) (by (λ t. t.account_id) account_id) page limit db.transactions

pub record Side : Type 0 where
  pub name : Option String
  pub tax_number : Option String
  pub pix_key : Option String
  pub bank_code : Option String

pub record Receipt : Type 0 where
  pub title : String
  pub transaction : Transaction
  pub end_to_end : Option String
  pub payer : Side
  pub receiver : Side
  pub payer_message : Option String

pub record Details : Type 0 where
  pub transaction : Transaction
  pub end_to_end : Option String
  pub payer : Option Side
  pub receiver : Option Side
  pub payer_message : Option String
  pub has_receipt : Bool

unfoldable pub or_none : Option String → Option String
or_none s = or_else s none

-- `customer.type === 'PF' ? customer.cpf : customer.cnpj`
unfoldable pub customer_tax_number : Customer → Option String
customer_tax_number c = if customer_type_is c.kind CustomerType.pf then c.cpf else c.cnpj

unfoldable pub is_pix_in : Transaction → Bool
is_pix_in t = type_is t.kind TransactionType.pix_in

unfoldable pub is_pix_out : Transaction → Bool
is_pix_out t = type_is t.kind TransactionType.pix_out

abbrev pub side : Option String → Option String → Option String → Option String → Side
side name tax_number pix_key bank_code = record {
  name = name;
  tax_number = or_none (mask_tax_number tax_number);
  pix_key = pix_key;
  bank_code = bank_code;
}

unfoldable pub receipt_in : Transaction → Account → Customer → Receipt
receipt_in t a c = record {
  title = "Comprovante de Depósito PIX";
  transaction = t;
  end_to_end = or_none t.end_to_end;
  payer = side (or_none t.payer_name) t.payer_tax_number none none;
  receiver =
      side (some c.name) (customer_tax_number c) (or_else t.pix_key (or_none a.pix_key)) none;
  payer_message = or_none t.payer_message;
}

unfoldable pub receipt_out : Transaction → Customer → Receipt
receipt_out t c = record {
  title = "Comprovante de Envio PIX";
  transaction = t;
  end_to_end = or_else t.end_to_end (or_none t.external_id);
  payer = side (some c.name) (customer_tax_number c) none none;
  receiver =
      side (or_none t.receiver_name) t.receiver_tax_number (or_none t.receiver_pix_key)
        (or_none t.receiver_bank_code);
  payer_message = none;
}

-- The rows that both methods read; the account and its customer exist by the foreign keys.
unfoldable pub read_transaction : ℕ → Action (Transaction × Account × Customer)
read_transaction id = do
  t ← or_throw (← gets (transaction_by_id id)) (not_found "Transação não encontrada")
  a ← or_throw (← gets (account_by_id t.account_id)) foreign_key
  c ← or_throw (← gets (customer_by_id a.customer_id)) foreign_key
  pure (t, a, c)

abbrev pub receipt_of : Transaction → Account → Customer → Receipt
receipt_of t a c = if is_pix_in t then receipt_in t a c else receipt_out t c

unfoldable pub get_receipt : ℕ → ℕ → Action Receipt
get_receipt id customer_id = do
  rows ← read_transaction id
  throw_if (not (rows.1.customer_id == customer_id))
      (forbidden "Você não tem permissão para acessar este comprovante")
  throw_if (not (is_pix_in rows.0) && not (is_pix_out rows.0))
      (bad_request "Comprovante disponível apenas para transações PIX")
  pure (receipt_of rows.0 rows.1 rows.2)

unfoldable pub details_of : Transaction → Account → Customer → Details
details_of t a c =
    let is_pix = is_pix_in t || is_pix_out t in
    let own = customer_tax_number c in
    let incoming = is_pix_in t in
    let outgoing = is_pix_out t in
    record {
      transaction = t;
      end_to_end = or_else t.end_to_end (or_none t.external_id);
      payer =
          if is_pix
          then some (
              side (if incoming then or_none t.payer_name else some c.name)
                (if incoming then t.payer_tax_number else own) none none)
          else none;
      receiver =
          if is_pix
          then some (
              side (if outgoing then or_none t.receiver_name else some c.name)
                (if outgoing then t.receiver_tax_number else own)
                (if outgoing
                  then or_none t.receiver_pix_key
                  else or_else t.pix_key (or_none a.pix_key))
                (if outgoing then or_none t.receiver_bank_code else none))
          else none;
      payer_message = or_none t.payer_message;
      has_receipt = is_pix && status_is t.status TransactionStatus.completed;
    }

unfoldable pub get_transaction_details : ℕ → ℕ → Action Details
get_transaction_details id customer_id = do
  rows ← read_transaction id
  throw_if (not (rows.1.customer_id == customer_id))
      (forbidden "Você não tem permissão para acessar esta transação")
  pure (details_of rows.0 rows.1 rows.2)
