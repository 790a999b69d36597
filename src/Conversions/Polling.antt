-- ===== src/Conversions/Polling.antt =====
-- The pass over all waiting sales, and the credit of a sale by hand:
-- `checkAndProcessSellConversions` and `creditSellManually` of src/wallet/sell-processing.service.ts.
use otsem_api.Common.{
  ℕ, pos, String, Bool, ◌&&◌, ◌||◌, Option, none, some, List, [], ◌∷◌, select, template, fixed_text,
}
use otsem_api.Numbers.{Numbers}
use otsem_api.Database.Enums.{
  ConversionStatus, ConversionType, TransactionType, TransactionStatus, conversion_status_is,
  is_sell,
}
use otsem_api.Database.Rows.{Account, Affiliate, Conversion, Transaction, Database}
use otsem_api.Database.Queries.{account_by_id, customer_by_id, set_balance, create_transaction}
use otsem_api.Database.Action.{
  Action, Result, Error, ok, err, failure, pure, gets, or_throw, transaction, ◌>>=◌, ◌>>◌,
}
use otsem_api.Ledger.Rows.{row}
use otsem_api.Affiliates.Links.{get_affiliate_for_customer}
use otsem_api.Conversions.Rows.{update_conversion, insert_conversion}
use otsem_api.Conversions.Deposits.{Deposit}
use otsem_api.Conversions.Selling.{
  Exchange, Fresh, process_conversion, no_account, commission_for_sale, affiliate_id_of, brl,
}

-- `type: 'SELL', status: { in: ['PENDING', 'USDT_RECEIVED', 'USDT_SOLD'] }`
unfoldable pub is_waiting : Conversion → Bool
is_waiting c =
    is_sell c.kind
    && (conversion_status_is c.status ConversionStatus.pending
        || conversion_status_is c.status ConversionStatus.usdt_received
        || conversion_status_is c.status ConversionStatus.usdt_sold)

abbrev pub noted : String → Conversion → Conversion
noted message c = record c { error_message = some message }

module _ {N : Numbers} (exchange : Exchange N) (message : Error → String) (fresh : ℕ → Fresh) where
  open N use {Number, literal, plus, minus, times, less, to_fixed, to_number, to_column, to_text}

  -- Every conversion with its account, as they are when the pass starts.
  unfoldable pub load_accounts : List Conversion → Database → Result (List (Conversion × Account))
  load_accounts [] db = ok []
  load_accounts (c ∷ cs) db =
      let rest = load_accounts cs db in
      elim (account_by_id c.account_id db) [
        | none ↦ err (no_account exchange)
        | some a ↦ elim rest [ err e ↦ err e | ok pairs ↦ ok ((c, a) ∷ pairs) ]
      ]

  -- `catch`: the message is written to the conversion. A failure of that write passes.
  abbrev pub or_noted : ℕ → Action (Unit {0}) → Action (Unit {0})
  or_noted id m db =
      let (r, db') = m db in
      elim r [
        | ok u ↦ (ok u, db')
        | err e ↦ (update_conversion id (noted (message e)) >> pure tt) db'
      ]

  unfoldable pub process_all : List (Conversion × Account) → List (Deposit N) → Action (Unit {0})
  process_all [] deposits = pure tt
  process_all ((c, account) ∷ pairs) deposits = do
    or_noted c.id (process_conversion exchange (fresh c.id) c account deposits)
    process_all pairs deposits

  unfoldable pub process_loaded : List (Conversion × Account) → Action (Unit {0})
  process_loaded [] = pure tt
  process_loaded (p ∷ pairs) = do
    deposits ← λ db. (exchange.recent_deposits, db)
    process_all (p ∷ pairs) deposits

  unfoldable pub check_and_process_sell_conversions : Action (Unit {0})
  check_and_process_sell_conversions = do
    pairs ← λ db. (load_accounts (select is_waiting db.conversions) db, db)
    process_loaded pairs

module _ {N : Numbers} (exchange : Exchange N) where
  open N use {Number, literal, plus, minus, times, to_fixed, to_number, to_column, to_text}

  -- What a sale by hand is credited: the rate is today's and the spread is fixed.
  abbrev pub manual_spread : Number
  manual_spread = literal 95 4

  abbrev pub manual_conversion :
      Fresh
      → (customer_id account_id : ℕ) (usdt rate : Number) (tx_hash network : String)
      → Option Affiliate
      → (commission : Number) → Conversion
  manual_conversion fresh customer_id account_id usdt rate tx_hash network affiliate commission =
      let gross = times usdt rate in
      let spread_brl = times gross manual_spread in
      record {
        id = fresh.conversion_id;
        customer_id = customer_id;
        account_id = account_id;
        transaction_id = none;
        kind = ConversionType.sell;
        brl_charged = pos 0;
        brl_exchanged = brl exchange gross;
        spread_percent = to_column 4 manual_spread;
        spread_brl = brl exchange spread_brl;
        usdt_purchased = some (to_column 6 usdt);
        usdt_withdrawn = some (pos 0);
        exchange_rate = some (to_column 4 rate);
        network = network;
        wallet_address = "";
        wallet_id = none;
        pix_end_to_end = none;
        pix_txid = none;
        okx_order_id = none;
        okx_withdraw_id = none;
        okx_deposit_id = none;
        tx_hash = some tx_hash;
        affiliate_id = affiliate_id_of exchange affiliate;
        affiliate_commission = some (brl exchange commission);
        okx_withdraw_fee = some (pos 0);
        okx_trading_fee = some (pos 0);
        total_okx_fees = some (pos 0);
        gross_profit = some (brl exchange spread_brl);
        net_profit = some (brl exchange (minus spread_brl commission));
        status = ConversionStatus.completed;
        error_message = none;
        created_at = fresh.now;
        completed_at = some fresh.now;
      }

  -- `brlLiquido`
  abbrev pub manual_credit : (usdt rate : Number) → Number
  manual_credit usdt rate = minus (times usdt rate) (times (times usdt rate) manual_spread)

  abbrev pub manual_row :
      Fresh → (account_id : ℕ) → (usdt credit before : Number) → (tx_hash : String) → Transaction
  manual_row fresh account_id usdt credit before tx_hash =
      record (row fresh.transaction_id account_id TransactionType.conversion
        TransactionStatus.completed (brl exchange credit) (brl exchange before)
        (brl exchange (plus before credit)) fresh.now) {
          sub_type = some "SELL";
          description = some (
              template (
                "Venda de "
                ∷ to_text usdt
                ∷ " USDT → R$ "
                ∷ fixed_text 2 (to_fixed 2 credit)
                ∷ " (crédito manual)"
                ∷ []));
          external_id = some tx_hash;
        }

  pub record ManualCredit : Type 0 where
    pub conversion_id : ℕ
    pub brl_credited : Number
    pub new_balance : Number

  -- The `$transaction` of the balance and the row.
  unfoldable pub post_by_hand :
      (conversion_id : ℕ) → Transaction → (credit after : Number) → Action ManualCredit
  post_by_hand conversion_id t credit after = transaction (do
    set_balance t.account_id t.balance_after
    create_transaction t
    pure (record { conversion_id = conversion_id; brl_credited = credit; new_balance = after }))

  -- From `conversion.create` on.
  unfoldable pub credit_by_hand :
      Fresh
      → (customer_id : ℕ) → Account
      → (usdt rate : Number) (tx_hash network : String) → Option Affiliate
      → (commission : Number) → Action ManualCredit
  credit_by_hand fresh customer_id account usdt rate tx_hash network affiliate commission = do
    conversion ← insert_conversion (
        manual_conversion fresh customer_id account.id usdt rate tx_hash network affiliate
          commission)
    post_by_hand conversion.id
        (manual_row fresh account.id usdt (manual_credit usdt rate) (to_number 2 account.balance)
          tx_hash)
        (manual_credit usdt rate) (plus (to_number 2 account.balance) (manual_credit usdt rate))

  unfoldable pub commission_by_hand :
      Fresh
      → (customer_id : ℕ) → Account
      → (usdt rate : Number) (tx_hash network : String) → Option Affiliate
      → Action ManualCredit
  commission_by_hand fresh customer_id account usdt rate tx_hash network affiliate = do
    commission ←
        commission_for_sale exchange fresh customer_id none (times usdt rate)
          (times (times usdt rate) manual_spread) rate affiliate
    credit_by_hand fresh customer_id account usdt rate tx_hash network affiliate commission

  unfoldable pub credit_sell_manually :
      Fresh
      → (customer_id account_id : ℕ) (usdt : Number) (tx_hash network : String)
      → Action ManualCredit
  credit_sell_manually fresh customer_id account_id usdt tx_hash network = do
    or_throw (← gets (customer_by_id customer_id)) (failure "Cliente não encontrado")
    account ← or_throw (← gets (account_by_id account_id)) (failure "Conta não encontrada")
    rate ← λ db. (exchange.brl_to_usdt_rate, db)
    affiliate ← gets (get_affiliate_for_customer customer_id)
    commission_by_hand fresh customer_id account usdt rate tx_hash network affiliate
