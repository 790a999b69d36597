-- ===== src/Conversions/Selling.antt =====
-- A sale of USDT from its deposit to the credit in BRL: src/wallet/sell-processing.service.ts. The
-- exchange is a parameter; the ids of new rows and the time are arguments.
use otsem_api.Common.{
  ℕ, ℤ, String, Bool, ◌&&◌, Option, none, some, List, [], ◌∷◌, ◌==◌, find, text_is, template,
  fixed_text, if◌then◌else◌,
}
use otsem_api.Numbers.{Numbers}
use otsem_api.Database.Enums.{
  ConversionStatus, TransactionType, TransactionStatus, conversion_status_is, type_is,
}
use otsem_api.Database.Rows.{Account, Affiliate, AffiliateCommission, Conversion, Transaction}
use otsem_api.Database.Queries.{account_by_id, set_balance, create_transaction}
use otsem_api.Database.Action.{
  Action, Result, Error, failure, pure, gets, or_throw, transaction, ◌>>=◌, ◌>>◌,
}
use otsem_api.Ledger.Rows.{row}
use otsem_api.Affiliates.Commissions.{record_commission}
use otsem_api.Affiliates.Settlement.{Payouts, settle_commission_usdt}
use otsem_api.Affiliates.Links.{get_affiliate_for_customer}
use otsem_api.Conversions.Rows.{id_text, conversion_by_id, update_conversion}
use otsem_api.Conversions.Deposits.{Deposit, no_amount, check_deposit_confirmation}

-- What `sellUsdtForBrl` of the exchange answers.
pub record Sold (N : Numbers) : Type 0 where
  pub order_id : String
  pub brl_received : N.Number
  pub trading_fee : N.Number

pub record Exchange (N : Numbers) : Type 0 where
  pub recent_deposits : Result (List (Deposit N))
  pub transfer_usdt_to_trading : N.Number → Result (Unit {0})
  pub sell_usdt_for_brl : N.Number → Result (Sold N)
  pub brl_to_usdt_rate : Result N.Number
  pub payouts : Payouts N

-- The ids of the rows that one call creates, and its time.
pub record Fresh : Type 0 where
  pub transaction_id : ℕ
  pub commission_id : ℕ
  pub conversion_id : ℕ
  pub now : ℕ

-- `{ accountId, type: 'CONVERSION', subType: 'SELL', externalId: conversion.id }`
unfoldable pub is_credit_of : (conversion_id account_id : ℕ) → Transaction → Bool
is_credit_of conversion_id account_id t =
    t.account_id == account_id
    && type_is t.kind TransactionType.conversion
    && text_is t.sub_type "SELL"
    && text_is t.external_id (id_text conversion_id)

abbrev pub closed_at : (now : ℕ) → Conversion → Conversion
closed_at now c = record c { status = ConversionStatus.completed; completed_at = some now }

module _ {N : Numbers} (exchange : Exchange N) where
  open N use {
    Number, literal, plus, minus, times, over, less, to_fixed, to_number, to_column, to_text,
  }

  -- An amount as a BRL column holds it.
  abbrev pub brl : Number → ℤ
  brl x = to_column 2 x

  abbrev pub sold : Number → Sold N → Conversion → Conversion
  sold usdt s c =
      let spread_brl = times s.brl_received (to_number 4 c.spread_percent) in
      record c {
        status = ConversionStatus.usdt_sold;
        okx_order_id = some s.order_id;
        brl_exchanged = brl s.brl_received;
        okx_trading_fee = some (brl s.trading_fee);
        spread_brl = brl spread_brl;
        gross_profit = some (brl spread_brl);
        net_profit = some (brl (minus spread_brl s.trading_fee));
        exchange_rate = some (to_column 4 (over s.brl_received usdt));
      }

  unfoldable pub sell_usdt_for_brl : Conversion → Action (Unit {0})
  sell_usdt_for_brl c = do
    purchased ← or_throw c.usdt_purchased no_amount
    λ db. (exchange.transfer_usdt_to_trading (to_number 6 purchased), db)
    s ← λ db. (exchange.sell_usdt_for_brl (to_number 6 purchased), db)
    update_conversion c.id (sold (to_number 6 purchased) s)
    pure tt

  -- What the credit is computed from.
  pub record Amounts : Type 0 where
    pub usdt : Number
    pub brl_exchanged : Number
    pub okx_trading_fee : Number
    pub exchange_rate : Number
    pub spread_brl : Number

  unfoldable pub amounts_of : Conversion → (usdt : Number) → Amounts
  amounts_of c usdt =
      let brl_exchanged = to_number 2 c.brl_exchanged in
      record {
        usdt = usdt;
        brl_exchanged = brl_exchanged;
        okx_trading_fee = elim c.okx_trading_fee [ none ↦ literal 0 0 | some f ↦ to_number 2 f ];
        exchange_rate = elim c.exchange_rate [
          | none ↦ over brl_exchanged usdt
          | some r ↦ to_number 4 r
        ];
        spread_brl = times brl_exchanged (to_number 4 c.spread_percent);
      }

  abbrev pub brl_to_customer : Amounts → Number
  brl_to_customer m = minus m.brl_exchanged (plus m.spread_brl m.okx_trading_fee)

  -- Once the commission is recorded its settlement is tried; what that answers is only logged.
  unfoldable pub settle_recorded : (now : ℕ) → ℕ → Option AffiliateCommission → Action Number
  settle_recorded now affiliate_id none = pure (literal 0 0)
  settle_recorded now affiliate_id (some c) = do
    settle_commission_usdt exchange.payouts now affiliate_id
    pure (to_number 2 c.commission_brl)

  -- The commission of the customer's affiliate in BRL, or 0.
  unfoldable pub commission_for_sale :
      Fresh
      → (customer_id : ℕ) → Option ℕ
      → (amount spread_brl rate : Number) → Option Affiliate
      → Action Number
  commission_for_sale fresh customer_id conversion_id amount spread_brl rate none =
      pure (literal 0 0)
  commission_for_sale fresh customer_id conversion_id amount spread_brl rate (some a) =
      if less (literal 0 0) spread_brl
      then (do
        commission ← record_commission N fresh.commission_id fresh.now (record {
          affiliate_id = a.id;
          customer_id = customer_id;
          conversion_id = conversion_id;
          conversion_type = some "SELL";
          transaction_id = none;
          transaction_amount = amount;
          spread_brl = spread_brl;
          exchange_rate = rate;
        })
        settle_recorded fresh.now a.id commission)
      else pure (literal 0 0)

  abbrev pub affiliate_id_of : Option Affiliate → Option ℕ
  affiliate_id_of none = none
  affiliate_id_of (some a) = some a.id

  abbrev pub credited :
      (now : ℕ) → Option Affiliate → Amounts → (commission : Number) → Conversion → Conversion
  credited now affiliate m commission c = record c {
    status = ConversionStatus.completed;
    affiliate_id = affiliate_id_of affiliate;
    affiliate_commission = some (brl commission);
    gross_profit = some (brl m.spread_brl);
    net_profit = some (brl (minus (minus m.spread_brl m.okx_trading_fee) commission));
    completed_at = some now;
  }

  abbrev pub credit_row :
      Fresh → (conversion_id account_id : ℕ) → Amounts → (before : Number) → Transaction
  credit_row fresh conversion_id account_id m before =
      record (row fresh.transaction_id account_id TransactionType.conversion
        TransactionStatus.completed (brl (brl_to_customer m)) (brl before)
        (brl (plus before (brl_to_customer m))) fresh.now) {
          sub_type = some "SELL";
          description = some (
              template (
                "Venda de "
                ∷ to_text m.usdt
                ∷ " USDT → R$ "
                ∷ fixed_text 2 (to_fixed 2 (brl_to_customer m))
                ∷ " (crédito em conta)"
                ∷ []));
          external_id = some (id_text conversion_id);
        }

  -- The `$transaction`: the balance, the conversion and the row.
  unfoldable pub post_credit :
      Transaction → (Conversion → Conversion) → (conversion_id : ℕ) → Action (Unit {0})
  post_credit t f conversion_id = transaction (do
    set_balance t.account_id t.balance_after
    update_conversion conversion_id f
    create_transaction t
    pure tt)

  -- `account` is the row as it was when the conversion was loaded.
  unfoldable pub credit_new_sale : Fresh → Conversion → Account → Action (Unit {0})
  credit_new_sale fresh c account = do
    purchased ← or_throw c.usdt_purchased no_amount
    affiliate ← gets (get_affiliate_for_customer c.customer_id)
    commission ←
        commission_for_sale fresh c.customer_id (some c.id)
          (amounts_of c (to_number 6 purchased)).brl_exchanged
          (amounts_of c (to_number 6 purchased)).spread_brl
          (amounts_of c (to_number 6 purchased)).exchange_rate affiliate
    post_credit
        (credit_row fresh c.id c.account_id (amounts_of c (to_number 6 purchased))
          (to_number 2 account.balance))
        (credited fresh.now affiliate (amounts_of c (to_number 6 purchased)) commission) c.id

  unfoldable pub credit_balance_to_customer : Fresh → Conversion → Account → Action (Unit {0})
  credit_balance_to_customer fresh c account = do
    existing ← gets λ db. find (is_credit_of c.id c.account_id) db.transactions
    elim existing [
      | none ↦ credit_new_sale fresh c account
      | some t ↦ (do update_conversion c.id (closed_at fresh.now); pure tt)
    ]

  unfoldable pub process_conversion :
      Fresh → Conversion → Account → List (Deposit N) → Action (Unit {0})
  process_conversion fresh c account deposits =
      if conversion_status_is c.status ConversionStatus.pending
      then check_deposit_confirmation N c deposits
      else if conversion_status_is c.status ConversionStatus.usdt_received
      then sell_usdt_for_brl c
      else if conversion_status_is c.status ConversionStatus.usdt_sold
      then credit_balance_to_customer fresh c account
      else pure tt

  -- `include: { account: true }` of a required relation.
  abbrev pub no_account : Error
  no_account = failure "Inconsistent query result: Field account is required to return data"

  unfoldable pub manual_process_conversion : Fresh → ℕ → Action (Option Conversion)
  manual_process_conversion fresh id = do
    c ← or_throw (← gets (conversion_by_id id)) (failure "Conversão não encontrada")
    account ← or_throw (← gets (account_by_id c.account_id)) no_account
    deposits ← λ db. (exchange.recent_deposits, db)
    process_conversion fresh c account deposits
    gets (conversion_by_id id)
