-- ===== src/Conversions/Buying.antt =====
-- `buyUsdtWithBrl` of src/wallet/wallet.service.ts, stage by stage. The exchange and the sending of a
-- Pix are parameters; the JSON that is kept beside a payment and a transaction is left out.
use otsem_api.Common.{
  ℕ, String, Bool, not, Option, none, some, List, [], ◌∷◌, or_else, or_kept, template, fixed_text,
  if◌then◌else◌,
}
use otsem_api.Numbers.{Numbers}
use otsem_api.Database.Enums.{
  ConversionStatus, TransactionType, TransactionStatus, WalletNetwork, network_is,
}
use otsem_api.Database.Rows.{Account, Affiliate, Conversion, Transaction, Wallet}
use otsem_api.Database.Queries.{transaction_by_external_id, create_transaction}
use otsem_api.Database.Action.{Action, Result, failure, pure, gets, throw_if, ◌>>=◌, ◌>>◌}
use otsem_api.Ledger.Rows.{row}
use otsem_api.Affiliates.Commissions.{record_commission}
use otsem_api.Conversions.Rows.{id_text, update_conversion}
use otsem_api.Conversions.Selling.{Exchange, Fresh, settle_recorded}

-- The answer of `bankingGateway.sendPix`.
pub record PixAnswer : Type 0 where
  pub end_to_end : Option String
  pub txid : Option String

-- The answer of `buyAndCheckHistory`, with the size of each fill read as a number.
pub record Bought (N : Numbers) : Type 0 where
  pub order_id : Option String
  pub fills : List N.Number

pub record Services (N : Numbers) : Type 0 where
  pub exchange : Exchange N
  pub send_pix : ℕ → N.Number → Action PixAnswer
  pub buy_and_check_history : N.Number → Result (Bought N)
  pub transfer_from_trading_to_funding : String → Result (Unit {0})
  pub withdraw_usdt_simple : (amount address network fee : String) → Result (Option String)

abbrev pub with_status : ConversionStatus → Conversion → Conversion
with_status s c = record c { status = s }

abbrev pub failed_with : String → Conversion → Conversion
failed_with message c = record c { status = ConversionStatus.failed; error_message = some message }

module _ {N : Numbers} (services : Services N) where
  open N use {
    Number, literal, plus, minus, times, over, less, to_fixed, to_number, to_column, to_text,
  }

  -- What is settled once the conversion is created.
  pub record Purchase : Type 0 where
    pub fresh : Fresh
    pub customer_id : ℕ
    pub account : Account
    pub wallet : Wallet
    pub address : String
    pub brl_amount : Number
    pub brl_to_exchange : Number
    pub spread_brl : Number
    pub affiliate : Option Affiliate

  abbrev pub is_tron : Purchase → Bool
  is_tron p = network_is p.wallet.network WalletNetwork.tron

  abbrev pub network_fee : Purchase → Number
  network_fee p = if is_tron p then literal 21 1 else literal 1 0

  -- `x.toFixed(2)`
  abbrev pub money_text : Number → String
  money_text x = fixed_text 2 (to_fixed 2 x)

  -- Down to the columns of the conversion, which is closed.
  abbrev pub completed_purchase :
      Purchase
      → (usdt commission : Number) → Option Transaction
      → Option String
      → Conversion
      → Conversion
  completed_purchase p usdt commission tx withdraw_id c =
      let trading_fee = times p.brl_to_exchange (literal 1 3) in
      record c {
        transaction_id = elim tx [ none ↦ c.transaction_id | some t ↦ some t.id ];
        usdt_withdrawn = some (to_column 6 (minus usdt (network_fee p)));
        okx_withdraw_id = or_else withdraw_id none;
        affiliate_commission = some (to_column 2 commission);
        okx_withdraw_fee = some (to_column 6 (network_fee p));
        okx_trading_fee = some (to_column 2 trading_fee);
        total_okx_fees = some (to_column 2 trading_fee);
        gross_profit = some (to_column 2 p.spread_brl);
        net_profit = some (to_column 2 (minus (minus p.spread_brl trading_fee) commission));
        status = ConversionStatus.completed;
        completed_at = some p.fresh.now;
      }

  unfoldable pub complete_purchase :
      Purchase → (usdt : Number) → Option String → (commission : Number) → Action Number
  complete_purchase p usdt withdraw_id commission = do
    tx ← gets (transaction_by_external_id (id_text p.fresh.conversion_id))
    update_conversion p.fresh.conversion_id (completed_purchase p usdt commission tx withdraw_id)
    pure (minus usdt (network_fee p))

  -- The commission names the conversion as its transaction.
  unfoldable pub commission_for_purchase :
      Purchase → (rate : Number) → Option Affiliate → Action Number
  commission_for_purchase p rate none = pure (literal 0 0)
  commission_for_purchase p rate (some a) =
      if less (literal 0 0) p.spread_brl
      then (do
        commission ← record_commission N p.fresh.commission_id p.fresh.now (record {
          affiliate_id = a.id;
          customer_id = p.customer_id;
          conversion_id = some p.fresh.conversion_id;
          conversion_type = some "BUY";
          transaction_id = some p.fresh.conversion_id;
          transaction_amount = p.brl_amount;
          spread_brl = p.spread_brl;
          exchange_rate = rate;
        })
        settle_recorded services.exchange p.fresh.now a.id commission)
      else pure (literal 0 0)

  unfoldable pub share_purchase : Purchase → (usdt : Number) → Option String → Action Number
  share_purchase p usdt withdraw_id = do
    commission ← commission_for_purchase p (over p.brl_to_exchange usdt) p.affiliate
    complete_purchase p usdt withdraw_id commission

  -- The status is written before the USDT is sent.
  unfoldable pub withdraw_purchase : Purchase → (usdt : Number) → Action Number
  withdraw_purchase p usdt = do
    update_conversion p.fresh.conversion_id (with_status ConversionStatus.usdt_withdrawn)
    throw_if (not (less (literal 0 0) (minus usdt (network_fee p)))) (
        failure (
          template (
            "USDT comprado ("
            ∷ to_text usdt
            ∷ ") insuficiente para cobrir taxa de rede ("
            ∷ to_text (network_fee p)
            ∷ ")"
            ∷ [])))
    λ db. (services.transfer_from_trading_to_funding (money_text usdt), db)
    withdraw_id ← λ db. (
      services.withdraw_usdt_simple (money_text (minus usdt (network_fee p))) p.address
          (if is_tron p then "TRC20" else "Solana") (to_text (network_fee p)),
      db,
    )
    share_purchase p usdt withdraw_id

  -- The row of a purchase moves no balance.
  abbrev pub purchase_row : Purchase → PixAnswer → (usdt : Number) → Transaction
  purchase_row p pix usdt =
      record (row p.fresh.transaction_id p.account.id TransactionType.conversion
        TransactionStatus.completed (to_column 2 p.brl_amount) p.account.balance p.account.balance
        p.fresh.now) {
          sub_type = some "BUY";
          description = some (
              template (
                "Conversão BRL→USDT: R$ "
                ∷ money_text p.brl_amount
                ∷ " → "
                ∷ money_text usdt
                ∷ " USDT"
                ∷ []));
          external_id = some (id_text p.fresh.conversion_id);
          end_to_end = pix.end_to_end;
          completed_at = some p.fresh.now;
        }

  abbrev pub bought : Purchase → (usdt : Number) → Option String → Conversion → Conversion
  bought p usdt order_id c = record c {
    usdt_purchased = some (to_column 6 usdt);
    exchange_rate = some (to_column 4 (over p.brl_to_exchange usdt));
    okx_order_id = or_else order_id none;
  }

  -- `detalhes.reduce((sum, fill) => sum + parseFloat(fill.fillSz || '0'), 0)`
  unfoldable pub filled : Number → List Number → Number
  filled sum [] = sum
  filled sum (x ∷ xs) = filled (plus sum x) xs

  unfoldable pub record_purchase :
      Purchase → PixAnswer → (usdt : Number) → Option String → Action Number
  record_purchase p pix usdt order_id = do
    throw_if (not (less (literal 0 0) usdt))
        (failure "Não foi possível determinar a quantidade de USDT comprada")
    update_conversion p.fresh.conversion_id (bought p usdt order_id)
    create_transaction (purchase_row p pix usdt)
    withdraw_purchase p usdt

  unfoldable pub exchange_purchase : Purchase → PixAnswer → Action Number
  exchange_purchase p pix = do
    update_conversion p.fresh.conversion_id (with_status ConversionStatus.usdt_bought)
    b ← λ db. (services.buy_and_check_history p.brl_to_exchange, db)
    record_purchase p pix (filled (literal 0 0) b.fills) b.order_id

  abbrev pub paid_by : PixAnswer → Conversion → Conversion
  paid_by pix c = record c {
    pix_end_to_end = or_kept pix.end_to_end c.pix_end_to_end;
    pix_txid = or_kept pix.txid c.pix_txid;
  }

  -- The body of the `try`.
  unfoldable pub pay_purchase : Purchase → Action Number
  pay_purchase p = do
    update_conversion p.fresh.conversion_id (with_status ConversionStatus.pix_sent)
    pix ← services.send_pix p.customer_id p.brl_amount
    update_conversion p.fresh.conversion_id (paid_by pix)
    exchange_purchase p pix
