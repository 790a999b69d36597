-- ===== src/Conversions/PurchaseTests.antt =====
-- Purchases with scaled integers for numbers, and their theorems at them.
use otsem_api.Common.{
  pos, String, ◌*◌, ◌/◌, ◌≡◌, refl, false, true, none, some, [], ◌∷◌, find, any, show_ℕ, Option,
  true,
}
use otsem_api.Samples.{affiliate, scale, scaled, bank, customer, account, wallet}
use otsem_api.Database.Enums.{ConversionStatus, WalletNetwork, network_is}
use otsem_api.Database.Rows.{Affiliate, Conversion, Database}
use otsem_api.Database.Tables.{update_where}
use otsem_api.Database.Queries.{
  account_by_customer, account_by_id, customer_by_id, create_transaction, transaction_clash,
  transaction_by_id, transaction_by_external_id,
}
use otsem_api.Database.Action.{Error, Result, ok, err, failure, pure, is_ok}
use otsem_api.Kyc.Limits.{
  Month, config_by, get_monthly_limit, get_monthly_usage, validate_transaction_limit,
}
use otsem_api.Affiliates.Commissions.{affiliate_by_id}
use otsem_api.Affiliates.Links.{get_affiliate_for_customer}
use otsem_api.Boleto.Payments.{wallet_by_id}
use otsem_api.Wallets.Keeping.{get_wallet_by_id, mark_wallet_as_not_whitelisted, update_wallet}
use otsem_api.Conversions.Rows.{conversion_by_id, update_conversion, insert_conversion}
use otsem_api.Conversions.Selling.{Exchange, Fresh}
use otsem_api.Conversions.Messages.{is_okx_whitelist_error_message}
use otsem_api.Conversions.Buying.{
  Services, Purchase, complete_purchase, commission_for_purchase, share_purchase, withdraw_purchase,
  filled, record_purchase, exchange_purchase, pay_purchase,
}
use otsem_api.Conversions.Purchases.{
  fail_purchase, try_purchase, start_purchase, destination, address_purchase, price_purchase,
  buy_usdt_with_brl, spread_amount, purchase_conversion,
}
use otsem_api.Conversions.Outcomes.{try_purchase_failed}
use otsem_api.Conversions.Affiliated.{buy_usdt_with_brl_refused}

purchases : Unit {0}
unfolding account_by_id customer_by_id create_transaction transaction_clash transaction_by_id
    transaction_by_external_id affiliate_by_id conversion_by_id update_conversion insert_conversion
    is_okx_whitelist_error_message complete_purchase commission_for_purchase share_purchase
    withdraw_purchase filled record_purchase exchange_purchase pay_purchase fail_purchase
    try_purchase update_where find any show_ℕ wallet_by_id destination address_purchase
    price_purchase buy_usdt_with_brl account_by_customer get_affiliate_for_customer get_wallet_by_id
    validate_transaction_limit get_monthly_usage get_monthly_limit config_by network_is
    mark_wallet_as_not_whitelisted update_wallet
purchases = tt

abbrev exchange : Exchange scaled
exchange = record {
  recent_deposits = ok [];
  transfer_usdt_to_trading = λ _. ok tt;
  sell_usdt_for_brl = λ usdt. err (failure "offline");
  brl_to_usdt_rate = ok (5 * scale);
  payouts = record {
    send_usdt = λ _ _. err (failure "offline");
    transfer_to_funding = λ _. err (failure "offline");
    withdraw_usdt = λ _ _. err (failure "offline");
  };
}

-- USDT costs R$ 5, and the withdrawal answers as given.
abbrev services : Result (Option String) → Services scaled
services withdrawal = record {
  exchange = exchange;
  send_pix = λ _ _. pure (record { end_to_end = some "E1"; txid = none });
  buy_and_check_history =
      λ brl. ok (record { order_id = some "order"; fills = 10 * scale ∷ 8 * scale ∷ [] });
  transfer_from_trading_to_funding = λ _. ok tt;
  withdraw_usdt_simple = λ _ _ _ _. withdrawal;
}

abbrev agency : Database
agency = record bank {
  affiliates = affiliate 1 "A" ∷ [];
  wallets = wallet 5 10 WalletNetwork.solana "USDT" ∷ [];
}

-- R$ 100, of which R$ 90 go to the exchange.
abbrev purchase : (w : Result (Option String)) → Option Affiliate → Purchase (services w)
purchase w a = record {
  fresh = record { transaction_id = 40; commission_id = 41; conversion_id = 42; now = 7 };
  customer_id = 10;
  account = account 1 10 "k1";
  wallet = wallet 5 10 WalletNetwork.solana "USDT";
  address = "So1";
  brl_amount = 100 * scale;
  brl_to_exchange = 90 * scale;
  spread_brl = 10 * scale;
  affiliate = a;
}

abbrev message : Error → String
message e = "58207: not in verified addresses"

recognised :
    (is_okx_whitelist_error_message "Withdrawal address is not in Verified Addresses" ≡ true)
    × (is_okx_whitelist_error_message "Insufficient balance" ≡ false)
unfolding purchases
recognised = (refl, refl)

abbrev refused : Result (Option String)
refused = err (failure "58207")

abbrev started : Database
started =
    (insert_conversion (purchase_conversion (services refused) message (purchase refused none) 0)
      agency).1

abbrev after_refusal : Database
after_refusal = (try_purchase (services refused) message (purchase refused none) started).1

refusal :
    (is_ok (try_purchase (services refused) message (purchase refused none) started).0 ≡ false)
    × ((y : Conversion) × (conversion_by_id 42 after_refusal ≡ some y))
unfolding purchases
refusal = (refl, (_, refl))

try_purchase_failed_example : refusal.1.0.status ≡ ConversionStatus.failed
try_purchase_failed_example =
    try_purchase_failed (services refused) message (purchase refused none) started refusal.1.0
      refusal.0 refusal.1.1

abbrev sent : Result (Option String)
sent = ok (some "W1")

abbrev month : Month
month = record { start = 0; stop = 1000 }

abbrev fresh : Fresh
fresh = record { transaction_id = 40; commission_id = 41; conversion_id = 42; now = 7 }

-- Nine tenths of what Ana and Bia pay go to the exchange. Ana comes from the affiliate.
abbrev trading : Database
trading = record agency {
  customers =
      record (customer 10 "Ana" "ana") {
        affiliate_id = some 1;
        user_spread_value = some (pos 9_000);
      }
      ∷ record (customer 20 "Bia" "bia") { user_spread_value = some (pos 9_000) }
      ∷ [];
  accounts =
      record (account 1 10 "k1") { balance = pos 20_000 }
      ∷ record (account 2 20 "k2") { balance = pos 20_000 }
      ∷ [];
  wallets =
      record (wallet 5 10 WalletNetwork.solana "USDT") { external_address = some "So1" }
      ∷ record (wallet 6 20 WalletNetwork.tron "USDT") { external_address = some "T1" }
      ∷ [];
}

-- Bia is served on Tron, whose fee is 2.1 USDT.
served :
    (buy_usdt_with_brl (services sent) message fresh month 20 (100 * scale) (some 6) trading).0
    ≡ ok (159 * scale / 10)
unfolding purchases start_purchase
served = refl

trading_known :
    (get_affiliate_for_customer 10 trading ≡ some (affiliate 1 "A"))
    × (transaction_by_id 42 trading ≡ none)
unfolding purchases
trading_known = (refl, refl)

spread_known :
    scaled.less
      (scaled.literal 0 0)
      (spread_amount (services sent) message (100 * scale) (customer_by_id 10 trading))
    ≡ true
unfolding purchases
spread_known = refl

buy_usdt_with_brl_refused_example :
    is_ok
      (buy_usdt_with_brl (services sent) message fresh month 10 (100 * scale) (some 5) trading).0
    ≡ false
buy_usdt_with_brl_refused_example =
    buy_usdt_with_brl_refused (services sent) message fresh 10 (100 * scale) (some 5)
      (affiliate 1 "A") (λ _ _ _. (refl, λ h. h)) refl trading trading_known.0 spread_known
      trading_known.1 month
