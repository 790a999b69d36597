-- ===== src/Conversions/Purchases.antt =====
-- `buyUsdtWithBrl` of src/wallet/wallet.service.ts from its checks to its `catch`.
use otsem_api.Common.{
  ℕ, String, Bool, true, false, not, ◌||◌, Option, none, some, [], ◌∷◌, or_text, template,
  if◌then◌else◌, str_eq,
}
use otsem_api.Numbers.{Numbers}
use otsem_api.Database.Enums.{ConversionStatus, ConversionType, WalletNetwork}
use otsem_api.Database.Rows.{Account, Affiliate, Customer, Conversion, Wallet}
use otsem_api.Database.Queries.{account_by_customer, customer_by_id}
use otsem_api.Database.Action.{
  Action, Result, Error, ok, err, bad_request, pure, gets, or_throw, throw_if, ◌>>=◌, ◌>>◌,
}
use otsem_api.Kyc.Limits.{Month, validate_transaction_limit}
use otsem_api.Affiliates.Links.{get_affiliate_for_customer}
use otsem_api.Wallets.Currencies.{network_name}
use otsem_api.Wallets.Management.{get_main_wallet}
use otsem_api.Wallets.Keeping.{get_wallet_by_id, mark_wallet_as_not_whitelisted}
use otsem_api.Conversions.Rows.{update_conversion, insert_conversion}
use otsem_api.Conversions.Selling.{Fresh, affiliate_id_of}
use otsem_api.Conversions.Messages.{is_okx_whitelist_error_message}
use otsem_api.Conversions.Buying.{Services, Purchase, pay_purchase, failed_with}

-- The message that the customer reads.
abbrev pub public_message : String → String
public_message raw =
    if is_okx_whitelist_error_message raw
    then "Endereço não confirmado na whitelist da OKX. Autorize o endereço no app/web da OKX e tente novamente."
    else raw

abbrev pub mark_if : Bool → ℕ → Action (Unit {0})
mark_if true id = mark_wallet_as_not_whitelisted (some id)
mark_if false id = pure tt

module _ {N : Numbers} (services : Services N) (message : Error → String) where
  open N use {Number, literal, minus, times, less, to_fixed, to_number, to_column}

  -- The `catch`: the conversion fails, and the call throws.
  unfoldable pub fail_purchase : Purchase services → Error → Action Number
  fail_purchase p e = do
    mark_if (is_okx_whitelist_error_message (message e)) p.wallet.id
    update_conversion p.fresh.conversion_id (failed_with (public_message (message e)))
    λ db. (
      err (bad_request (template ("Erro na compra USDT: " ∷ public_message (message e) ∷ []))),
      db,
    )

  -- The `try` with its `catch`; `message` is the text of an exception.
  unfoldable pub try_purchase : Purchase services → Action Number
  try_purchase p db =
      let (r, db') = pay_purchase services p db in
      elim r [ ok usdt ↦ (ok usdt, db') | err e ↦ fail_purchase p e db' ]

  -- A missing, infinite or non-positive multiplier counts as 1.
  abbrev pub spread_rate : Option Customer → Number
  spread_rate none = literal 1 0
  spread_rate (some c) = elim c.user_spread_value [
    | none ↦ literal 1 0
    | some v ↦ if less (literal 0 0) (to_number 4 v) then to_number 4 v else literal 1 0
  ]

  abbrev pub total_spread : Option Customer → Number
  total_spread c = minus (literal 1 0) (spread_rate c)

  -- `Number(x.toFixed(2))`
  abbrev pub to_cents : Number → Number
  to_cents x = to_number 2 (to_fixed 2 x)

  -- The wallet that was asked for, or the main one on Solana, or the main one on Tron.
  unfoldable pub destination : ℕ → Option ℕ → Action (Option Wallet)
  destination customer_id (some id) = do w ← get_wallet_by_id id (some customer_id); pure (some w)
  destination customer_id none = gets λ db.
      elim (get_main_wallet customer_id WalletNetwork.solana db) [
        | some w ↦ some w
        | none ↦ get_main_wallet customer_id WalletNetwork.tron db
      ]

  abbrev pub no_wallet : Error
  no_wallet = bad_request "Carteira (Solana ou Tron) não encontrada para o cliente"

  -- The wallet with its address, which is not empty.
  abbrev pub addressed : Option Wallet → Result (Wallet × String)
  addressed none = err no_wallet
  addressed (some w) =
      let address = or_text w.external_address "" in
      if str_eq address "" then err no_wallet else ok (w, address)

  abbrev pub purchase_conversion : Purchase services → (spread_percent : Number) → Conversion
  purchase_conversion p spread_percent = record {
    id = p.fresh.conversion_id;
    customer_id = p.customer_id;
    account_id = p.account.id;
    transaction_id = none;
    kind = ConversionType.buy;
    brl_charged = to_column 2 p.brl_amount;
    brl_exchanged = to_column 2 p.brl_to_exchange;
    spread_percent = to_column 4 spread_percent;
    spread_brl = to_column 2 p.spread_brl;
    usdt_purchased = none;
    usdt_withdrawn = none;
    exchange_rate = none;
    network = network_name p.wallet.network;
    wallet_address = p.address;
    wallet_id = some p.wallet.id;
    pix_end_to_end = none;
    pix_txid = none;
    okx_order_id = none;
    okx_withdraw_id = none;
    okx_deposit_id = none;
    tx_hash = none;
    affiliate_id = affiliate_id_of services.exchange p.affiliate;
    affiliate_commission = none;
    okx_withdraw_fee = none;
    okx_trading_fee = none;
    total_okx_fees = none;
    gross_profit = none;
    net_profit = none;
    status = ConversionStatus.pending;
    error_message = none;
    created_at = p.fresh.now;
    completed_at = none;
  }

  unfoldable pub start_purchase : Purchase services → (spread_percent : Number) → Action Number
  start_purchase p spread_percent = do
    insert_conversion (purchase_conversion p spread_percent)
    try_purchase p

  abbrev pub insufficient : Error
  insufficient = bad_request "Saldo insuficiente em BRL (mínimo R$10)"

  abbrev pub enough_balance : Number → Account → Result Account
  enough_balance amount a =
      if less (to_number 2 a.balance) amount || less amount (literal 10 0)
      then err insufficient
      else ok a

  abbrev pub exchanged : Number → Option Customer → Number
  exchanged brl_amount c = to_cents (times brl_amount (minus (literal 1 0) (total_spread c)))

  abbrev pub spread_amount : Number → Option Customer → Number
  spread_amount brl_amount c = to_cents (minus brl_amount (exchanged brl_amount c))

  unfoldable pub address_purchase :
      Fresh → ℕ → Account → Number → Option ℕ → Option Customer → Option Affiliate → Action Number
  address_purchase fresh customer_id account brl_amount wallet_id customer affiliate = do
    chosen ← destination customer_id wallet_id
    target ← λ db. (addressed chosen, db)
    start_purchase
        (record {
          fresh = fresh;
          customer_id = customer_id;
          account = account;
          wallet = target.0;
          address = target.1;
          brl_amount = brl_amount;
          brl_to_exchange = exchanged brl_amount customer;
          spread_brl = spread_amount brl_amount customer;
          affiliate = affiliate;
        })
        (total_spread customer)

  unfoldable pub price_purchase : Fresh → ℕ → Account → Number → Option ℕ → Action Number
  price_purchase fresh customer_id account brl_amount wallet_id = do
    customer ← gets (customer_by_id customer_id)
    affiliate ← gets (get_affiliate_for_customer customer_id)
    address_purchase fresh customer_id account brl_amount wallet_id customer affiliate

  -- The answer is the USDT that was withdrawn.
  unfoldable pub buy_usdt_with_brl : Fresh → Month → ℕ → Number → Option ℕ → Action Number
  buy_usdt_with_brl fresh month customer_id brl_amount wallet_id = do
    found ← or_throw (← gets (account_by_customer customer_id)) insufficient
    account ← λ db. (enough_balance brl_amount found, db)
    limit ← validate_transaction_limit N month customer_id brl_amount
    throw_if (not limit.0) (bad_request (or_text limit.1 ""))
    price_purchase fresh customer_id account brl_amount wallet_id
