-- ===== src/Boleto/Quotes.antt =====
-- `getQuote`, and the helpers for rates and balances at the end of
-- src/boleto-payments/boleto-payments.service.ts. What the exchange and the chains answer is a
-- parameter.
use otsem_api.Common.{
  String, Bool, not, none, some, List, [], ◌∷◌, any, str_eq, template, if◌then◌else◌,
}
use otsem_api.Numbers.{Numbers}
use otsem_api.Database.Enums.{WalletNetwork, network_is}
use otsem_api.Database.Rows.{Wallet}
use otsem_api.Database.Action.{
  Action, Result, ok, err, bad_request, pure, throw, throw_if, ◌>>=◌, ◌>>◌,
}

abbrev pub supported_currencies : List String
supported_currencies = "USDT" ∷ "SOL" ∷ "TRX" ∷ []

unfoldable pub is_unsupported : String → Bool
is_unsupported currency = not (any (str_eq currency) supported_currencies)

module _ (N : Numbers) where
  open N use {Number, literal, plus, times, over, less, round, to_number}

  -- The answers of OKX and of the chains: a ticker or a balance may fail.
  pub record Market : Type 0 where
    pub usdt_brl_rate : Number
    pub ticker_price : String → Result Number
    pub sol_balance : String → Result Number
    pub trx_balance : String → Result Number

  abbrev pub service_fee_rate : Number
  service_fee_rate = literal 3 2

  pub record Quote : Type 0 where
    pub boleto_amount : Number
    pub service_fee : Number
    pub service_fee_pct : Number
    pub total_brl : Number
    pub crypto_currency : String
    pub exchange_rate : Number
    pub crypto_amount : Number

module _ {N : Numbers} (market : Market N) where
  open N use {Number, literal, plus, times, over, less, round, to_number}

  abbrev lift : {A : Type 0} → Result A → Action A
  lift r db = (r, db)

  -- `catch` turns any failure of the ticker into one message.
  abbrev ticker_or_throw : String → Result Number → Action Number
  ticker_or_throw pair (ok x) = pure x
  ticker_or_throw pair (err _) =
      throw (bad_request (template ("Não foi possível obter cotação para " ∷ pair ∷ [])))

  unfoldable pub get_crypto_to_brl_rate : String → Action Number
  get_crypto_to_brl_rate currency =
      if str_eq currency "USDT"
      then pure market.usdt_brl_rate
      else if str_eq currency "SOL"
      then (do
        price ← ticker_or_throw "SOL-USDT" (market.ticker_price "SOL-USDT")
        pure (times price market.usdt_brl_rate))
      else if str_eq currency "TRX"
      then (do
        price ← ticker_or_throw "TRX-USDT" (market.ticker_price "TRX-USDT")
        pure (times price market.usdt_brl_rate))
      else throw (bad_request (template ("Moeda não suportada: " ∷ currency ∷ [])))

  -- `Math.round(x * s) / s`
  abbrev rounded : Number → Number → Number
  rounded s x = over (round (times x s)) s

  unfoldable pub unsupported_message : String
  unsupported_message = "Moeda não suportada. Moedas aceitas: USDT, SOL, TRX"

  unfoldable pub get_quote : Number → String → Action (Quote N)
  unfolding get_crypto_to_brl_rate is_unsupported unsupported_message
  get_quote boleto_amount crypto_currency = do
    throw_if (is_unsupported crypto_currency) (bad_request unsupported_message)
    throw_if (less boleto_amount (literal 1 0))
        (bad_request "O valor do boleto deve ser no mínimo R$ 1,00")
    let service_fee = times boleto_amount (service_fee_rate N)
    let total_brl = plus boleto_amount service_fee
    exchange_rate ← get_crypto_to_brl_rate crypto_currency
    let crypto_amount = over total_brl exchange_rate
    pure (record {
      boleto_amount = boleto_amount;
      service_fee = rounded (literal 100 0) service_fee;
      service_fee_pct = times (service_fee_rate N) (literal 100 0);
      total_brl = rounded (literal 100 0) total_brl;
      crypto_currency = crypto_currency;
      exchange_rate = rounded (literal 10_000 0) exchange_rate;
      crypto_amount = rounded (literal 100_000_000 0) crypto_amount;
    })

  abbrev chain_balance : WalletNetwork → String → (String → Result Number) → Wallet → Action Number
  chain_balance network wrong balance wallet =
      if not (network_is wallet.network network)
      then throw (bad_request wrong)
      else elim wallet.external_address [
        | none ↦ throw (bad_request "Wallet sem endereço externo")
        | some address ↦
            if str_eq address ""
            then throw (bad_request "Wallet sem endereço externo")
            else lift (balance address)
      ]

  unfoldable pub get_wallet_crypto_balance : Wallet → String → Action Number
  get_wallet_crypto_balance wallet currency =
      if str_eq currency "USDT"
      then pure (to_number 8 wallet.balance)
      else if str_eq currency "SOL"
      then chain_balance WalletNetwork.solana
          "Para pagar com SOL, selecione uma wallet na rede Solana" market.sol_balance wallet
      else if str_eq currency "TRX"
      then chain_balance WalletNetwork.tron "Para pagar com TRX, selecione uma wallet na rede Tron"
          market.trx_balance wallet
      else throw (bad_request (template ("Moeda não suportada: " ∷ currency ∷ [])))
