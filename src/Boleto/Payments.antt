-- ===== src/Boleto/Payments.antt =====
-- The customer's calls of src/boleto-payments/boleto-payments.service.ts: create, list, read and
-- cancel. None of them runs in `$transaction`, so what was written before a throw stays.
use otsem_api.Common.{
  ℕ, ℤ, pos, String, Bool, true, not, ◌&&◌, Option, none, some, List, [], ◌∷◌, ◌==◌, ◌+ℤ◌, ◌-ℤ◌,
  find, any, select, str_eq, template, trim, fixed_text, if◌then◌else◌,
}
use otsem_api.Numbers.{Numbers}
use otsem_api.Database.Enums.{BoletoPaymentStatus, boleto_status_is}
use otsem_api.Database.Rows.{Wallet, BoletoPayment, Database}
use otsem_api.Database.Tables.{by, update_where}
use otsem_api.Database.Paging.{order_desc}
use otsem_api.Database.Action.{
  Action, bad_request, not_found, record_missing, unique_violation, pure, throw_if, gets, or_throw,
  modify, ◌>>=◌, ◌>>◌,
}
use otsem_api.Boleto.Quotes.{
  Market, service_fee_rate, is_unsupported, unsupported_message, get_crypto_to_brl_rate,
  get_wallet_crypto_balance,
}

unfoldable pub wallet_by_id : ℕ → Database → Option Wallet
wallet_by_id id db = find (by (λ w. w.id) id) db.wallets

unfoldable pub payment_by_id : ℕ → Database → Option BoletoPayment
payment_by_id id db = find (by (λ b. b.id) id) db.boleto_payments

-- `findFirst({ where: { id, customerId } })`
unfoldable pub payment_of_customer : ℕ → ℕ → Database → Option BoletoPayment
payment_of_customer id customer_id db =
    find (λ b. b.id == id && b.customer_id == customer_id) db.boleto_payments

abbrev pub add_balance : ℤ → Wallet → Wallet
add_balance x w = record w { balance = w.balance +ℤ x }

-- `wallet.update({ where: { id }, data: { balance: { increment } } })`; a decrement adds the
-- opposite.
unfoldable pub increment_wallet : ℕ → ℤ → Action (Unit {0})
increment_wallet id x = do
  or_throw (← gets (wallet_by_id id)) record_missing
  modify λ db. record db { wallets = update_where (by (λ w. w.id) id) (add_balance x) db.wallets }

-- `boletoPayment.update({ where: { id }, data })`
unfoldable pub update_payment : ℕ → (BoletoPayment → BoletoPayment) → Action BoletoPayment
update_payment id f = do
  b ← or_throw (← gets (payment_by_id id)) record_missing
  modify λ db. record db { boleto_payments = update_where (by (λ b. b.id) id) f db.boleto_payments }
  pure (f b)

-- `boletoPayment.create`
unfoldable pub create_payment : BoletoPayment → Action BoletoPayment
create_payment b = do
  throw_if (any (by (λ c. c.id) b.id) (← gets (λ db. db.boleto_payments))) unique_violation
  modify λ db. record db { boleto_payments = b ∷ db.boleto_payments }
  pure b

abbrev pub with_status : BoletoPaymentStatus → BoletoPayment → BoletoPayment
with_status s b = record b { status = s }

-- The refund of `cancelBoletoPayment` and of `adminRejectBoletoPayment`.
unfoldable pub refund : BoletoPayment → Action (Unit {0})
refund payment =
    if str_eq payment.crypto_currency "USDT"
    then increment_wallet payment.wallet_id payment.crypto_amount
    else pure tt

unfoldable pub cancel_boleto_payment : ℕ → ℕ → Action BoletoPayment
cancel_boleto_payment id customer_id = do
  payment ←
      or_throw (← gets (payment_of_customer id customer_id))
        (not_found "Pagamento de boleto não encontrado")
  throw_if (not (boleto_status_is payment.status BoletoPaymentStatus.pending_approval))
      (bad_request "Apenas pagamentos com status PENDING_APPROVAL podem ser cancelados")
  refund payment
  update_payment id (with_status BoletoPaymentStatus.cancelled)

abbrev pub status_fits : Option BoletoPaymentStatus → BoletoPayment → Bool
status_fits none b = true
status_fits (some s) b = boleto_status_is b.status s

unfoldable pub get_customer_boleto_payments :
    ℕ → Option BoletoPaymentStatus → Action (List BoletoPayment)
get_customer_boleto_payments customer_id status = gets λ db.
    order_desc (λ b. b.created_at)
      (select (λ b. b.customer_id == customer_id && status_fits status b) db.boleto_payments)

unfoldable pub get_boleto_payment_by_id : ℕ → ℕ → Action BoletoPayment
get_boleto_payment_by_id id customer_id = do
  or_throw (← gets (payment_of_customer id customer_id))
      (not_found "Pagamento de boleto não encontrado")

module _ {N : Numbers} (market : Market N) where
  open N use {Number, literal, plus, times, over, less, to_fixed}

  insufficient_message : Number → Number → String → String
  insufficient_message needed available currency = template (
      "Saldo insuficiente. Necessário: "
      ∷ fixed_text 8 (to_fixed 8 needed)
      ∷ " "
      ∷ currency
      ∷ ", disponível: "
      ∷ fixed_text 8 (to_fixed 8 available)
      ∷ " "
      ∷ currency
      ∷ [])

  -- For USDT the wallet pays at once; for SOL and TRX only the amount is recorded.
  unfoldable pub debit_wallet : ℕ → String → Number → Action (Unit {0})
  debit_wallet wallet_id currency needed =
      if str_eq currency "USDT"
      then increment_wallet wallet_id (pos 0 -ℤ to_fixed 8 needed)
      else pure tt

  unfoldable pub payment_row :
      (id now customer_id : ℕ)
      → String
      → Number
      → ℕ
      → Wallet
      → String
      → Option String
      → Number
      → BoletoPayment
  payment_row id now customer_id barcode boleto_amount wallet_id wallet currency description
        exchange_rate =
      let service_fee = times boleto_amount (service_fee_rate N) in
      let total_brl = plus boleto_amount service_fee in
      record {
        id = id;
        customer_id = customer_id;
        barcode = trim barcode;
        description = description;
        boleto_amount = to_fixed 2 boleto_amount;
        service_fee = to_fixed 2 service_fee;
        total_brl = to_fixed 2 total_brl;
        crypto_amount = to_fixed 8 (over total_brl exchange_rate);
        crypto_currency = currency;
        network = wallet.network;
        wallet_id = wallet_id;
        exchange_rate = to_fixed 4 exchange_rate;
        status = BoletoPaymentStatus.pending_approval;
        admin_notes = none;
        paid_by_admin_at = none;
        paid_by_admin_id = none;
        error_message = none;
        created_at = now;
      }

  -- From the check of the balance on.
  unfoldable pub charge_wallet :
      (id now customer_id : ℕ)
      → String
      → Number
      → ℕ
      → Wallet
      → String
      → Option String
      → Number
      → Action BoletoPayment
  unfolding insufficient_message
  charge_wallet id now customer_id barcode boleto_amount wallet_id wallet currency description
        exchange_rate =
      do
        let total_brl = plus boleto_amount (times boleto_amount (service_fee_rate N))
        let needed = over total_brl exchange_rate
        available ← get_wallet_crypto_balance market wallet currency
        throw_if (less available needed)
            (bad_request (insufficient_message needed available currency))
        debit_wallet wallet_id currency needed
        create_payment (
            payment_row id now customer_id barcode boleto_amount wallet_id wallet currency
              description exchange_rate)

  -- `findFirst({ where: { id: walletId, customerId, isActive: true } })`
  unfoldable pub owned_wallet : ℕ → ℕ → Database → Option Wallet
  owned_wallet wallet_id customer_id db =
      find (λ w. w.id == wallet_id && w.customer_id == customer_id && w.is_active) db.wallets

  unfoldable pub create_boleto_payment :
      (id now customer_id : ℕ) → String → Number → ℕ → String → Option String → Action BoletoPayment
  unfolding is_unsupported unsupported_message
  create_boleto_payment id now customer_id barcode boleto_amount wallet_id currency description = do
    throw_if (is_unsupported currency) (bad_request (unsupported_message market))
    throw_if (less boleto_amount (literal 1 0))
        (bad_request "O valor do boleto deve ser no mínimo R$ 1,00")
    throw_if (str_eq (trim barcode) "") (bad_request "O código de barras do boleto é obrigatório")
    wallet ←
        or_throw (← gets (owned_wallet wallet_id customer_id))
          (not_found "Wallet não encontrada ou não pertence ao cliente")
    exchange_rate ← get_crypto_to_brl_rate market currency
    charge_wallet id now customer_id barcode boleto_amount wallet_id wallet currency description
        exchange_rate
