-- ===== src/Boleto/Creation.antt =====
-- What `createBoletoPayment` does to the USDT of a wallet.
use otsem_api.Common.{
  ℕ, pos, String, true, false, ◌≡◌, ◌≢◌, Option, none, some, ◌∷◌, arith, ◌-ℤ◌, str_eq, any,
  Option-cases, inl, inr, ◌⊎◌,
}
use otsem_api.Numbers.{Numbers}
use otsem_api.Database.Enums.{BoletoPaymentStatus}
use otsem_api.Database.Rows.{Wallet, BoletoPayment, Database}
use otsem_api.Database.Action.{Result, Error, ok, err, Reads-cases}
use otsem_api.Database.Tables.{by}
use otsem_api.Boleto.Quotes.{Market, get_crypto_to_brl_rate, get_wallet_crypto_balance}
use otsem_api.Boleto.Payments.{
  wallet_by_id, increment_wallet, create_payment, debit_wallet, payment_row, charge_wallet,
  owned_wallet, create_boleto_payment,
}
use otsem_api.Boleto.Custody.{repaid}

-- The row that a call has created, behind the debit of a USDT wallet.
abbrev pub Creates :
    Database → (id wallet_id : ℕ) → String → Result BoletoPayment × Database → Type 0
Creates db id wallet_id currency (err _, db') = db' ≡ db
Creates db id wallet_id currency (ok b, db') =
    (b.id ≡ id)
    × (b.wallet_id ≡ wallet_id)
    × (b.crypto_currency ≡ currency)
    × (b.status ≡ BoletoPaymentStatus.pending_approval)
    × (((str_eq b.crypto_currency "USDT" ≡ true)
          × (wallet_by_id b.wallet_id db ≢ none)
          × (db' ≡ record (repaid b.wallet_id (pos 0 -ℤ b.crypto_amount) db) {
            boleto_payments = b ∷ db.boleto_payments;
          }))
        ⊎ ((str_eq b.crypto_currency "USDT" ≡ false)
            × (db' ≡ record db { boleto_payments = b ∷ db.boleto_payments })))

module _ {N : Numbers} (market : Market N) where
  open N use {Number}

  rate_reads :
      (currency : String) (db : Database) → (get_crypto_to_brl_rate market currency db).1 ≡ db
  unfolding get_crypto_to_brl_rate
  rate_reads currency db = ground arith

  balance_reads :
      (w : Wallet) (currency : String) (db : Database)
      → (get_wallet_crypto_balance market w currency db).1 ≡ db
  unfolding get_wallet_crypto_balance
  balance_reads w currency db = ground arith

  module _ (id now customer_id : ℕ) (barcode : String) (amount : Number) (wallet_id : ℕ)
      (currency : String) (description : Option String) (db : Database)
      (fresh : any (by (λ b. b.id) id) db.boleto_payments ≡ false) where
    charge_wallet-Creates :
        (w : Wallet) (rate : Number)
        → Creates db id wallet_id currency (
            charge_wallet market id now customer_id barcode amount wallet_id w currency description
              rate db)
    unfolding charge_wallet create_payment debit_wallet increment_wallet payment_row
    charge_wallet-Creates w rate = ground (arith, balance_reads w currency db)

    create_with_rate :
        (w : Wallet) (rate : Number)
        → owned_wallet market wallet_id customer_id db ≡ some w
        → get_crypto_to_brl_rate market currency db ≡ (ok rate, db)
        → Creates db id wallet_id currency (
            create_boleto_payment market id now customer_id barcode amount wallet_id currency
              description db)
    unfolding create_boleto_payment
    create_with_rate w rate hw hr = ground (arith, charge_wallet-Creates w rate)

    create_no_rate :
        (w : Wallet) (e : Error)
        → owned_wallet market wallet_id customer_id db ≡ some w
        → get_crypto_to_brl_rate market currency db ≡ (err e, db)
        → Creates db id wallet_id currency (
            create_boleto_payment market id now customer_id barcode amount wallet_id currency
              description db)
    unfolding create_boleto_payment
    create_no_rate w e hw hr = ground arith

    create_no_wallet :
        owned_wallet market wallet_id customer_id db ≡ none
        → Creates db id wallet_id currency (
            create_boleto_payment market id now customer_id barcode amount wallet_id currency
              description db)
    unfolding create_boleto_payment
    create_no_wallet hw = ground arith

    pub create_boleto_payment-Creates : Creates db id wallet_id currency (
        create_boleto_payment market id now customer_id barcode amount wallet_id currency
          description db)
    create_boleto_payment-Creates =
        elim (Option-cases (owned_wallet market wallet_id customer_id db)) [
          | inl missing ↦ create_no_wallet missing
          | inr (w, hw) ↦
              elim (Reads-cases (get_crypto_to_brl_rate market currency db) db
                (rate_reads currency db)) [
                  | inl (rate, hr) ↦ create_with_rate w rate hw hr
                  | inr (e, hr) ↦ create_no_rate w e hw hr
                ]
        ]
