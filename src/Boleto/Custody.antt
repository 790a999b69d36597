-- ===== src/Boleto/Custody.antt =====
-- Where the USDT of a wallet is: in its balance, or behind a payment that was not given back.
use otsem_api.Common.{
  ℕ, ℤ, pos, Bool, true, false, not, ◌&&◌, ◌||◌, ◌≡◌, refl, ap, ap₂, ◌∙◌, Option, none, some, arith,
  ◌==◌, ◌+ℤ◌, int_laws, pos_part, neg_part, if◌then◌else◌, str_eq, Bool-cases, inl, inr,
}
use otsem_api.Database.Enums.{BoletoPaymentStatus, boleto_status_is}
use otsem_api.Database.Rows.{Wallet, BoletoPayment, Database}
use otsem_api.Database.Tables.{
  by, HasDistinct, update_where, sum_of, find-update_where, sum_of-update_where,
}
use otsem_api.Boleto.Payments.{wallet_by_id, payment_by_id, add_balance}

abbrev pub wallet_balance_or_zero : Option Wallet → ℤ
wallet_balance_or_zero none = pos 0
wallet_balance_or_zero (some w) = w.balance

abbrev pub wallet_balance : ℕ → Database → ℤ
wallet_balance w db = wallet_balance_or_zero (wallet_by_id w db)

-- The crypto of a refunded or cancelled payment is back in the wallet.
unfoldable pub is_given_back : BoletoPaymentStatus → Bool
is_given_back s =
    boleto_status_is s BoletoPaymentStatus.refunded
    || boleto_status_is s BoletoPaymentStatus.cancelled

-- What a payment keeps of the USDT of a wallet.
unfoldable pub kept_of : ℕ → BoletoPayment → ℤ
kept_of w b =
    if b.wallet_id == w && (str_eq b.crypto_currency "USDT" && not (is_given_back b.status))
    then b.crypto_amount
    else pos 0

abbrev pub custody : ℕ → Database → ℤ
custody w db = wallet_balance w db +ℤ sum_of (kept_of w) db.boleto_payments

-- Payment ids are unique.
abbrev pub HasDistinctPayments : Database → Type 0
HasDistinctPayments db = HasDistinct (λ b. b.id) db.boleto_payments

returned : (b s s' x : ℤ) → s' +ℤ x ≡ s +ℤ pos 0 → b +ℤ x +ℤ s' ≡ b +ℤ s
returned b s s' x h = omega (int_laws, ap pos_part h, ap neg_part h)

unmoved : (s s' x : ℤ) → s' +ℤ x ≡ s +ℤ x → s' ≡ s
unmoved s s' x h = omega (int_laws, ap pos_part h, ap neg_part h)

abbrev pub repaid : ℕ → ℤ → Database → Database
repaid id x db = record db { wallets = update_where (by (λ w. w.id) id) (add_balance x) db.wallets }

abbrev pub rewritten : ℕ → (BoletoPayment → BoletoPayment) → Database → Database
rewritten id f db = record db {
  boleto_payments = update_where (by (λ b. b.id) id) f db.boleto_payments;
}

pub wallet_balance-repaid :
    (id w : ℕ) (x : ℤ) (db : Database) {v : Wallet}
    → wallet_by_id id db ≡ some v
    → wallet_balance w (repaid id x db)
      ≡ (if id == w then wallet_balance w db +ℤ x else wallet_balance w db)
unfolding wallet_by_id
wallet_balance-repaid id w x db {v} e =
    ground (arith, find-update_where (λ w. w.id) (add_balance x) (λ _. refl) id w db.wallets)

pub kept_of_live :
    (w : ℕ) (b : BoletoPayment)
    → str_eq b.crypto_currency "USDT" ≡ true
    → is_given_back b.status ≡ false
    → kept_of w b ≡ (if b.wallet_id == w then b.crypto_amount else pos 0)
unfolding kept_of
kept_of_live w b usdt live = rw (usdt, live) (ground arith)

module _ (id w : ℕ) (f : BoletoPayment → BoletoPayment) (db : Database) {b : BoletoPayment}
    (d : HasDistinctPayments db) (e : payment_by_id id db ≡ some b) where
  -- A write that keeps what a payment keeps leaves the custody.
  pub custody-rewritten :
      kept_of w (f b) ≡ kept_of w b → custody w (rewritten id f db) ≡ custody w db
  unfolding wallet_by_id payment_by_id
  custody-rewritten same =
      ap (λ s. wallet_balance w db +ℤ s)
        (unmoved _ _ _ (
          sum_of-update_where (λ b. b.id) (kept_of w) f id db.boleto_payments d e
          ∙ ap (λ s. sum_of (kept_of w) db.boleto_payments +ℤ s) same))

  -- Giving back the amount of a USDT payment and marking it leaves the custody.
  pub custody-repaid :
      {v : Wallet}
      → wallet_by_id b.wallet_id db ≡ some v
      → str_eq b.crypto_currency "USDT" ≡ true
      → is_given_back b.status ≡ false
      → kept_of w (f b) ≡ pos 0
      → custody w (rewritten id f (repaid b.wallet_id b.crypto_amount db)) ≡ custody w db
  unfolding wallet_by_id payment_by_id
  custody-repaid hv usdt live gone =
      let moved : sum_of (kept_of w) (rewritten id f db).boleto_payments +ℤ kept_of w b
          ≡ sum_of (kept_of w) db.boleto_payments +ℤ pos 0 =
        sum_of-update_where (λ b. b.id) (kept_of w) f id db.boleto_payments d e
        ∙ ap (λ s. sum_of (kept_of w) db.boleto_payments +ℤ s) gone in
      let paid = wallet_balance-repaid b.wallet_id w b.crypto_amount db hv in
      elim (Bool-cases (b.wallet_id == w)) [
        | inl mine ↦
            let kept : kept_of w b ≡ b.crypto_amount = rw (kept_of_live w b usdt live, mine) refl in
            let now : wallet_balance w (repaid b.wallet_id b.crypto_amount db)
                ≡ wallet_balance w db +ℤ b.crypto_amount =
              rw (paid, mine) refl in
            ap (λ s. s +ℤ sum_of (kept_of w) (rewritten id f db).boleto_payments) now
            ∙ returned _ _ _ _ (rw kept at moved)
        | inr other ↦
            let kept : kept_of w b ≡ pos 0 = rw (kept_of_live w b usdt live, other) refl in
            let now : wallet_balance w (repaid b.wallet_id b.crypto_amount db)
                ≡ wallet_balance w db =
              rw (paid, other) refl in
            ap₂ ◌+ℤ◌ now (unmoved _ _ _ (rw kept at moved))
      ]
