-- ===== src/Boleto/Refunds.antt =====
-- Cancelling, rejecting, paying and processing a boleto payment
-- (src/boleto-payments/boleto-payments.service.ts), and the crypto behind it.
use otsem_api.Common.{
  ℕ, pos, String, true, false, ◌≡◌, ◌≢◌, refl, ap, ◌∙◌, sym, Option, none, some, arith, str_eq,
  Option-cases, inl, inr, ◌⊎◌,
}
use otsem_api.Database.Enums.{BoletoPaymentStatus, boleto_status_is}
use otsem_api.Database.Rows.{BoletoPayment, Database}
use otsem_api.Database.Tables.{find-by_of_find, find_sound}
use otsem_api.Boleto.Payments.{
  wallet_by_id, payment_by_id, payment_of_customer, refund, increment_wallet, update_payment,
  with_status, cancel_boleto_payment,
}
use otsem_api.Boleto.Admin.{
  is_open, admin_mark_as_paid, admin_mark_as_processing, admin_reject_boleto_payment, marked_paid,
  marked_refunded,
}
use otsem_api.Boleto.Custody.{
  kept_of, custody, HasDistinctPayments, is_given_back, repaid, rewritten, custody-rewritten,
  custody-repaid,
}

-- What a call has done that gives a live payment back: nothing, or the refund of a USDT payment
-- and the mark, or the mark alone.
abbrev pub GivesBack :
    Database → ℕ → (BoletoPayment → BoletoPayment) → BoletoPayment → Database → Type 0
GivesBack db id f b db' =
    (db' ≡ db)
    ⊎ ((is_open b.status ≡ true)
        × (str_eq b.crypto_currency "USDT" ≡ true)
        × (wallet_by_id b.wallet_id db ≢ none)
        × (db' ≡ rewritten id f (repaid b.wallet_id b.crypto_amount db)))
    ⊎ ((is_open b.status ≡ true)
        × (str_eq b.crypto_currency "USDT" ≡ false)
        × (db' ≡ rewritten id f db))

pending_is_open :
    (s : BoletoPaymentStatus)
    → boleto_status_is s BoletoPaymentStatus.pending_approval ≡ true
    → is_open s ≡ true
unfolding is_open
pending_is_open s h = rw h refl

pub open_is_live : (s : BoletoPaymentStatus) → is_open s ≡ true → is_given_back s ≡ false
unfolding is_open is_given_back boleto_status_is
open_is_live s h = ground arith

pub GivesBack-custody :
    (id w : ℕ) (f : BoletoPayment → BoletoPayment) (db db' : Database) (b : BoletoPayment)
    → HasDistinctPayments db
    → payment_by_id id db ≡ some b
    → kept_of w (f b) ≡ pos 0
    → (str_eq b.crypto_currency "USDT" ≡ false → kept_of w b ≡ pos 0)
    → GivesBack db id f b db'
    → custody w db' ≡ custody w db
GivesBack-custody id w f db db' b d e gone other (inl same) = ap (custody w) same
GivesBack-custody id w f db db' b d e gone other (inr (inl (open_, usdt, known, p))) =
    elim (Option-cases (wallet_by_id b.wallet_id db)) [
      | inl missing ↦ absurd (known missing)
      | inr (v, hv) ↦
          ap (custody w) p ∙ custody-repaid id w f db d e hv usdt (open_is_live b.status open_) gone
    ]
GivesBack-custody id w f db db' b d e gone other (inr (inr (_, foreign, p))) =
    ap (custody w) p ∙ custody-rewritten id w f db d e (gone ∙ sym (other foreign))

pub kept_of_foreign :
    (w : ℕ) (b : BoletoPayment) → str_eq b.crypto_currency "USDT" ≡ false → kept_of w b ≡ pos 0
unfolding kept_of
kept_of_foreign w b h = rw h (ground arith)

pub kept_of-cancelled :
    (w : ℕ) (b : BoletoPayment) → kept_of w (with_status BoletoPaymentStatus.cancelled b) ≡ pos 0
unfolding kept_of is_given_back boleto_status_is
kept_of-cancelled w b = ground arith

pub kept_of_refunded :
    (w : ℕ) (b : BoletoPayment) (reason : Option String)
    → kept_of w (marked_refunded reason b) ≡ pos 0
unfolding kept_of is_given_back boleto_status_is
kept_of_refunded w b reason = ground arith

pub cancel-GivesBack :
    (id customer_id : ℕ) (db : Database) {b : BoletoPayment}
    → payment_of_customer id customer_id db ≡ some b
    → payment_by_id id db ≡ some b
    → GivesBack db id
        (with_status BoletoPaymentStatus.cancelled)
        b
        (cancel_boleto_payment id customer_id db).1
unfolding cancel_boleto_payment refund increment_wallet update_payment payment_by_id
cancel-GivesBack id customer_id db {b} found known = ground (arith, pending_is_open b.status)

pub reject-GivesBack :
    (id : ℕ) (reason : Option String) (db : Database) {b : BoletoPayment}
    → payment_by_id id db ≡ some b
    → GivesBack db id (marked_refunded reason) b (admin_reject_boleto_payment id reason db).1
unfolding admin_reject_boleto_payment refund increment_wallet update_payment payment_by_id
reject-GivesBack id reason db {b} known = ground arith

-- A call that marks an open payment and moves no crypto.
abbrev pub Marks :
    Database → ℕ → (BoletoPayment → BoletoPayment) → BoletoPayment → Database → Type 0
Marks db id f b db' = (db' ≡ db) ⊎ ((is_open b.status ≡ true) × (db' ≡ rewritten id f db))

pub admin_mark_as_paid-Marks :
    (now id admin_user_id : ℕ) (notes : Option String) (db : Database) {b : BoletoPayment}
    → payment_by_id id db ≡ some b
    → Marks db id
        (marked_paid now admin_user_id notes)
        b
        (admin_mark_as_paid now id admin_user_id notes db).1
unfolding admin_mark_as_paid update_payment
admin_mark_as_paid-Marks now id admin_user_id notes db known = ground arith

pub admin_mark_as_processing-Marks :
    (id : ℕ) (db : Database) {b : BoletoPayment}
    → payment_by_id id db ≡ some b
    → Marks db id
        (with_status BoletoPaymentStatus.admin_paying)
        b
        (admin_mark_as_processing id db).1
unfolding admin_mark_as_processing update_payment
admin_mark_as_processing-Marks id db {b} known = ground (arith, pending_is_open b.status)

-- A call for a payment that is not there writes nothing.
module _ (id : ℕ) (db : Database) where
  pub cancel_unknown :
      (customer_id : ℕ)
      → payment_of_customer id customer_id db ≡ none
      → (cancel_boleto_payment id customer_id db).1 ≡ db
  unfolding cancel_boleto_payment
  cancel_unknown customer_id missing = ground arith

  pub reject_unknown :
      (reason : Option String)
      → payment_by_id id db ≡ none
      → (admin_reject_boleto_payment id reason db).1 ≡ db
  unfolding admin_reject_boleto_payment
  reject_unknown reason missing = ground arith

  pub paid_unknown :
      (now admin_user_id : ℕ) (notes : Option String)
      → payment_by_id id db ≡ none
      → (admin_mark_as_paid now id admin_user_id notes db).1 ≡ db
  unfolding admin_mark_as_paid
  paid_unknown now admin_user_id notes missing = ground arith

  pub processing_unknown : payment_by_id id db ≡ none → (admin_mark_as_processing id db).1 ≡ db
  unfolding admin_mark_as_processing
  processing_unknown missing = ground arith

-- The payment of a customer is the one that its id finds.
pub payment_of_customer_id :
    (id customer_id : ℕ) (db : Database) {b : BoletoPayment}
    → HasDistinctPayments db
    → payment_of_customer id customer_id db ≡ some b
    → payment_by_id id db ≡ some b
unfolding payment_of_customer payment_by_id
payment_of_customer_id id customer_id db {b} d e =
    let same : b.id ≡ id = ground (arith, find_sound _ db.boleto_payments e) in
    rw (← same) (find-by_of_find (λ b. b.id) _ db.boleto_payments d e)
