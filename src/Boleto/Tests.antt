-- ===== src/Boleto/Tests.antt =====
-- Boleto payments run with scaled integers for numbers, and the theorems at that run.
use otsem_api.Common.{◌*◌, pos, ◌≡◌, refl, none, some, [], ◌∷◌, find, any, trim, false, ◌+ℤ◌, ◌-ℤ◌}
use otsem_api.Samples.{scale, scaled, empty_database, wallet}
use otsem_api.Database.Enums.{WalletNetwork, BoletoPaymentStatus, boleto_status_is, network_is}
use otsem_api.Database.Rows.{BoletoPayment, Database}
use otsem_api.Database.Tables.{update_where, sum_of}
use otsem_api.Database.Action.{Result, ok, err, failure}
use otsem_api.Boleto.Quotes.{
  Market, get_crypto_to_brl_rate, get_wallet_crypto_balance, is_unsupported,
}
use otsem_api.Boleto.Payments.{
  create_boleto_payment, cancel_boleto_payment, charge_wallet, owned_wallet, create_payment,
  debit_wallet, payment_row, wallet_by_id, payment_by_id, payment_of_customer, increment_wallet,
  update_payment, refund,
}
use otsem_api.Boleto.Admin.{is_open, admin_mark_as_paid}
use otsem_api.Boleto.Custody.{custody, kept_of, is_given_back, wallet_balance, HasDistinctPayments}
use otsem_api.Boleto.Lifecycle.{Step, Reach, Reach-custody, Reach-closed}

boletos : Unit {0}
unfolding create_boleto_payment cancel_boleto_payment charge_wallet owned_wallet create_payment
    debit_wallet payment_row wallet_by_id payment_by_id payment_of_customer increment_wallet
    update_payment refund get_crypto_to_brl_rate get_wallet_crypto_balance is_unsupported
    admin_mark_as_paid is_open kept_of is_given_back boleto_status_is network_is update_where sum_of
    find any trim ◌+ℤ◌ ◌-ℤ◌
boletos = tt

-- One USDT is worth R$ 5.
abbrev market : Market scaled
market = record {
  usdt_brl_rate = 5 * scale;
  ticker_price = λ _. err (failure "offline");
  sol_balance = λ _. err (failure "offline");
  trx_balance = λ _. err (failure "offline");
}

abbrev purse : Database
purse = record empty_database {
  wallets = record (wallet 5 10 WalletNetwork.tron "USDT") { balance = pos (100 * scale) } ∷ [];
}

abbrev no_payment : BoletoPayment
no_payment = record {
  id = 0;
  customer_id = 0;
  barcode = "";
  description = none;
  boleto_amount = pos 0;
  service_fee = pos 0;
  total_brl = pos 0;
  crypto_amount = pos 0;
  crypto_currency = "";
  network = WalletNetwork.tron;
  wallet_id = 0;
  exchange_rate = pos 0;
  status = BoletoPaymentStatus.failed;
  admin_notes = none;
  paid_by_admin_at = none;
  paid_by_admin_id = none;
  error_message = none;
  created_at = 0;
}

abbrev row_of : Result BoletoPayment → BoletoPayment
row_of (ok b) = b
row_of (err _) = no_payment

purse-HasDistinct : HasDistinctPayments purse
purse-HasDistinct = tt

-- A boleto of R$ 100 costs 103 / 5 = 20.6 USDT.
abbrev charged : Database
charged = (create_boleto_payment market 1 7 10 " 23793 " (100 * scale) 5 "USDT" none purse).1

charged_balance : wallet_balance 5 charged ≡ pos 7_940_000_000
unfolding boletos
charged_balance = refl

Reach-charged : Reach market purse charged
unfolding any
Reach-charged =
    Reach.next Reach.here (Step.create 1 7 10 " 23793 " (100 * scale) 5 "USDT" none refl)

abbrev cancelled : Database
cancelled = (cancel_boleto_payment 1 10 charged).1

cancelled_balance : wallet_balance 5 cancelled ≡ pos (100 * scale)
unfolding boletos
cancelled_balance = refl

Reach-custody_example : custody 5 cancelled ≡ custody 5 purse
Reach-custody_example =
    Reach-custody 5 purse-HasDistinct (Reach.next Reach-charged (Step.cancel 1 10))

abbrev settled : Database
settled = (admin_mark_as_paid 9 1 99 none charged).1

abbrev paid_row : BoletoPayment
paid_row = row_of (admin_mark_as_paid 9 1 99 none charged).0

settled-HasDistinct : HasDistinctPayments settled
unfolding boletos
settled-HasDistinct = (refl, tt)

paid_found : payment_by_id 1 settled ≡ some paid_row
unfolding boletos
paid_found = refl

paid_closed : is_open paid_row.status ≡ false
unfolding boletos
paid_closed = refl

Reach-closed_example : payment_by_id 1 (cancel_boleto_payment 1 10 settled).1 ≡ some paid_row
Reach-closed_example =
    Reach-closed {market = market} 1 settled-HasDistinct paid_found paid_closed
      (Reach.next Reach.here (Step.cancel 1 10))
