-- ===== src/Affiliates/Settlement.antt =====
-- `settleCommissionUsdt` of src/affiliates/affiliates.service.ts. The Tron and OKX services that
-- send the USDT are parameters.
use otsem_api.Common.{
  ℕ, String, Option, none, some, map, select, or_text, str_eq, ◌||◌, if◌then◌else◌,
}
use otsem_api.Numbers.{Numbers}
use otsem_api.Database.Rows.{Affiliate}
use otsem_api.Database.Action.{Action, Result, Error, ok, err, pure, gets, ◌>>=◌, ◌>>◌}
use otsem_api.Affiliates.Commissions.{affiliate_by_id, is_pending_of, paid_row, pay_affiliate}

-- `sendUsdt(address, amount)`, `transferFromTradingToFunding('USDT', amount)` and
-- `withdrawUsdtSimple(amount, address, 'Solana', '1')`, each with its answer or exception.
pub record Payouts (N : Numbers) : Type 0 where
  pub send_usdt : String → N.Number → Result String
  pub transfer_to_funding : N.Number → Result (Unit {0})
  pub withdraw_usdt : N.Number → String → Result (Option String)

module _ {N : Numbers} (payouts : Payouts N) where
  open N use {Number, literal, times, over, less, floor, to_number}

  -- Why nothing was settled.
  pub data Reason : Type 0 where
    affiliate_missing below_minimum no_payout_wallet unsupported_network : Reason
    failed : Error → Reason

  pub data Settlement : Type 0 where
    settled : (amount_usdt : Number) → (tx_id : String) → Settlement
    unsettled : (amount_usdt : Number) → Reason → Settlement

  -- `catch`: what was written before the exception stays.
  abbrev pub or_unsettled : Number → Action Settlement → Action Settlement
  or_unsettled pending m db =
      let (r, db') = m db in
      elim r [ ok s ↦ (ok s, db') | err e ↦ (ok (unsettled pending (failed e)), db') ]

  abbrev pub lift : {A : Type 0} → Result A → Action A
  lift r db = (r, db)

  -- Down to 6 decimals.
  unfoldable pub amount_to_send : Number → Number
  amount_to_send pending = over (floor (times pending (literal 1_000_000 0))) (literal 1_000_000 0)

  unfoldable pub send_tron : String → Number → Action String
  send_tron address amount = lift (payouts.send_usdt address amount)

  unfoldable pub send_solana : String → Number → Action String
  send_solana address amount = do
    lift (payouts.transfer_to_funding amount)
    answer ← lift (payouts.withdraw_usdt amount address)
    pure (or_text answer "okx-withdrawal")

  -- Once the USDT is sent, all pending commissions of the affiliate are paid.
  unfoldable pub pay_pending : (now : ℕ) → ℕ → Number → String → Action Settlement
  pay_pending now affiliate_id amount tx_id = do
    rows ← gets λ db. select (is_pending_of affiliate_id) db.affiliate_commissions
    pay_affiliate N affiliate_id (map (λ c. c.id) rows) (paid_row now (some tx_id)) rows
    pure (settled amount tx_id)

  unfoldable pub settle_to : (now : ℕ) → ℕ → Number → String → String → Action Settlement
  settle_to now affiliate_id pending address network =
      if str_eq network "TRON"
      then (do
        tx_id ← send_tron address (amount_to_send pending)
        pay_pending now affiliate_id (amount_to_send pending) tx_id)
      else if str_eq network "SOLANA"
      then (do
        tx_id ← send_solana address (amount_to_send pending)
        pay_pending now affiliate_id (amount_to_send pending) tx_id)
      else pure (unsettled pending unsupported_network)

  unfoldable pub settle_affiliate : (now : ℕ) → ℕ → Affiliate → Action Settlement
  settle_affiliate now affiliate_id a =
      let pending = to_number 6 a.pending_earnings_usdt in
      let address = or_text a.payout_wallet_address "" in
      let network = or_text a.payout_wallet_network "" in
      if less pending (literal 1 0)
      then pure (unsettled pending below_minimum)
      else if str_eq address "" || str_eq network ""
      then pure (unsettled pending no_payout_wallet)
      else or_unsettled pending (settle_to now affiliate_id pending address network)

  unfoldable pub settle_commission_usdt : (now : ℕ) → ℕ → Action Settlement
  settle_commission_usdt now affiliate_id = do
    affiliate ← gets (affiliate_by_id affiliate_id)
    elim affiliate [
      | none ↦ pure (unsettled (literal 0 0) affiliate_missing)
      | some a ↦ settle_affiliate now affiliate_id a
    ]
