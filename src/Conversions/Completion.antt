-- ===== src/Conversions/Completion.antt =====
-- A pending sale whose deposit has arrived, run until it is credited
-- (src/wallet/sell-processing.service.ts).
use otsem_api.Common.{ℤ, ◌≡◌, refl, ap, ◌∙◌, false, none, some, List, ==_refl, any}
use otsem_api.Numbers.{Numbers}
use otsem_api.Database.Enums.{ConversionStatus}
use otsem_api.Database.Rows.{Account, Conversion, Transaction, Database}
use otsem_api.Database.Tables.{find-update_where}
use otsem_api.Database.Queries.{account_by_id, with_balance, transaction_clash}
use otsem_api.Database.Action.{ok}
use otsem_api.Affiliates.Links.{get_affiliate_for_customer}
use otsem_api.Conversions.Rows.{conversion_by_id}
use otsem_api.Conversions.Deposits.{Deposit, matching_deposit, received}
use otsem_api.Conversions.Selling.{
  Exchange, Fresh, Sold, sold, amounts_of, credited, credit_row, manual_process_conversion,
}
use otsem_api.Conversions.Crediting.{credited_books}
use otsem_api.Conversions.Stages.{
  with_conversion, conversion_by_id-with_conversion, affiliate-with_conversion, run_known,
  process_pending, process_received, process_credited,
}

module _ {N : Numbers} (exchange : Exchange N) where
  open N use {plus, minus, times, to_number, to_column}

  -- An amount as a column of cents holds it.
  abbrev pub cents : N.Number → N.Number
  cents x = to_number 2 (to_column 2 x)

  -- The balance that is promised for a sale: the one from before, and of what the exchange answers
  -- to have received all but the conversion's spread on it and the exchange's fee.
  abbrev pub promised : Conversion → Sold N → Account → ℤ
  promised c s a =
      let received = cents s.brl_received in
      let fees = plus (times received (to_number 4 c.spread_percent)) (cents s.trading_fee) in
      to_column 2 (plus (to_number 2 a.balance) (minus received fees))

  module _ (f g h : Fresh) (c : Conversion) (a : Account) (deposits : List (Deposit N))
      (dep : Deposit N) (s : Sold N) (db : Database) where
    -- What the deposit brought, and the sale as it stands after each run.
    abbrev pub brought : ℤ
    brought = to_column 6 dep.amount

    abbrev pub sold_conversion : Conversion
    sold_conversion = sold exchange (to_number 6 brought) s (received N dep c)

    abbrev pub final_row : Transaction
    final_row =
        credit_row exchange h c.id c.account_id
          (amounts_of exchange sold_conversion (to_number 6 brought)) (to_number 2 a.balance)

    abbrev pub three_runs : Database
    three_runs =
        (manual_process_conversion exchange h c.id
          (manual_process_conversion exchange g c.id
            (manual_process_conversion exchange f c.id db).1).1).1

    -- A pending sale, one of whose deposits matches, is completed by three runs, and its account then
    -- holds the balance from before and what the exchange answers to have received, less the
    -- conversion's spread on that and less the exchange's fee, each read in cents; where the exchange
    -- sells what was deposited, the customer has no active affiliate, and the row of the credit
    -- clashes with none in the log.
    pub manual_process_completes :
        conversion_by_id c.id db ≡ some c
        → c.status ≡ ConversionStatus.pending
        → account_by_id c.account_id db ≡ some a
        → exchange.recent_deposits ≡ ok deposits
        → matching_deposit N c deposits ≡ ok (some dep)
        → exchange.transfer_usdt_to_trading (to_number 6 brought) ≡ ok tt
        → exchange.sell_usdt_for_brl (to_number 6 brought) ≡ ok s
        → get_affiliate_for_customer c.customer_id db ≡ none
        → any (transaction_clash final_row) db.transactions ≡ false
        → (account_by_id c.account_id three_runs ≡ some (with_balance (promised c s a) a))
          × ((y : Conversion) × (conversion_by_id c.id three_runs ≡ some y)
              × (y.status ≡ ConversionStatus.completed))
    unfolding account_by_id conversion_by_id amounts_of
    manual_process_completes e st k r m t o af free =
        let d = with_conversion c.id (received N dep) db in
        let first : (manual_process_conversion exchange f c.id db).1 ≡ d =
          run_known exchange f c.id c a deposits db e k r
          ∙ process_pending exchange f c a deposits dep db st e m in
        let c1 = received N dep c in
        let e1 = conversion_by_id-with_conversion c.id (received N dep) db c (λ x. refl) e in
        let d2 = with_conversion c.id (sold exchange (to_number 6 brought) s) d in
        let second : (manual_process_conversion exchange g c.id d).1 ≡ d2 =
          run_known exchange g c.id c1 a deposits d e1 k r
          ∙ process_received exchange g c1 a deposits brought s d refl refl e1 t o in
        let e2 =
          conversion_by_id-with_conversion c.id (sold exchange (to_number 6 brought) s) d c1
            (λ x. refl) e1 in
        let fin =
          credited exchange h.now none (amounts_of exchange sold_conversion (to_number 6 brought))
            (N.literal 0 0) in
        let third : (manual_process_conversion exchange h c.id d2).1
            ≡ credited_books final_row fin c.id d2 =
          run_known exchange h c.id sold_conversion a deposits d2 e2 k r
          ∙ process_credited exchange h sold_conversion a deposits brought d2 refl refl e2 k
              (affiliate-with_conversion c.customer_id c.id (sold exchange (to_number 6 brought) s)
                  d
                ∙ affiliate-with_conversion c.customer_id c.id (received N dep) db
                ∙ af)
              free in
        let three : three_runs ≡ credited_books final_row fin c.id d2 =
          ap
            (λ x.
              (manual_process_conversion exchange h c.id
                (manual_process_conversion exchange g c.id x).1).1)
            first
          ∙ ap (λ x. (manual_process_conversion exchange h c.id x).1) second
          ∙ third in
        rw three (
          find-update_where (λ a. a.id) (with_balance final_row.balance_after) (λ a. refl)
                c.account_id c.account_id db.accounts
              ∙ rw (==_refl c.account_id, k) refl,
          (
            fin sold_conversion,
            conversion_by_id-with_conversion c.id fin d2 sold_conversion (λ x. refl) e2,
            refl,
          ),
        )
