-- ===== src/Conversions/Tests.antt =====
-- Sales with scaled integers for numbers, and their theorems at them.
use otsem_api.Common.{
  ℕ, pos, String, ◌*◌, ◌≡◌, refl, false, none, some, List, [], ◌∷◌, ◌++◌, find, any, select, show_ℕ,
  ◌+ℤ◌, ◌-ℤ◌,
}
use otsem_api.Samples.{scale, scaled, bank, sale, account}
use otsem_api.Database.Enums.{ConversionStatus, conversion_status_is, type_is, is_sell}
use otsem_api.Database.Rows.{Account, Conversion, Transaction, Database}
use otsem_api.Database.Tables.{update_where, HasDistinct}
use otsem_api.Database.Queries.{
  account_by_id, customer_by_id, set_balance, create_transaction, transaction_clash,
  transaction_by_external_id, with_balance,
}
use otsem_api.Database.Action.{Error, ok, err, failure, is_ok}
use otsem_api.Affiliates.Links.{get_affiliate_for_customer}
use otsem_api.Conversions.Rows.{conversion_by_id, update_conversion, insert_conversion}
use otsem_api.Conversions.Deposits.{Deposit, matching_deposit, check_deposit_confirmation}
use otsem_api.Conversions.Selling.{
  Exchange, Fresh, Sold, amounts_of, is_credit_of, settle_recorded, commission_for_sale,
  post_credit, credit_new_sale, credit_balance_to_customer, sell_usdt_for_brl, process_conversion,
  manual_process_conversion,
}
use otsem_api.Conversions.Polling.{
  is_waiting, load_accounts, process_all, process_loaded, check_and_process_sell_conversions,
  post_by_hand, credit_by_hand, commission_by_hand, credit_sell_manually,
}
use otsem_api.Conversions.Statuses.{Leads}
use otsem_api.Conversions.Once.{process_conversion_once}
use otsem_api.Conversions.Stale.{check_and_process_stale, balance_credited}
use otsem_api.Conversions.Runs.{Step, Reach, Reach-Leads}
use otsem_api.Conversions.Completion.{manual_process_completes, three_runs, final_row}
use otsem_api.Conversions.Repeated.{credit_sell_manually_again}

sales : Unit {0}
unfolding account_by_id customer_by_id set_balance create_transaction transaction_clash
    transaction_by_external_id get_affiliate_for_customer conversion_by_id update_conversion
    insert_conversion matching_deposit check_deposit_confirmation amounts_of is_credit_of
    settle_recorded commission_for_sale post_credit credit_new_sale credit_balance_to_customer
    sell_usdt_for_brl process_conversion manual_process_conversion is_waiting load_accounts
    process_all process_loaded check_and_process_sell_conversions post_by_hand credit_by_hand
    commission_by_hand credit_sell_manually conversion_status_is type_is is_sell update_where find
    any select show_ℕ ◌+ℤ◌ ◌-ℤ◌
sales = tt

abbrev arrived : Deposit scaled
arrived = record {
  dep_id = "dep";
  tx_id = "tx";
  chain = "USDT-TRC20";
  state = "2";
  amount = 100 * scale;
  ts = 60_000;
}

abbrev deposits : List (Deposit scaled)
deposits = arrived ∷ []

-- One USDT is sold for R$ 5, and the deposit of the sale has arrived.
abbrev exchange : Exchange scaled
exchange = record {
  recent_deposits = ok deposits;
  transfer_usdt_to_trading = λ _. ok tt;
  sell_usdt_for_brl =
      λ usdt. ok (record { order_id = "order"; brl_received = 5 * usdt; trading_fee = scale });
  brl_to_usdt_rate = ok (5 * scale);
  payouts = record {
    send_usdt = λ _ _. err (failure "offline");
    transfer_to_funding = λ _. err (failure "offline");
    withdraw_usdt = λ _ _. err (failure "offline");
  };
}

abbrev fresh : ℕ → Fresh
fresh id = record { transaction_id = id; commission_id = id; conversion_id = id; now = 0 }

-- A sale of 100 USDT that has been sold for R$ 500.
abbrev sold_sale : ℕ → Conversion
sold_sale id = record (sale id 10 1) {
  status = ConversionStatus.usdt_sold;
  brl_exchanged = pos 50_000;
}

abbrev one_sale : Database
one_sale = record bank { conversions = sale 30 10 1 ∷ [] }

abbrev two_sales : Database
two_sales = record bank { conversions = sold_sale 30 ∷ sold_sale 31 ∷ [] }

abbrev owner : Account
owner = account 1 10 "k1"

abbrev after_first : Database
after_first = (process_conversion exchange (fresh 30) (sold_sale 30) owner deposits two_sales).1

abbrev after_second : Database
after_second = (process_conversion exchange (fresh 31) (sold_sale 31) owner deposits after_first).1

first :
    process_conversion exchange (fresh 30) (sold_sale 30) owner deposits two_sales
    ≡ (ok tt, after_first)
unfolding sales
first = refl

second :
    process_conversion exchange (fresh 31) (sold_sale 31) owner deposits after_first
    ≡ (ok tt, after_second)
unfolding sales
second = refl

-- R$ 500 less the spread of 1 %.
credited_amount : balance_credited exchange (sold_sale 31) (pos 100_000_000) owner ≡ pos 49_500
unfolding sales
credited_amount = refl

loaded :
    (select is_waiting two_sales.conversions ≡ sold_sale 30 ∷ sold_sale 31 ∷ [])
    × (account_by_id 1 two_sales ≡ some owner)
    × (find (is_credit_of 31 1) after_first.transactions ≡ none)
unfolding sales
loaded = (refl, refl, refl)

abbrev message : Error → String
message e = ""

check_and_process_stale_example :
    account_by_id 1 (check_and_process_sell_conversions exchange message fresh two_sales).1
    ≡ some (with_balance (balance_credited exchange (sold_sale 31) (pos 100_000_000) owner) owner)
check_and_process_stale_example =
    check_and_process_stale exchange message fresh (sold_sale 30) (sold_sale 31) owner
      (pos 100_000_000) deposits two_sales after_first after_second refl loaded.0 loaded.1 refl refl
      refl refl first second loaded.2

abbrev newer : List Transaction
newer = (elim after_second.transactions [ [] ↦ [] | t ∷ ts ↦ t ∷ [] ])

grown : after_second.transactions ≡ newer ++ after_first.transactions
unfolding sales
grown = refl

process_conversion_once_example :
    (process_conversion exchange (fresh 40) (sold_sale 30) owner deposits after_second).1.accounts
    ≡ after_second.accounts
process_conversion_once_example =
    process_conversion_once exchange (fresh 30) (fresh 40) (sold_sale 30) (sold_sale 30) owner owner
      deposits deposits two_sales after_first after_second newer refl first refl refl grown

one_sale_found : conversion_by_id 30 one_sale ≡ some (sale 30 10 1)
unfolding sales
one_sale_found = refl

one_sale-HasDistinct : HasDistinct (λ c. c.id) one_sale.conversions
unfolding sales
one_sale-HasDistinct = (refl, tt)

Reach-Leads_example :
    (y : Conversion) × (conversion_by_id 30
        (check_and_process_sell_conversions exchange message fresh
          (manual_process_conversion exchange (fresh 30) 30 one_sale).1).1
      ≡ some y)
    × Leads ConversionStatus.pending y.status
Reach-Leads_example =
    Reach-Leads {exchange = exchange} 30 (sale 30 10 1) one_sale-HasDistinct
      (Reach.next (Reach.next Reach.here (Step.run (fresh 30) 30)) (Step.pass message fresh))
      one_sale_found

abbrev after_hand : Database
after_hand = (credit_sell_manually exchange (fresh 50) 10 1 (100 * scale) "tx" "TRON" one_sale).1

hand_logged : (t : Transaction) × (transaction_by_external_id "tx" after_hand ≡ some t)
unfolding sales
hand_logged = (_, refl)

credit_sell_manually_again_example :
    ((credit_sell_manually exchange (fresh 51) 20 2 (100 * scale) "tx" "TRON" after_hand).1.accounts
      ≡ after_hand.accounts)
    × (is_ok (credit_sell_manually exchange (fresh 51) 20 2 (100 * scale) "tx" "TRON" after_hand).0
        ≡ false)
credit_sell_manually_again_example =
    credit_sell_manually_again exchange (fresh 51) 20 2 (100 * scale) "tx" "TRON" after_hand
      hand_logged.0 hand_logged.1

abbrev sale_of_answer : Sold scaled
sale_of_answer = record { order_id = "order"; brl_received = 500 * scale; trading_fee = scale }

completable :
    (account_by_id 1 one_sale ≡ some owner)
    × (matching_deposit scaled (sale 30 10 1) deposits ≡ ok (some arrived))
    × (get_affiliate_for_customer 10 one_sale ≡ none)
    × (any
          (transaction_clash (
            final_row exchange
              (fresh 30)
              (fresh 31)
              (fresh 32)
              (sale 30 10 1)
              owner
              deposits
              arrived
              sale_of_answer
              one_sale))
          one_sale.transactions
        ≡ false)
unfolding sales
completable = (refl, refl, refl, refl)

manual_process_completes_example :
    (account_by_id 1 (
        three_runs exchange
          (fresh 30)
          (fresh 31)
          (fresh 32)
          (sale 30 10 1)
          owner
          deposits
          arrived
          sale_of_answer
          one_sale)
      ≡ some (with_balance (pos 49_400) owner))
    × ((y : Conversion) × (conversion_by_id 30 (
            three_runs exchange
              (fresh 30)
              (fresh 31)
              (fresh 32)
              (sale 30 10 1)
              owner
              deposits
              arrived
              sale_of_answer
              one_sale)
          ≡ some y)
        × (y.status ≡ ConversionStatus.completed))
manual_process_completes_example =
    manual_process_completes exchange (fresh 30) (fresh 31) (fresh 32) (sale 30 10 1) owner deposits
      arrived sale_of_answer one_sale one_sale_found refl completable.0 refl completable.1 refl refl
      completable.2 completable.3
