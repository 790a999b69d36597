-- ===== src/Conversions/Runs.antt =====
-- Sequences of the calls of src/wallet/sell-processing.service.ts: passes over the waiting sales,
-- runs of one conversion and credits by hand.
use otsem_api.Common.{
  ℕ, ◌≡◌, sym, ◌∙◌, subst, String, true, false, ◌⊎◌, inl, inr, Option, none, some, List, ◌∷◌, arith,
  find, any, Option-cases,
}
use otsem_api.Numbers.{Numbers}
use otsem_api.Database.Rows.{Account, Affiliate, Conversion, Transaction, Database}
use otsem_api.Database.Tables.{by, HasDistinct, find-by_sound, find-by_of_any}
use otsem_api.Database.Queries.{account_by_id, customer_by_id, set_balance, create_transaction}
use otsem_api.Database.Action.{Error, err, failure, Result-cases, bind-keeps}
use otsem_api.Affiliates.Links.{get_affiliate_for_customer}
use otsem_api.Conversions.Rows.{conversion_by_id, insert_conversion, conversion_clash}
use otsem_api.Conversions.Deposits.{Deposit}
use otsem_api.Conversions.Selling.{
  Exchange, Fresh, commission_for_sale, process_conversion, manual_process_conversion,
}
use otsem_api.Conversions.Polling.{
  check_and_process_sell_conversions, credit_sell_manually, post_by_hand, credit_by_hand,
  commission_by_hand, manual_conversion, manual_credit, manual_row, manual_spread,
}
use otsem_api.Conversions.Commissions.{commission_for_sale-SameBooks}
use otsem_api.Conversions.Statuses.{
  Leads, Advances-refl, Advances-trans, cons-Advances, process-Moves,
}
use otsem_api.Conversions.Passes.{Statuses, Moves-Advances, check_and_process-Statuses}
use otsem_api.Conversions.Loading.{same_row}

Statuses-trans : (a b c : Database) → Statuses a b → Statuses b c → Statuses a c
Statuses-trans a b c = Advances-trans a.conversions b.conversions c.conversions

clash_covers : (c d : Conversion) → d.id ≡ c.id → conversion_clash c d ≡ true
clash_covers c d e = ground (arith, e)

pub insert-cases :
    (c : Conversion) (db : Database)
    → ((insert_conversion c db).1 ≡ db)
      ⊎ ((any (conversion_clash c) db.conversions ≡ false)
          × ((insert_conversion c db).1 ≡ record db { conversions = c ∷ db.conversions }))
unfolding insert_conversion
insert-cases c db = ground arith

insert-Statuses : (c : Conversion) (db : Database) → Statuses db (insert_conversion c db).1
insert-Statuses c db = elim (insert-cases c db) [
  | inl same ↦ rw same (Advances-refl db.conversions)
  | inr (new, went) ↦ rw went (
      cons-Advances c db.conversions
        (find-by_of_any (λ c. c.id) conversion_clash c (clash_covers c) db.conversions new))
]

module _ {N : Numbers} (exchange : Exchange N) where
  manual_process-cases :
      (fresh : Fresh) (id : ℕ) (db : Database)
      → ((manual_process_conversion exchange fresh id db).1 ≡ db)
        ⊎ ((c : Conversion) × (a : Account) × (deposits : List (Deposit N)) × (conversion_by_id id
                db
              ≡ some c)
            × ((manual_process_conversion exchange fresh id db).1
                ≡ (process_conversion exchange fresh c a deposits db).1))
  unfolding manual_process_conversion
  manual_process-cases fresh id db = elim (Option-cases (conversion_by_id id db)) [
    | inl e ↦ inl (ground (arith, e))
    | inr (c, e) ↦ elim (Option-cases (account_by_id c.account_id db)) [
      | inl k ↦ inl (ground (arith, e, k))
      | inr (a, k) ↦ elim (Result-cases exchange.recent_deposits) [
        | inl (x, r) ↦ inl (ground (arith, e, k, r))
        | inr (deposits, r) ↦ inr (c, a, deposits, e, ground (arith, e, k, r))
      ]
    ]
  ]

  manual_process-Statuses :
      (fresh : Fresh) (id : ℕ) (db : Database)
      → Statuses db (manual_process_conversion exchange fresh id db).1
  unfolding conversion_by_id
  manual_process-Statuses fresh id db = elim (manual_process-cases fresh id db) [
    | inl same ↦ rw same (Advances-refl db.conversions)
    | inr (c, a, deposits, e, went) ↦
        let own = find-by_sound (λ c. c.id) id db.conversions e in
        rw went (
          Moves-Advances c db (process_conversion exchange fresh c a deposits db).1
            (λ x f.
              same_row x c
                (sym f ∙ subst (λ k. find (by (λ c. c.id) k) db.conversions ≡ some c) (sym own) e))
            (process-Moves exchange fresh c a deposits db))
  ]

  post_by_hand_keeps :
      (id : ℕ) (t : Transaction) (credit after : N.Number) (db : Database)
      → (post_by_hand exchange id t credit after db).1.conversions ≡ db.conversions
  unfolding post_by_hand set_balance create_transaction
  post_by_hand_keeps id t credit after db = ground arith

  module _ (fresh : Fresh) (customer_id : ℕ) (account : Account) (usdt rate : N.Number)
      (tx_hash network : String) (affiliate : Option Affiliate) where
    credit_by_hand-Statuses :
        (commission : N.Number) (db : Database)
        → Statuses db
            (credit_by_hand exchange fresh customer_id account usdt rate tx_hash network affiliate
              commission db).1
    unfolding credit_by_hand
    credit_by_hand-Statuses commission db =
        let c =
          manual_conversion exchange fresh customer_id account.id usdt rate tx_hash network
            affiliate commission in
        let credit = manual_credit exchange usdt rate in
        let before = N.to_number 2 account.balance in
        let t = manual_row exchange fresh account.id usdt credit before tx_hash in
        bind-keeps Statuses Statuses-trans (insert_conversion c)
          (λ e. post_by_hand exchange e.id t credit (N.plus before credit)) db
          (insert-Statuses c db)
          λ e d.
            rw (post_by_hand_keeps e.id t credit (N.plus before credit) d)
              (Advances-refl d.conversions)

    commission_by_hand-Statuses :
        (db : Database)
        → Statuses db
            (commission_by_hand exchange fresh customer_id account usdt rate tx_hash network
              affiliate db).1
    unfolding commission_by_hand
    commission_by_hand-Statuses db =
        let gross = N.times usdt rate in
        let spread = N.times gross (manual_spread exchange) in
        let (same, _, _, _) =
          commission_for_sale-SameBooks exchange fresh customer_id none gross spread rate affiliate
            db in
        bind-keeps Statuses Statuses-trans
          (commission_for_sale exchange fresh customer_id none gross spread rate affiliate)
          (credit_by_hand exchange fresh customer_id account usdt rate tx_hash network affiliate) db
          (rw same (Advances-refl db.conversions)) credit_by_hand-Statuses

  -- A credit by hand reads only, or is made with what it has read.
  pub credit_manually-cases :
      (fresh : Fresh) (customer_id account_id : ℕ) (usdt : N.Number) (tx_hash network : String)
      (db : Database)
      → ((e : Error) × (credit_sell_manually exchange fresh customer_id account_id usdt tx_hash
              network db
            ≡ (err e, db)))
        ⊎ ((a : Account) × (rate : N.Number) × (account_by_id account_id db ≡ some a)
            × (credit_sell_manually exchange fresh customer_id account_id usdt tx_hash network db
                ≡ commission_by_hand exchange fresh customer_id a usdt rate tx_hash network
                    (get_affiliate_for_customer customer_id db)
                    db))
  unfolding credit_sell_manually
  credit_manually-cases fresh customer_id account_id usdt tx_hash network db =
      elim (Option-cases (customer_by_id customer_id db)) [
        | inl e ↦ inl (failure "Cliente não encontrado", ground (arith, e))
        | inr (c, e) ↦ elim (Option-cases (account_by_id account_id db)) [
          | inl k ↦ inl (failure "Conta não encontrada", ground (arith, e, k))
          | inr (a, k) ↦ elim (Result-cases exchange.brl_to_usdt_rate) [
            | inl (x, r) ↦ inl (x, ground (arith, e, k, r))
            | inr (rate, r) ↦ inr (a, rate, k, ground (arith, e, k, r))
          ]
        ]
      ]

  credit_manually-Statuses :
      (fresh : Fresh) (customer_id account_id : ℕ) (usdt : N.Number) (tx_hash network : String)
      (db : Database)
      → Statuses db
          (credit_sell_manually exchange fresh customer_id account_id usdt tx_hash network db).1
  credit_manually-Statuses fresh customer_id account_id usdt tx_hash network db =
      elim (credit_manually-cases fresh customer_id account_id usdt tx_hash network db) [
        | inl (e, is) ↦ rw is (Advances-refl db.conversions)
        | inr (a, rate, k, is) ↦ rw is (
            commission_by_hand-Statuses fresh customer_id a usdt rate tx_hash network
              (get_affiliate_for_customer customer_id db) db)
      ]

-- One call.
pub data Step {N : Numbers} (exchange : Exchange N) (db : Database) : Database → Type 0 where
  pass :
      (message : Error → String) (fresh : ℕ → Fresh)
      → Step exchange db (check_and_process_sell_conversions exchange message fresh db).1
  run :
      (fresh : Fresh) (id : ℕ) → Step exchange db (manual_process_conversion exchange fresh id db).1
  by_hand :
      (fresh : Fresh) (customer_id account_id : ℕ) (usdt : N.Number) (tx_hash network : String)
      → Step exchange db
          (credit_sell_manually exchange fresh customer_id account_id usdt tx_hash network db).1

pub data Reach {N : Numbers} (exchange : Exchange N) (db : Database) : Database → Type 0 where
  here : Reach exchange db db
  next : {d e : Database} → Reach exchange db d → Step exchange d e → Reach exchange db e

module _ {N : Numbers} {exchange : Exchange N} where
  Step-Statuses :
      {d e : Database} → HasDistinct (λ c. c.id) d.conversions → Step exchange d e → Statuses d e
  Step-Statuses {d} h (pass message fresh) = check_and_process-Statuses exchange message fresh d h
  Step-Statuses {d} h (run fresh id) = manual_process-Statuses exchange fresh id d
  Step-Statuses {d} h (by_hand fresh c a usdt tx network) =
      credit_manually-Statuses exchange fresh c a usdt tx network d

  Reach-Statuses :
      {s d : Database} → HasDistinct (λ c. c.id) s.conversions → Reach exchange s d → Statuses s d
  Reach-Statuses {s} h here = Advances-refl s.conversions
  Reach-Statuses {s} h (next {d} {e} r st) =
      let before = Reach-Statuses h r in Statuses-trans s d e before (Step-Statuses (before.0 h) st)

  -- Through any sequence of passes, single runs and credits by hand, a conversion that is there stays
  -- there, and its status only goes forward, one step after the other: from PENDING to
  -- USDT_RECEIVED, from there to USDT_SOLD and from there to COMPLETED; a conversion in any other
  -- status keeps it. Where conversion ids are unique at the start.
  pub Reach-Leads :
      {s d : Database} (id : ℕ) (x : Conversion)
      → HasDistinct (λ c. c.id) s.conversions
      → Reach exchange s d
      → conversion_by_id id s ≡ some x
      → (y : Conversion) × (conversion_by_id id d ≡ some y) × Leads x.status y.status
  unfolding conversion_by_id
  Reach-Leads id x h r e = (Reach-Statuses h r).1 id x e
