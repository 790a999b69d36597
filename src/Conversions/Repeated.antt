-- ===== src/Conversions/Repeated.antt =====
-- A credit by hand that was made before, and a processing that throws
-- (src/wallet/sell-processing.service.ts).
use otsem_api.Common.{
  ℕ, ◌≡◌, refl, ◌∙◌, String, true, false, inl, inr, Option, none, some, List, [], ◌∷◌, arith, find,
  any, text_is,
}
use otsem_api.Numbers.{Numbers}
use otsem_api.Database.Rows.{Account, Affiliate, Conversion, Transaction, Database}
use otsem_api.Database.Queries.{
  set_balance, create_transaction, transaction_by_external_id, transaction_clash,
}
use otsem_api.Database.Action.{Action, Result, is_ok, Result-cases, answered, bound_to, stopped_by}
use otsem_api.Affiliates.Links.{get_affiliate_for_customer}
use otsem_api.Conversions.Rows.{insert_conversion}
use otsem_api.Conversions.Selling.{Exchange, Fresh, commission_for_sale}
use otsem_api.Conversions.Polling.{
  credit_sell_manually, ManualCredit, post_by_hand, credit_by_hand, commission_by_hand,
  manual_conversion, manual_credit, manual_row, manual_spread,
}
use otsem_api.Conversions.Commissions.{commission_for_sale-SameBooks}
use otsem_api.Conversions.Runs.{insert-cases, credit_manually-cases}

any_of_text :
    (t : Transaction) (s : String) (us : List Transaction) {u : Transaction}
    → t.external_id ≡ some s
    → find (λ u. text_is u.external_id s) us ≡ some u
    → any (transaction_clash t) us ≡ true
unfolding find any transaction_clash
any_of_text t s [] e f = absurd (cc)
any_of_text t s (v ∷ us) {u} e f = ground (arith, any_of_text t s us {u = u} e)

module _ {N : Numbers} (exchange : Exchange N) where
  -- No money was moved and the call has thrown.
  abbrev Refuses : {A : Type 0} → Database → Result A × Database → Type 0
  Refuses db r = (r.1.accounts ≡ db.accounts) × (is_ok r.0 ≡ false)

  post_by_hand-Refuses :
      (id : ℕ) (t : Transaction) (credit after : N.Number) (db : Database)
      → any (transaction_clash t) db.transactions ≡ true
      → Refuses db (post_by_hand exchange id t credit after db)
  unfolding post_by_hand set_balance create_transaction
  post_by_hand-Refuses id t credit after db h = ground (arith, h)

  module _ (fresh : Fresh) (customer_id : ℕ) (account : Account) (usdt rate : N.Number)
      (tx_hash network : String) (affiliate : Option Affiliate) (u : Transaction) where
    insert-books :
        (c : Conversion) (db : Database)
        → ((insert_conversion c db).1.accounts ≡ db.accounts)
          × ((insert_conversion c db).1.transactions ≡ db.transactions)
    insert-books c db = elim (insert-cases c db) [
      | inl same ↦ rw same (refl, refl)
      | inr (new, went) ↦ rw went (refl, refl)
    ]

    credit_by_hand-Refuses :
        (commission : N.Number) (db : Database)
        → transaction_by_external_id tx_hash db ≡ some u
        → Refuses db (
            credit_by_hand exchange fresh customer_id account usdt rate tx_hash network affiliate
              commission db)
    unfolding credit_by_hand transaction_by_external_id
    credit_by_hand-Refuses commission db known =
        let c =
          manual_conversion exchange fresh customer_id account.id usdt rate tx_hash network
            affiliate commission in
        let credit = manual_credit exchange usdt rate in
        let before = N.to_number 2 account.balance in
        let t = manual_row exchange fresh account.id usdt credit before tx_hash in
        let first = insert_conversion c in
        let rest : Conversion → Action (ManualCredit exchange) =
          λ e. post_by_hand exchange e.id t credit (N.plus before credit) in
        let (accounts, rows) = insert-books c db in
        elim (Result-cases (first db).0) [
          | inl (x, h) ↦ rw (stopped_by first rest (answered (first db) h)) (accounts, refl)
          | inr (e, h) ↦
              let clash : any (transaction_clash t) (first db).1.transactions ≡ true =
                any_of_text t tx_hash (first db).1.transactions {u = u} refl (rw rows known) in
              let (kept, threw) =
                post_by_hand-Refuses e.id t credit (N.plus before credit) (first db).1 clash in
              rw (bound_to first rest (answered (first db) h)) (kept ∙ accounts, threw)
        ]

    commission_by_hand-Refuses :
        (db : Database)
        → transaction_by_external_id tx_hash db ≡ some u
        → Refuses db (
            commission_by_hand exchange fresh customer_id account usdt rate tx_hash network
              affiliate db)
    unfolding commission_by_hand transaction_by_external_id
    commission_by_hand-Refuses db known =
        let gross = N.times usdt rate in
        let spread = N.times gross (manual_spread exchange) in
        let first =
          commission_for_sale exchange fresh customer_id none gross spread rate affiliate in
        let rest =
          credit_by_hand exchange fresh customer_id account usdt rate tx_hash network affiliate in
        let (_, rows, accounts, _) =
          commission_for_sale-SameBooks exchange fresh customer_id none gross spread rate affiliate
            db in
        elim (Result-cases (first db).0) [
          | inl (x, h) ↦ rw (stopped_by first rest (answered (first db) h)) (accounts, refl)
          | inr (commission, h) ↦
              let (kept, threw) = credit_by_hand-Refuses commission (first db).1 (rw rows known) in
              rw (bound_to first rest (answered (first db) h)) (kept ∙ accounts, threw)
        ]

  -- A credit by hand whose transaction hash is the external id of a row in the log throws, and no
  -- balance moves, whatever the exchange answers and whoever is to be credited.
  pub credit_sell_manually_again :
      (fresh : Fresh) (customer_id account_id : ℕ) (usdt : N.Number) (tx_hash network : String)
      (db : Database) (u : Transaction)
      → transaction_by_external_id tx_hash db ≡ some u
      → ((credit_sell_manually exchange fresh customer_id account_id usdt tx_hash network
            db).1.accounts
          ≡ db.accounts)
        × (is_ok
              (credit_sell_manually exchange fresh customer_id account_id usdt tx_hash network db).0
            ≡ false)
  credit_sell_manually_again fresh customer_id account_id usdt tx_hash network db u known =
      elim (credit_manually-cases exchange fresh customer_id account_id usdt tx_hash network db) [
        | inl (e, is) ↦ rw is (refl, refl)
        | inr (a, rate, k, is) ↦ rw is (
            commission_by_hand-Refuses fresh customer_id a usdt rate tx_hash network
              (get_affiliate_for_customer customer_id db) u db known)
      ]
