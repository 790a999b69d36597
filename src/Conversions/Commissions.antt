-- ===== src/Conversions/Commissions.antt =====
-- The commission of a sale (src/wallet/sell-processing.service.ts) leaves alone the accounts, the
-- log and the conversions.
use otsem_api.Common.{
  ℕ, ◌≡◌, refl, ◌∙◌, Option, none, some, inl, inr, Option-cases, Bool-cases, List, map, select,
}
use otsem_api.Numbers.{Numbers}
use otsem_api.Database.Rows.{Affiliate, AffiliateCommission, Database}
use otsem_api.Database.Action.{bind-keeps, pure}
use otsem_api.Affiliates.Commissions.{
  CommissionData, affiliate_by_id, record_commission, commission_row, pay_affiliate, is_pending_of,
  paid_row,
}
use otsem_api.Affiliates.Effects.{
  book_commission-cases, pay_affiliate-cases, record_commission_unknown, record_commission_known,
}
use otsem_api.Affiliates.Settlement.{Payouts, settle_commission_usdt}
use otsem_api.Affiliates.Settling.{settle_commission_usdt-Settles}
use otsem_api.Conversions.Selling.{Exchange, Fresh, settle_recorded, commission_for_sale}

abbrev pub SameBooks : Database → Database → Type 0
SameBooks db d =
    (d.conversions ≡ db.conversions)
    × (d.transactions ≡ db.transactions)
    × (d.accounts ≡ db.accounts)
    × (d.customers ≡ db.customers)

pub SameBooks-refl : (db : Database) → SameBooks db db
SameBooks-refl db = (refl, refl, refl, refl)

pub SameBooks-trans : (a b c : Database) → SameBooks a b → SameBooks b c → SameBooks a c
SameBooks-trans a b c (p, q, r, s) (t, u, v, w) = (t ∙ p, u ∙ q, v ∙ r, w ∙ s)

record_commission-SameBooks :
    (N : Numbers) (id now : ℕ) (d : CommissionData N) (db : Database)
    → SameBooks db (record_commission N id now d db).1
record_commission-SameBooks N id now d db =
    elim (Option-cases (affiliate_by_id d.affiliate_id db)) [
      | inl e ↦ rw (record_commission_unknown N id now d db e) (SameBooks-refl db)
      | inr (a, e) ↦ elim (book_commission-cases N (commission_row N id now d a) db) [
        | inl same ↦ rw (record_commission_known N id now d db a e, same) (SameBooks-refl db)
        | inr (_, went) ↦
            rw (record_commission_known N id now d db a e, went) (refl, refl, refl, refl)
      ]
    ]

pay_affiliate-SameBooks :
    (N : Numbers) (id : ℕ) (ids : List ℕ) (f : AffiliateCommission → AffiliateCommission)
    (rows : List AffiliateCommission) (db : Database)
    → SameBooks db (pay_affiliate N id ids f rows db).1
pay_affiliate-SameBooks N id ids f rows db = elim (pay_affiliate-cases N id ids f rows db) [
  | inl same ↦ rw same (SameBooks-refl db)
  | inr went ↦ rw went (refl, refl, refl, refl)
]

module _ {N : Numbers} where
  settle-SameBooks :
      (payouts : Payouts N) (now id : ℕ) (db : Database)
      → SameBooks db (settle_commission_usdt payouts now id db).1
  settle-SameBooks payouts now id db = elim (settle_commission_usdt-Settles payouts now id db) [
    | inl same ↦ rw same (SameBooks-refl db)
    | inr (tx, went) ↦ rw went (
        pay_affiliate-SameBooks N id
          (map (λ c. c.id) (select (is_pending_of id) db.affiliate_commissions))
          (paid_row now (some tx)) (select (is_pending_of id) db.affiliate_commissions) db)
  ]

  module _ (exchange : Exchange N) where
    settle_recorded-SameBooks :
        (now id : ℕ) (c : Option AffiliateCommission) (db : Database)
        → SameBooks db (settle_recorded exchange now id c db).1
    unfolding settle_recorded
    settle_recorded-SameBooks now id none db = SameBooks-refl db
    settle_recorded-SameBooks now id (some c) db =
        bind-keeps SameBooks SameBooks-trans (settle_commission_usdt exchange.payouts now id)
          (λ _. pure (N.to_number 2 c.commission_brl)) db
          (settle-SameBooks exchange.payouts now id db) (λ _ d. SameBooks-refl d)

    pub commission_for_sale-SameBooks :
        (fresh : Fresh) (c : ℕ) (id : Option ℕ) (amount spread rate : N.Number)
        (a : Option Affiliate) (db : Database)
        → SameBooks db (commission_for_sale exchange fresh c id amount spread rate a db).1
    unfolding commission_for_sale
    commission_for_sale-SameBooks fresh c id amount spread rate none db = SameBooks-refl db
    commission_for_sale-SameBooks fresh c id amount spread rate (some a) db =
        let entry : CommissionData N = record {
          affiliate_id = a.id;
          customer_id = c;
          conversion_id = id;
          conversion_type = some "SELL";
          transaction_id = none;
          transaction_amount = amount;
          spread_brl = spread;
          exchange_rate = rate;
        } in
        elim (Bool-cases (N.less (N.literal 0 0) spread)) [
          | inl yes_spread ↦ rw yes_spread (
              bind-keeps SameBooks SameBooks-trans
                (record_commission N fresh.commission_id fresh.now entry)
                (settle_recorded exchange fresh.now a.id) db
                (record_commission-SameBooks N fresh.commission_id fresh.now entry db)
                (settle_recorded-SameBooks fresh.now a.id))
          | inr zero_spread ↦ rw zero_spread (SameBooks-refl db)
        ]
