-- ===== src/Affiliates/Effects.antt =====
-- What recording, settling and marking do to the commissions and to the affiliate's row.
use otsem_api.Common.{ℕ, false, ◌&&◌, ◌≡◌, ◌⊎◌, none, some, List, arith, ◌==◌, any, select}
use otsem_api.Numbers.{Numbers}
use otsem_api.Database.Rows.{Affiliate, AffiliateCommission, Database}
use otsem_api.Affiliates.Commissions.{
  CommissionData, affiliate_by_id, update_affiliate, insert_commission, book_commission,
  record_commission, commission_row, pay_commissions, pay_affiliate, mark_commissions_as_paid,
  is_pending_of, is_in, marked_row, total_brl, total_usdt, earn, collect,
}
use otsem_api.Affiliates.Earnings.{written, booked, paid, brl, usdt}

module _ (N : Numbers) where
  -- The rows `ids` are paid, and their sums are collected.
  abbrev pub collected :
      ℕ
      → List ℕ
      → (AffiliateCommission → AffiliateCommission)
      → List AffiliateCommission
      → Database
      → Database
  collected id ids f rows db =
      written id (collect (N.to_column 2 (total_brl N rows)) (N.to_column 6 (total_usdt N rows)))
        (paid (λ c. is_in ids c.id) f db)

  pub book_commission-cases :
      (c : AffiliateCommission) (db : Database)
      → ((book_commission N c db).1 ≡ db)
        ⊎ ((any (λ d. d.id == c.id) db.affiliate_commissions ≡ false)
            × ((book_commission N c db).1
                ≡ written c.affiliate_id (earn (brl c) (usdt c)) (booked c db)))
  unfolding book_commission insert_commission update_affiliate affiliate_by_id
  book_commission-cases c db = ground arith

  pub pay_affiliate-cases :
      (id : ℕ) (ids : List ℕ) (f : AffiliateCommission → AffiliateCommission)
      (rows : List AffiliateCommission) (db : Database)
      → ((pay_affiliate N id ids f rows db).1 ≡ db)
        ⊎ ((pay_affiliate N id ids f rows db).1 ≡ collected id ids f rows db)
  unfolding pay_affiliate pay_commissions update_affiliate
  pay_affiliate-cases id ids f rows db = ground arith

  pub record_commission_unknown :
      (id now : ℕ) (d : CommissionData N) (db : Database)
      → affiliate_by_id d.affiliate_id db ≡ none
      → (record_commission N id now d db).1 ≡ db
  unfolding record_commission
  record_commission_unknown id now d db e = ground arith

  pub record_commission_known :
      (id now : ℕ) (d : CommissionData N) (db : Database) (a : Affiliate)
      → affiliate_by_id d.affiliate_id db ≡ some a
      → record_commission N id now d db ≡ book_commission N (commission_row N id now d a) db
  unfolding record_commission
  record_commission_known id now d db a e = ground arith

  pub mark-cases :
      (now id : ℕ) (ids : List ℕ) (db : Database)
      → ((mark_commissions_as_paid N now id ids db).1 ≡ db)
        ⊎ ((mark_commissions_as_paid N now id ids db).1
            ≡ (pay_affiliate N id ids
                (marked_row now)
                (select (λ c. is_in ids c.id && is_pending_of id c) db.affiliate_commissions)
                db).1)
  unfolding mark_commissions_as_paid
  mark-cases now id ids db = ground arith
