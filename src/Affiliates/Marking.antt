-- ===== src/Affiliates/Marking.antt =====
-- What `markCommissionsAsPaid` of src/affiliates/affiliates.service.ts pays.
use otsem_api.Common.{ℕ, true, ◌≡◌, refl, ap, ◌∙◌, Option, some, List, arith, find}
use otsem_api.Numbers.{Numbers}
use otsem_api.Database.Rows.{AffiliateCommission, Database}
use otsem_api.Database.Tables.{by, update_where, find-update_where_any, find-by_sound}
use otsem_api.Database.Action.{ok}
use otsem_api.Affiliates.Commissions.{
  mark_commissions_as_paid, pay_affiliate, pay_commissions, update_affiliate, is_in, marked_row,
}

unfoldable pub commission_by_id : ℕ → Database → Option AffiliateCommission
commission_by_id id db = find (by (λ c. c.id) id) db.affiliate_commissions

module _ (N : Numbers) where
  marked :
      (now id : ℕ) (ids : List ℕ) (db : Database) {n : ℕ} {db' : Database}
      → mark_commissions_as_paid N now id ids db ≡ (ok n, db')
      → db'.affiliate_commissions
        ≡ update_where (λ c. is_in ids c.id) (marked_row now) db.affiliate_commissions
  unfolding mark_commissions_as_paid pay_affiliate pay_commissions update_affiliate
  marked now id ids db {n} {db'} e = ground arith

  -- A call that answers pays every commission whose id it is given: also one of another affiliate,
  -- and one that was paid or cancelled before.
  pub mark_commissions_as_paid_foreign :
      (now id k : ℕ) (ids : List ℕ) (db : Database) {n : ℕ} {db' : Database}
      {c : AffiliateCommission}
      → mark_commissions_as_paid N now id ids db ≡ (ok n, db')
      → commission_by_id k db ≡ some c
      → is_in ids k ≡ true
      → commission_by_id k db' ≡ some (marked_row now c)
  unfolding commission_by_id
  mark_commissions_as_paid_foreign now id k ids db {n} {db'} {c} e f h =
      ap (find (by (λ c. c.id) k)) (marked now id ids db e)
      ∙ find-update_where_any (λ c. c.id) (λ c. is_in ids c.id) (marked_row now) (λ c. refl) k
          db.affiliate_commissions
      ∙ rw (f, find-by_sound (λ c. c.id) k db.affiliate_commissions f, h) refl
