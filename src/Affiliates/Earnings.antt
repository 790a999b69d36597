-- ===== src/Affiliates/Earnings.antt =====
-- The earnings columns of an affiliate against its commissions.
use otsem_api.Common.{
  ℕ, ℤ, Bool, ◌&&◌, ◌≡◌, refl, sym, ◌∙◌, inl, inr, Option, none, some, List, ◌∷◌, arith, ◌==◌, find,
  if◌then◌else◌, Bool-cases,
}
use mathlib.Core.Option
use otsem_api.Database.Enums.{CommissionStatus, commission_status_is}
use otsem_api.Database.Rows.{Affiliate, AffiliateCommission, Database}
use otsem_api.Database.Tables.{by, update_where, find-update_where}
use otsem_api.Affiliates.Commissions.{affiliate_by_id, is_pending_of}
use otsem_api.Affiliates.Sums.{sum_where}

unfoldable pub is_paid_of : ℕ → AffiliateCommission → Bool
is_paid_of id c = c.affiliate_id == id && commission_status_is c.status CommissionStatus.paid

abbrev pub brl : AffiliateCommission → ℤ
brl c = c.commission_brl

abbrev pub usdt : AffiliateCommission → ℤ
usdt c = c.commission_usdt

-- The four columns are the sums of the pending and of the paid commissions.
pub record Earned (a : Affiliate) (rows : List AffiliateCommission) : Type 0 where
  pub pending_brl : a.pending_earnings ≡ sum_where (is_pending_of a.id) brl rows
  pub pending_usdt : a.pending_earnings_usdt ≡ sum_where (is_pending_of a.id) usdt rows
  pub paid_brl : a.total_earnings ≡ sum_where (is_paid_of a.id) brl rows
  pub paid_usdt : a.total_earnings_usdt ≡ sum_where (is_paid_of a.id) usdt rows

-- Every affiliate that is found has earned what its commissions say.
abbrev pub IsBalanced : Database → Type 0
IsBalanced db =
    (id : ℕ) (a : Affiliate) → affiliate_by_id id db ≡ some a → Earned a db.affiliate_commissions

abbrev pub written : ℕ → (Affiliate → Affiliate) → Database → Database
written id f db = record db { affiliates = update_where (by (λ a. a.id) id) f db.affiliates }

abbrev pub booked : AffiliateCommission → Database → Database
booked c db = record db { affiliate_commissions = c ∷ db.affiliate_commissions }

abbrev pub paid :
    (AffiliateCommission → Bool) → (AffiliateCommission → AffiliateCommission) → Database → Database
paid q f db = record db { affiliate_commissions = update_where q f db.affiliate_commissions }

unmapped :
    (o : Option Affiliate) (f : Affiliate → Affiliate) {a : Affiliate}
    → Option.map f o ≡ some a
    → (b : Affiliate) × (o ≡ some b) × (a ≡ f b)
unmapped none f e = absurd (cc)
unmapped (some b) f {a} e = (b, refl, ground arith)

-- An affiliate found after a write is the one found before, written if it is the one.
pub found_before :
    (id u : ℕ) (f : Affiliate → Affiliate) (keep : (x : Affiliate) → (f x).id ≡ x.id)
    (db : Database) {a : Affiliate}
    → affiliate_by_id u (written id f db) ≡ some a
    → (b : Affiliate) × (affiliate_by_id u db ≡ some b) × (a ≡ (if id == u then f b else b))
unfolding affiliate_by_id
found_before id u f keep db {a} e =
    let g = sym (find-update_where (λ a. a.id) f keep id u db.affiliates) ∙ e in
    elim (Bool-cases (id == u)) [
      | inl same ↦
          let h : Option.map f (find (by (λ a. a.id) u) db.affiliates) ≡ some a = rw same at g in
          let (b, p, q) = unmapped _ f h in (b, p, rw same q)
      | inr other ↦
          let h : find (by (λ a. a.id) u) db.affiliates ≡ some a = rw other at g in
          (a, h, rw other refl)
    ]
