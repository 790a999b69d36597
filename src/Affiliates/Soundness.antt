-- ===== src/Affiliates/Soundness.antt =====
-- The earnings columns under recording, settling and marking commissions
-- (src/affiliates/affiliates.service.ts).
use otsem_api.Common.{
  ℕ, String, Bool, true, false, ◌&&◌, ◌≡◌, refl, sym, ap, ◌∙◌, inl, inr, Option, some, List, [],
  ◌∷◌, ◌==◌, any, select, All, Option-cases, ==_refl,
}
use otsem_api.Numbers.{Numbers}
use otsem_api.Database.Enums.{CommissionStatus}
use otsem_api.Database.Rows.{Affiliate, AffiliateCommission, Database}
use otsem_api.Database.Tables.{HasDistinct, update_where_any-HasDistinct, find-by_of_any}
use otsem_api.Affiliates.Commissions.{
  CommissionData, affiliate_by_id, commission_row, record_commission, mark_commissions_as_paid,
  pay_affiliate, is_pending_of, is_in, marked_row, paid_row, total_brl, total_usdt, earn,
}
use otsem_api.Affiliates.Settlement.{Payouts, settle_commission_usdt}
use otsem_api.Affiliates.Sums.{sum_where, select_and}
use otsem_api.Database.Tables.{sum_of}
use otsem_api.Affiliates.Earnings.{IsBalanced, written, booked, brl, usdt}
use otsem_api.Affiliates.Payments.{Pays, Chosen, booked-IsBalanced, paid-IsBalanced}
use otsem_api.Affiliates.Chosen.{keys, is_in-keys, select_alike}
use otsem_api.Affiliates.Effects.{
  collected, book_commission-cases, pay_affiliate-cases, record_commission_unknown,
  record_commission_known, mark-cases,
}
use otsem_api.Affiliates.Settling.{settle_commission_usdt-Settles}

-- Commission ids are unique, and the earnings columns are the sums of the commissions.
pub record IsSound (db : Database) : Type 0 where
  pub distinct : HasDistinct (λ c. c.id) db.affiliate_commissions
  pub balanced : IsBalanced db

-- The sums that the service computes with numbers come out exact when they are written.
abbrev pub AddsUp : Numbers → List AffiliateCommission → Type 0
AddsUp N rows =
    (N.to_column 2 (total_brl N rows) ≡ sum_of brl rows)
    × (N.to_column 6 (total_usdt N rows) ≡ sum_of usdt rows)

marked-Pays : (now : ℕ) → Pays (marked_row now)
marked-Pays now = record {
  status_paid = λ c. refl;
  keeps_affiliate = λ c. refl;
  keeps_brl = λ c. refl;
  keeps_usdt = λ c. refl;
}

paid-Pays : (now : ℕ) (tx : Option String) → Pays (paid_row now tx)
paid-Pays now tx = record {
  status_paid = λ c. refl;
  keeps_affiliate = λ c. refl;
  keeps_brl = λ c. refl;
  keeps_usdt = λ c. refl;
}

module _ (N : Numbers) where
  -- Paying rows of one affiliate that are chosen by their ids.
  collected-IsSound :
      (id : ℕ) (ids : List ℕ) (f : AffiliateCommission → AffiliateCommission)
      (keep : (c : AffiliateCommission) → (f c).id ≡ c.id) (rows : List AffiliateCommission)
      (db : Database)
      → Pays f
      → Chosen id (λ c. is_in ids c.id) db.affiliate_commissions
      → select (λ c. is_in ids c.id) db.affiliate_commissions ≡ rows
      → AddsUp N rows
      → IsSound db
      → IsSound (collected N id ids f rows db)
  unfolding sum_where
  collected-IsSound id ids f keep rows db w h e (b, u) s = record {
    distinct =
        update_where_any-HasDistinct (λ c. c.id) (λ c. is_in ids c.id) f keep
          db.affiliate_commissions s.distinct;
    balanced =
        paid-IsBalanced id (λ c. is_in ids c.id) f _ _ db w h (b ∙ ap (sum_of brl) (sym e))
          (u ∙ ap (sum_of usdt) (sym e)) s.balanced;
  }

  pay_affiliate-IsSound :
      (id : ℕ) (ids : List ℕ) (f : AffiliateCommission → AffiliateCommission)
      (keep : (c : AffiliateCommission) → (f c).id ≡ c.id) (rows : List AffiliateCommission)
      (db : Database)
      → Pays f
      → Chosen id (λ c. is_in ids c.id) db.affiliate_commissions
      → select (λ c. is_in ids c.id) db.affiliate_commissions ≡ rows
      → AddsUp N rows
      → IsSound db
      → IsSound (pay_affiliate N id ids f rows db).1
  pay_affiliate-IsSound id ids f keep rows db w h e x s =
      elim (pay_affiliate-cases N id ids f rows db) [
        | inl same ↦ rw same s
        | inr went ↦ rw went (collected-IsSound id ids f keep rows db w h e x s)
      ]

  booked-IsSound :
      (c : AffiliateCommission) (db : Database)
      → c.status ≡ CommissionStatus.pending
      → any (λ d. d.id == c.id) db.affiliate_commissions ≡ false
      → IsSound db
      → IsSound (written c.affiliate_id (earn (brl c) (usdt c)) (booked c db))
  booked-IsSound c db p new s = record {
    distinct = (
      find-by_of_any (λ d. d.id) (λ x y. y.id == x.id) c (λ y e. rw e (==_refl c.id))
          db.affiliate_commissions new,
      s.distinct,
    );
    balanced = booked-IsBalanced c db p s.balanced;
  }

  starts_pending :
      (id now : ℕ) (d : CommissionData N) (a : Affiliate)
      → (commission_row N id now d a).status ≡ CommissionStatus.pending
  unfolding commission_row
  starts_pending id now d a = refl

  pub record_commission-IsSound :
      (id now : ℕ) (d : CommissionData N) (db : Database)
      → IsSound db
      → IsSound (record_commission N id now d db).1
  record_commission-IsSound id now d db s =
      elim (Option-cases (affiliate_by_id d.affiliate_id db)) [
        | inl e ↦ rw (record_commission_unknown N id now d db e) s
        | inr (a, e) ↦
            rw (record_commission_known N id now d db a e)
              (elim (book_commission-cases N (commission_row N id now d a) db) [
                | inl same ↦ rw same s
                | inr (new, went) ↦ rw went (
                    booked-IsSound (commission_row N id now d a) db (starts_pending id now d a) new
                      s)
              ])
      ]

  pub mark-IsSound :
      (now id : ℕ) (ids : List ℕ) (db : Database)
      → Chosen id (λ c. is_in ids c.id) db.affiliate_commissions
      → AddsUp N (select (λ c. is_in ids c.id && is_pending_of id c) db.affiliate_commissions)
      → IsSound db
      → IsSound (mark_commissions_as_paid N now id ids db).1
  mark-IsSound now id ids db h x s = elim (mark-cases N now id ids db) [
    | inl same ↦ rw same s
    | inr went ↦ rw went (
        pay_affiliate-IsSound id ids (marked_row now) (λ c. refl) _ db (marked-Pays now) h
          (sym (select_and (λ c. is_in ids c.id) (is_pending_of id) db.affiliate_commissions h)) x
          s)
  ]

Chosen-keys :
    (id : ℕ) (rows : List AffiliateCommission)
    → HasDistinct (λ c. c.id) rows
    → Chosen id (λ c. is_in (keys (λ c. c.id) (is_pending_of id) rows) c.id) rows
Chosen-keys id rows d =
    alike (λ c. is_in (keys (λ c. c.id) (is_pending_of id) rows) c.id) (is_pending_of id) rows
      (is_in-keys (λ c. c.id) (is_pending_of id) rows d)
  where
    alike :
        (q p : AffiliateCommission → Bool) (xs : List AffiliateCommission)
        → All (λ c. q c ≡ p c) xs
        → All (λ c. q c ≡ true → p c ≡ true) xs
    alike q p [] h = tt
    alike q p (c ∷ cs) h = ((λ e. sym h.0 ∙ e), alike q p cs h.1)

module _ {N : Numbers} (payouts : Payouts N) where
  pub settle-IsSound :
      (now id : ℕ) (db : Database)
      → AddsUp N (select (is_pending_of id) db.affiliate_commissions)
      → IsSound db
      → IsSound (settle_commission_usdt payouts now id db).1
  settle-IsSound now id db x s = elim (settle_commission_usdt-Settles payouts now id db) [
    | inl same ↦ rw same s
    | inr (tx, went) ↦ rw went (
        pay_affiliate-IsSound N id (keys (λ c. c.id) (is_pending_of id) db.affiliate_commissions)
          (paid_row now (some tx)) (λ c. refl) (select (is_pending_of id) db.affiliate_commissions)
          db (paid-Pays now (some tx)) (Chosen-keys id db.affiliate_commissions s.distinct)
          (select_alike (λ c. c.id) (is_pending_of id)
            (λ c. is_in (keys (λ c. c.id) (is_pending_of id) db.affiliate_commissions) c.id)
            db.affiliate_commissions
            (is_in-keys (λ c. c.id) (is_pending_of id) db.affiliate_commissions s.distinct))
          x s)
  ]
