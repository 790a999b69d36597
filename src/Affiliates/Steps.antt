-- ===== src/Affiliates/Steps.antt =====
-- Sequences of calls that record, settle and mark commissions, or switch an affiliate on and off.
use otsem_api.Common.{
  ℕ, ◌≡◌, refl, inl, inr, ◌⊎◌, some, List, arith, if◌then◌else◌, ◌==◌, Bool-cases, ◌&&◌, select,
}
use otsem_api.Numbers.{Numbers}
use otsem_api.Database.Rows.{Affiliate, AffiliateCommission, Database}
use otsem_api.Affiliates.Commissions.{
  CommissionData, affiliate_by_id, record_commission, mark_commissions_as_paid, toggle_active,
  flipped, update_affiliate, is_pending_of, is_in,
}
use otsem_api.Affiliates.Settlement.{Payouts, settle_commission_usdt}
use otsem_api.Affiliates.Sums.{sum_where}
use otsem_api.Affiliates.Earnings.{Earned, is_paid_of, written, brl, usdt, found_before}
use otsem_api.Affiliates.Payments.{Chosen}
use otsem_api.Affiliates.Soundness.{
  IsSound, AddsUp, record_commission-IsSound, mark-IsSound, settle-IsSound,
}

toggle_active-cases :
    (id : ℕ) (db : Database)
    → ((toggle_active id db).1 ≡ db) ⊎ ((toggle_active id db).1 ≡ written id flipped db)
unfolding toggle_active update_affiliate
toggle_active-cases id db = ground arith

Earned-flipped :
    (u id : ℕ) (a b : Affiliate) (rows : List AffiliateCommission)
    → a ≡ (if id == u then flipped b else b)
    → Earned b rows
    → Earned a rows
Earned-flipped u id a b rows same e = elim (Bool-cases (id == u)) [
  | inl yours ↦
      let is : a ≡ flipped b = rw yours at same in
      rw is (record {
        pending_brl = e.pending_brl;
        pending_usdt = e.pending_usdt;
        paid_brl = e.paid_brl;
        paid_usdt = e.paid_usdt;
      })
  | inr other ↦ let is : a ≡ b = rw other at same in rw is e
]

toggle_active-IsSound : (id : ℕ) (db : Database) → IsSound db → IsSound (toggle_active id db).1
toggle_active-IsSound id db s = elim (toggle_active-cases id db) [
  | inl same ↦ rw same s
  | inr went ↦ rw went (record {
    distinct = s.distinct;
    balanced = λ u a e.
        let (b, known, same) = found_before id u flipped (λ x. refl) db e in
        Earned-flipped u id a b db.affiliate_commissions same (s.balanced u b known);
  })
]

-- One call. A settlement and a marking add up rows whose sums come out exact, and a marking names
-- pending commissions of its affiliate only.
pub data Step {N : Numbers} (payouts : Payouts N) (db : Database) : Database → Type 0 where
  commission :
      (id now : ℕ) (d : CommissionData N) → Step payouts db (record_commission N id now d db).1
  settle :
      (now id : ℕ)
      → AddsUp N (select (is_pending_of id) db.affiliate_commissions)
      → Step payouts db (settle_commission_usdt payouts now id db).1
  mark :
      (now id : ℕ) (ids : List ℕ)
      → Chosen id (λ c. is_in ids c.id) db.affiliate_commissions
      → AddsUp N (select (λ c. is_in ids c.id && is_pending_of id c) db.affiliate_commissions)
      → Step payouts db (mark_commissions_as_paid N now id ids db).1
  toggle : (id : ℕ) → Step payouts db (toggle_active id db).1

pub data Reach {N : Numbers} (payouts : Payouts N) (db : Database) : Database → Type 0 where
  here : Reach payouts db db
  next : {d e : Database} → Reach payouts db d → Step payouts d e → Reach payouts db e

module _ {N : Numbers} {payouts : Payouts N} where
  Step-IsSound : {d e : Database} → IsSound d → Step payouts d e → IsSound e
  Step-IsSound {d} s (commission id now c) = record_commission-IsSound N id now c d s
  Step-IsSound {d} s (settle now id x) = settle-IsSound payouts now id d x s
  Step-IsSound {d} s (mark now id ids h x) = mark-IsSound N now id ids d h x s
  Step-IsSound {d} s (toggle id) = toggle_active-IsSound id d s

  Reach-IsSound : {s d : Database} → IsSound s → Reach payouts s d → IsSound d
  Reach-IsSound c here = c
  Reach-IsSound c (next r st) = Step-IsSound (Reach-IsSound c r) st

  -- After any sequence of calls that record, settle or mark commissions or switch an affiliate, the
  -- pending and total earnings of every affiliate that is found, in BRL and in USDT, are the sums
  -- of its pending and of its paid commissions, from a database where they are and commission ids
  -- are unique; where the sums of a payment come out exact, and a marking names pending
  -- commissions of its affiliate only.
  pub Reach-earnings :
      {s d : Database} {a : Affiliate} (id : ℕ)
      → IsSound s
      → Reach payouts s d
      → affiliate_by_id id d ≡ some a
      → (a.pending_earnings ≡ sum_where (is_pending_of a.id) brl d.affiliate_commissions)
        × (a.pending_earnings_usdt ≡ sum_where (is_pending_of a.id) usdt d.affiliate_commissions)
        × (a.total_earnings ≡ sum_where (is_paid_of a.id) brl d.affiliate_commissions)
        × (a.total_earnings_usdt ≡ sum_where (is_paid_of a.id) usdt d.affiliate_commissions)
  Reach-earnings {a = a} id c r e =
      let s = Reach-IsSound c r in
      let x = s.balanced id a e in (x.pending_brl, x.pending_usdt, x.paid_brl, x.paid_usdt)
