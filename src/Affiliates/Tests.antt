-- ===== src/Affiliates/Tests.antt =====
-- Runs of the affiliates' service, and the theorems at those runs.
use otsem_api.Common.{
  ℕ, pos, ◌≡◌, refl, none, some, [], ◌∷◌, arith, true, ◌*◌, find, any, select, ◌+ℤ◌, ◌-ℤ◌,
}
use otsem_api.Samples.{affiliate, scale, scaled, bank}
use otsem_api.Database.Enums.{commission_status_is}
use otsem_api.Database.Rows.{Affiliate, AffiliateCommission, Database}
use otsem_api.Database.Tables.{update_where, sum_of}
use otsem_api.Database.Queries.{customer_by_id, transaction_by_id}
use otsem_api.Database.Action.{ok, err, failure}
use otsem_api.Affiliates.Commissions.{
  CommissionData, affiliate_by_id, update_affiliate, insert_commission, book_commission,
  record_commission, commission_row, rate_of, reduce_from, pay_commissions, pay_affiliate,
  mark_commissions_as_paid, is_pending_of, is_in, marked_row,
}
use otsem_api.Affiliates.Settlement.{
  Payouts, settle_commission_usdt, settle_affiliate, settle_to, pay_pending, send_tron,
  amount_to_send,
}
use otsem_api.Affiliates.Sums.{sum_where}
use otsem_api.Affiliates.Earnings.{is_paid_of, brl, usdt}
use otsem_api.Affiliates.Soundness.{IsSound, AddsUp}
use otsem_api.Affiliates.Steps.{Step, Reach, Reach-earnings}
use otsem_api.Affiliates.Marking.{commission_by_id, mark_commissions_as_paid_foreign}

affiliates : Unit {0}
unfolding affiliate_by_id update_affiliate insert_commission book_commission record_commission
    commission_row rate_of reduce_from pay_commissions pay_affiliate mark_commissions_as_paid
    is_pending_of is_paid_of settle_commission_usdt settle_affiliate settle_to pay_pending send_tron
    amount_to_send sum_where commission_by_id commission_status_is customer_by_id transaction_by_id
    update_where sum_of find any select ◌+ℤ◌ ◌-ℤ◌
affiliates = tt

abbrev agency : Database
agency = record bank { affiliates = affiliate 1 "0X" ∷ affiliate 2 "B" ∷ [] }

agency-IsSound : IsSound agency
unfolding affiliates
agency-IsSound = record {
  distinct = tt;
  balanced = λ id a e. record {
    pending_brl = ground arith;
    pending_usdt = ground arith;
    paid_brl = ground arith;
    paid_usdt = ground arith;
  };
}

-- A spread of R$ 100 at R$ 5 per USDT: a commission of R$ 10, or 2 USDT.
abbrev spread : ℕ → CommissionData scaled
spread affiliate_id = record {
  affiliate_id = affiliate_id;
  customer_id = 10;
  conversion_id = none;
  conversion_type = none;
  transaction_id = none;
  transaction_amount = 1000 * scale;
  spread_brl = 100 * scale;
  exchange_rate = 5 * scale;
}

abbrev owed : Database
owed = (record_commission scaled 7 100 (spread 1) agency).1

abbrev payouts : Payouts scaled
payouts = record {
  send_usdt = λ _ _. ok "tx";
  transfer_to_funding = λ _. err (failure "offline");
  withdraw_usdt = λ _ _. err (failure "offline");
}

abbrev settled : Database
settled = (settle_commission_usdt payouts 200 1 owed).1

owed-AddsUp : AddsUp scaled (select (is_pending_of 1) owed.affiliate_commissions)
unfolding affiliates
owed-AddsUp = (refl, refl)

abbrev paid_affiliate : Affiliate
paid_affiliate = record (affiliate 1 "0X") {
  total_earnings = pos 1000;
  total_earnings_usdt = pos 2_000_000;
}

settled_affiliate : affiliate_by_id 1 settled ≡ some paid_affiliate
unfolding affiliates
settled_affiliate = refl

Reach-earnings_example :
    (pos 0 ≡ sum_where (is_pending_of 1) brl settled.affiliate_commissions)
    × (pos 0 ≡ sum_where (is_pending_of 1) usdt settled.affiliate_commissions)
    × (pos 1000 ≡ sum_where (is_paid_of 1) brl settled.affiliate_commissions)
    × (pos 2_000_000 ≡ sum_where (is_paid_of 1) usdt settled.affiliate_commissions)
Reach-earnings_example =
    Reach-earnings {payouts = payouts} 1 agency-IsSound
      (Reach.next (Reach.next Reach.here (Step.commission 7 100 (spread 1)))
        (Step.settle 200 1 owed-AddsUp))
      settled_affiliate

-- Two affiliates have one commission each; marking for the first one names both.
abbrev both : Database
both = (record_commission scaled 8 101 (spread 2) owed).1

abbrev foreign : AffiliateCommission
foreign = commission_row scaled 8 101 (spread 2) (affiliate 2 "B")

foreign_known : commission_by_id 8 both ≡ some foreign
unfolding affiliates
foreign_known = refl

abbrev both_marked : Database
both_marked = (mark_commissions_as_paid scaled 300 1 (7 ∷ 8 ∷ []) both).1

marking_ok : mark_commissions_as_paid scaled 300 1 (7 ∷ 8 ∷ []) both ≡ (ok 1, both_marked)
unfolding affiliates
marking_ok = refl

foreign_named : is_in (7 ∷ 8 ∷ []) 8 ≡ true
unfolding affiliates
foreign_named = refl

mark_commissions_as_paid_foreign_example :
    commission_by_id 8 both_marked ≡ some (marked_row 300 foreign)
mark_commissions_as_paid_foreign_example =
    mark_commissions_as_paid_foreign scaled 300 1 8 (7 ∷ 8 ∷ []) both marking_ok foreign_known
      foreign_named
