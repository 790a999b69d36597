-- ===== src/Conversions/Refused.antt =====
-- What becomes of a purchase by the customer of an active affiliate (`buyUsdtWithBrl` of
-- src/wallet/wallet.service.ts).
use otsem_api.Common.{
  ℕ, ◌≡◌, refl, String, true, false, not, Option, none, some, [], ◌∷◌, ◌==◌, if◌then◌else◌,
  template,
}
use otsem_api.Numbers.{Numbers}
use otsem_api.Database.Enums.{ConversionStatus}
use otsem_api.Database.Rows.{Affiliate, Conversion, Database}
use otsem_api.Database.Queries.{transaction_by_id, create_transaction}
use otsem_api.Database.Action.{
  Action, Result, is_ok, failure, throw_if, pure, bind-stops, bind-fails, ◌>>=◌, ◌>>◌,
}
use otsem_api.Affiliates.Commissions.{
  CommissionData, affiliate_by_id, insert_commission, book_commission, record_commission,
  commission_row, update_affiliate, earn,
}
use otsem_api.Affiliates.Effects.{record_commission_known}
use otsem_api.Conversions.Rows.{update_conversion}
use otsem_api.Conversions.Foreign.{Foreign, insert_commission_fails, update-Foreign, create-Foreign}
use otsem_api.Conversions.Selling.{settle_recorded}
use otsem_api.Conversions.Buying.{
  Services, PixAnswer, Bought, Purchase, commission_for_purchase, complete_purchase, share_purchase,
  withdraw_purchase, record_purchase, exchange_purchase, pay_purchase, with_status, bought, filled,
  purchase_row, paid_by, network_fee, money_text, is_tron,
}

-- What is assumed of the bank: a Pix leaves the affiliates alone, and makes no transaction of a
-- given id.
abbrev pub Spares : {N : Numbers} → Services N → (id : ℕ) → Type 0
Spares {N} services id =
    (customer_id : ℕ) (amount : N.Number) (d : Database)
    → ((services.send_pix customer_id amount d).1.affiliates ≡ d.affiliates)
      × (transaction_by_id id d ≡ none
          → transaction_by_id id (services.send_pix customer_id amount d).1 ≡ none)

module _ {N : Numbers} (services : Services N) (p : Purchase services) (a : Affiliate)
    (yours : p.affiliate ≡ some a) (spread : N.less (N.literal 0 0) p.spread_brl ≡ true) where
  abbrev There : Database → Type 0
  There = Foreign p.fresh.conversion_id a.id a

  record_fails :
      (d : CommissionData N) (db : Database)
      → d.affiliate_id ≡ a.id
      → d.transaction_id ≡ some p.fresh.conversion_id
      → There db
      → is_ok (record_commission N p.fresh.commission_id p.fresh.now d db).0 ≡ false
  unfolding book_commission commission_row
  record_fails d db mine named (known, absent) =
      let c = commission_row N p.fresh.commission_id p.fresh.now d a in
      rw (record_commission_known N p.fresh.commission_id p.fresh.now d db a (rw mine known)) (
        bind-stops (insert_commission c)
          (λ created.
            update_affiliate c.affiliate_id (earn c.commission_brl c.commission_usdt)
            >> pure (some created))
          db (insert_commission_fails p.fresh.conversion_id c db named absent))

  commission_fails :
      (rate : N.Number) (affiliate : Option Affiliate) (db : Database)
      → affiliate ≡ some a
      → There db
      → is_ok (commission_for_purchase services p rate affiliate db).0 ≡ false
  unfolding commission_for_purchase
  commission_fails rate affiliate db is there =
      let entry : CommissionData N = record {
        affiliate_id = a.id;
        customer_id = p.customer_id;
        conversion_id = some p.fresh.conversion_id;
        conversion_type = some "BUY";
        transaction_id = some p.fresh.conversion_id;
        transaction_amount = p.brl_amount;
        spread_brl = p.spread_brl;
        exchange_rate = rate;
      } in
      rw (is, spread)
        (bind-stops (record_commission N p.fresh.commission_id p.fresh.now entry)
          (settle_recorded services.exchange p.fresh.now a.id) db
          (record_fails entry db refl refl there))

  share_fails :
      (usdt : N.Number) (w : Option String) (db : Database)
      → There db
      → is_ok (share_purchase services p usdt w db).0 ≡ false
  unfolding share_purchase
  share_fails usdt w db there =
      let rate = N.over p.brl_to_exchange usdt in
      bind-stops (commission_for_purchase services p rate p.affiliate)
        (complete_purchase services p usdt w) db (commission_fails rate p.affiliate db yours there)

  kept :
      (f : Conversion → Conversion) (db : Database)
      → There db
      → There (update_conversion p.fresh.conversion_id f db).1
  kept f db there = update-Foreign p.fresh.conversion_id a.id a p.fresh.conversion_id f db there

  withdraw_fails :
      (usdt : N.Number) (db : Database)
      → There db
      → is_ok (withdraw_purchase services p usdt db).0 ≡ false
  unfolding withdraw_purchase
  withdraw_fails usdt db there =
      let net = N.minus usdt (network_fee services p) in
      let sent : Result (Option String) =
        services.withdraw_usdt_simple (money_text services net) p.address
          (if is_tron services p then "TRC20" else "Solana") (N.to_text (network_fee services p)) in
      let moved = services.transfer_from_trading_to_funding (money_text services usdt) in
      let send : Action N.Number = (λ db. (sent, db)) >>= share_purchase services p usdt in
      let transfer : Action N.Number = (λ db. (moved, db)) >> send in
      let enough : Action (Unit {0}) = throw_if (not (N.less (N.literal 0 0) net)) (
        failure (
          template (
            "USDT comprado ("
            ∷ N.to_text usdt
            ∷ ") insuficiente para cobrir taxa de rede ("
            ∷ N.to_text (network_fee services p)
            ∷ ")"
            ∷ []))) in
      bind-fails There
        (update_conversion p.fresh.conversion_id (with_status ConversionStatus.usdt_withdrawn))
        (λ _. enough >> transfer) db (kept (with_status ConversionStatus.usdt_withdrawn) db there)
        λ _ d1 t1.
          bind-fails There enough (λ _. transfer) d1 t1
            λ _ d2 t2.
              bind-fails There (λ db. (moved, db)) (λ _. send) d2 t2
                λ _ d3 t3.
                  bind-fails There (λ db. (sent, db)) (share_purchase services p usdt) d3 t3
                    (λ w d4 t4. share_fails usdt w d4 t4)

  record_purchase_fails :
      (pix : PixAnswer) (usdt : N.Number) (order_id : Option String) (db : Database)
      → (p.fresh.transaction_id == p.fresh.conversion_id) ≡ false
      → There db
      → is_ok (record_purchase services p pix usdt order_id db).0 ≡ false
  unfolding record_purchase
  record_purchase_fails pix usdt order_id db apart there =
      let some_usdt : Action (Unit {0}) =
        throw_if (not (N.less (N.literal 0 0) usdt))
          (failure "Não foi possível determinar a quantidade de USDT comprada") in
      let t = purchase_row services p pix usdt in
      let rest : Action N.Number = create_transaction t >> withdraw_purchase services p usdt in
      let write = update_conversion p.fresh.conversion_id (bought services p usdt order_id) in
      bind-fails There some_usdt (λ _. write >> rest) db there
        λ _ d1 t1.
          bind-fails There write (λ _. rest) d1 (kept (bought services p usdt order_id) d1 t1)
            λ _ d2 t2.
              bind-fails There (create_transaction t) (λ _. withdraw_purchase services p usdt) d2
                (create-Foreign p.fresh.conversion_id a.id a t d2 apart t2)
                (λ _ d3 t3. withdraw_fails usdt d3 t3)

  after_pix :
      (d : Database)
      → Spares services p.fresh.conversion_id
      → There d
      → There (services.send_pix p.customer_id p.brl_amount d).1
  unfolding affiliate_by_id
  after_pix d spares (known, absent) =
      let (same, absent_still) = spares p.customer_id p.brl_amount d in
      (rw same known, absent_still absent)

  -- The body of the `try` throws, whatever the exchange answers.
  pub pay_purchase_fails :
      (db : Database)
      → Spares services p.fresh.conversion_id
      → (p.fresh.transaction_id == p.fresh.conversion_id) ≡ false
      → There db
      → is_ok (pay_purchase services p db).0 ≡ false
  unfolding pay_purchase exchange_purchase
  pay_purchase_fails db spares apart there =
      let zero = N.literal 0 0 in
      let buy : Result (Bought N) = services.buy_and_check_history p.brl_to_exchange in
      let start = update_conversion p.fresh.conversion_id (with_status ConversionStatus.pix_sent) in
      let step =
        update_conversion p.fresh.conversion_id (with_status ConversionStatus.usdt_bought) in
      let note : PixAnswer → Action Conversion =
        λ pix. update_conversion p.fresh.conversion_id (paid_by services pix) in
      let order : PixAnswer → Action N.Number = λ pix. (λ db. (buy, db)) >>= λ b.
      record_purchase services p pix (filled services zero b.fills) b.order_id in
      let go : PixAnswer → Action N.Number = λ pix. note pix >> (step >> order pix) in
      let pix = services.send_pix p.customer_id p.brl_amount in
      bind-fails There start (λ _. pix >>= go) db
        (kept (with_status ConversionStatus.pix_sent) db there)
        λ _ d1 t1. bind-fails There pix go d1 (after_pix d1 spares t1) λ x d2 t2.
          bind-fails There (note x) (λ _. step >> order x) d2 (kept (paid_by services x) d2 t2)
            λ _ d3 t3.
              bind-fails There step (λ _. order x) d3
                (kept (with_status ConversionStatus.usdt_bought) d3 t3)
                λ _ d4 t4.
                  bind-fails There (λ db. (buy, db))
                    (λ b. record_purchase services p x (filled services zero b.fills) b.order_id) d4
                    t4
                    (λ b d5 t5.
                      record_purchase_fails x (filled services zero b.fills) b.order_id d5 apart t5)
