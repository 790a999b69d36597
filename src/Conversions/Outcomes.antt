-- ===== src/Conversions/Outcomes.antt =====
-- What a purchase leaves behind when it throws (`buyUsdtWithBrl` of
-- src/wallet/wallet.service.ts).
use otsem_api.Common.{
  ℕ, ◌≡◌, refl, sym, ap, ◌∙◌, String, Bool, true, false, inl, inr, none, some, [], ◌∷◌, arith, ◌==◌,
  find, Option-cases, template,
}
use otsem_api.Numbers.{Numbers}
use otsem_api.Database.Enums.{ConversionStatus}
use otsem_api.Database.Rows.{Affiliate, Conversion, Database}
use otsem_api.Database.Tables.{by, find-update_where}
use otsem_api.Database.Action.{
  Action, Error, ok, err, is_ok, bad_request, Result-cases, answered, bound_to, then-cases,
  bind-fails, ◌>>◌,
}
use otsem_api.Affiliates.Commissions.{affiliate_by_id}
use otsem_api.Database.Queries.{transaction_by_id}
use otsem_api.Wallets.Keeping.{mark_wallet_as_not_whitelisted}
use otsem_api.Conversions.Rows.{conversion_by_id, update_conversion, insert_conversion}
use otsem_api.Conversions.Messages.{is_okx_whitelist_error_message}
use otsem_api.Conversions.Buying.{Services, Purchase, pay_purchase, failed_with}
use otsem_api.Conversions.Purchases.{
  public_message, mark_if, fail_purchase, try_purchase, start_purchase, purchase_conversion,
}
use otsem_api.Conversions.Foreign.{Foreign, insert-Foreign}
use otsem_api.Conversions.Refused.{Spares, pay_purchase_fails}

mark_if-answers :
    (b : Bool) (id : ℕ) (d : Database) → (d' : Database) × (mark_if b id d ≡ (ok tt, d'))
unfolding mark_wallet_as_not_whitelisted
mark_if-answers true id d = (_, refl)
mark_if-answers false id d = (d, refl)

-- A row that is found by its id after an update of that id was written by it.
update_conversion-writes :
    (k : ℕ) (f : Conversion → Conversion) (keep : (c : Conversion) → (f c).id ≡ c.id) (d : Database)
    (y : Conversion)
    → conversion_by_id k (update_conversion k f d).1 ≡ some y
    → (c : Conversion) × (y ≡ f c)
unfolding conversion_by_id update_conversion
update_conversion-writes k f keep d y h =
    elim (Option-cases (find (by (λ c. c.id) k) d.conversions)) [
      | inl absent ↦ absurd (ground (arith, h, absent))
      | inr (c, e) ↦
          (c, ground (arith, h, e, find-update_where (λ c. c.id) f keep k k d.conversions))
    ]

abbrev thrown : (N : Numbers) → String → Action N.Number
thrown N m db = (err (bad_request (template ("Erro na compra USDT: " ∷ m ∷ []))), db)

module _ {N : Numbers} (services : Services N) (message : Error → String) where
  fail_purchase_lem :
      (p : Purchase services) (e : Error) (db : Database)
      → (is_ok (fail_purchase services message p e db).0 ≡ false)
        × ((y : Conversion)
            → conversion_by_id p.fresh.conversion_id (fail_purchase services message p e db).1
              ≡ some y
            → y.status ≡ ConversionStatus.failed)
  unfolding fail_purchase
  fail_purchase_lem p e db =
      let text = public_message (message e) in
      let (d, marked) =
        mark_if-answers (is_okx_whitelist_error_message (message e)) p.wallet.id db in
      let note = update_conversion p.fresh.conversion_id (failed_with text) in
      let throw : Action N.Number = thrown N text in
      let after : (note >> throw) d ≡ (note >> throw) d = refl in
      rw
        (bound_to (mark_if (is_okx_whitelist_error_message (message e)) p.wallet.id)
          (λ _. note >> throw) marked)
        (
          bind-fails (λ _. Unit {0}) note (λ _. throw) d tt (λ _ _ _. refl),
          λ y h.
              let same : ((note >> throw) d).1 ≡ (note d).1 = elim (then-cases note throw d) [
                | inl at ↦ at
                | inr at ↦ at
              ] in
              let (c, is) =
                update_conversion-writes p.fresh.conversion_id (failed_with text) (λ c. refl) d y
                  (ap (conversion_by_id p.fresh.conversion_id) (sym same) ∙ h) in
              ap (λ c. c.status) is,
        )

  try_purchase-of_err :
      (p : Purchase services) (db d : Database) (e : Error)
      → pay_purchase services p db ≡ (err e, d)
      → try_purchase services message p db ≡ fail_purchase services message p e d
  unfolding try_purchase
  try_purchase-of_err p db d e r = ground (arith, r)

  try_purchase_throws :
      (p : Purchase services) (db : Database)
      → is_ok (pay_purchase services p db).0 ≡ false
      → is_ok (try_purchase services message p db).0 ≡ false
  unfolding try_purchase
  try_purchase_throws p db h = elim (Result-cases (pay_purchase services p db).0) [
    | inl (e, r) ↦
        rw
          (try_purchase-of_err p db (pay_purchase services p db).1 e
            (answered (pay_purchase services p db) r))
          (fail_purchase_lem p e (pay_purchase services p db).1).0
    | inr (u, r) ↦ absurd (ground (arith, r, h))
  ]

  -- Whatever the bank and the exchange answer, when the `try` of a purchase with its `catch` throws,
  -- the conversion of the purchase, if it is in the database afterwards, is FAILED.
  pub try_purchase_failed :
      (p : Purchase services) (db : Database) (y : Conversion)
      → is_ok (try_purchase services message p db).0 ≡ false
      → conversion_by_id p.fresh.conversion_id (try_purchase services message p db).1 ≡ some y
      → y.status ≡ ConversionStatus.failed
  unfolding try_purchase
  try_purchase_failed p db y throws found = elim (Result-cases (pay_purchase services p db).0) [
    | inl (e, r) ↦ (fail_purchase_lem p e (pay_purchase services p db).1).1 y (
        ap (λ x. conversion_by_id p.fresh.conversion_id x.1)
          (sym (
            try_purchase-of_err p db (pay_purchase services p db).1 e
              (answered (pay_purchase services p db) r)))
        ∙ found)
    | inr (u, r) ↦ absurd (ground (arith, r, throws))
  ]

module _ {N : Numbers} (services : Services N) (message : Error → String) where
  -- Once its conversion is to be created, the purchase of an affiliate's customer throws.
  pub affiliated_purchase_refused :
      (p : Purchase services) (spread_percent : N.Number) (a : Affiliate) (db : Database)
      → p.affiliate ≡ some a
      → N.less (N.literal 0 0) p.spread_brl ≡ true
      → Spares services p.fresh.conversion_id
      → (p.fresh.transaction_id == p.fresh.conversion_id) ≡ false
      → affiliate_by_id a.id db ≡ some a
      → transaction_by_id p.fresh.conversion_id db ≡ none
      → is_ok (start_purchase services message p spread_percent db).0 ≡ false
  unfolding start_purchase
  affiliated_purchase_refused p spread_percent a db yours spread spares apart known absent =
      let c = purchase_conversion services message p spread_percent in
      bind-fails (Foreign p.fresh.conversion_id a.id a) (insert_conversion c)
        (λ _. try_purchase services message p) db
        (insert-Foreign p.fresh.conversion_id a.id a c db (known, absent))
        (λ _ d there.
          try_purchase_throws services message p d
            (pay_purchase_fails services p a yours spread d spares apart there))
