-- ===== src/Conversions/Affiliated.antt =====
-- A purchase by the customer of an active affiliate, from its checks on (`buyUsdtWithBrl` of
-- src/wallet/wallet.service.ts).
use otsem_api.Common.{
  ℕ, ◌≡◌, refl, sym, ap, subst, ◌∙◌, String, Bool, true, false, not, inl, inr, Option, none, some,
  arith, ◌==◌, find, Option-cases, or_text,
}
use otsem_api.Numbers.{Numbers}
use otsem_api.Database.Rows.{Account, Affiliate, Customer, Wallet, Database}
use otsem_api.Database.Tables.{by, find-by_sound}
use otsem_api.Database.Queries.{account_by_customer, customer_by_id, transaction_by_id}
use otsem_api.Database.Action.{
  Action, Error, is_ok, bad_request, or_throw, throw_if, bind-fails, ◌>>=◌, ◌>>◌,
}
use otsem_api.Kyc.Limits.{Month, get_monthly_limit, get_monthly_usage, validate_transaction_limit}
use otsem_api.Affiliates.Commissions.{affiliate_by_id}
use otsem_api.Affiliates.Links.{get_affiliate_for_customer, affiliate_of, when_active}
use otsem_api.Wallets.Keeping.{get_wallet_by_id}
use otsem_api.Conversions.Selling.{Fresh}
use otsem_api.Conversions.Buying.{Services}
use otsem_api.Conversions.Purchases.{
  destination, addressed, start_purchase, address_purchase, price_purchase, buy_usdt_with_brl,
  total_spread, exchanged, spread_amount, enough_balance, insufficient,
}
use otsem_api.Conversions.Foreign.{Foreign}
use otsem_api.Conversions.Refused.{Spares}
use otsem_api.Conversions.Outcomes.{affiliated_purchase_refused}

affiliate_of_known :
    (c : Option Customer) (db : Database) (a : Affiliate)
    → affiliate_of c db ≡ some a
    → affiliate_by_id a.id db ≡ some a
unfolding affiliate_by_id
affiliate_of_known none db a h = absurd (ground (arith, h))
affiliate_of_known (some c) db a h = elim (Option-cases c.affiliate_id) [
  | inl absent ↦ absurd (ground (arith, h, absent))
  | inr (id, e) ↦
      let found : find (by (λ a. a.id) id) db.affiliates ≡ some a = ground (arith, h, e) in
      ap (λ i. find (by (λ a. a.id) i) db.affiliates)
        (find-by_sound (λ a. a.id) id db.affiliates found)
      ∙ found
]

when_active-some : (o : Option Affiliate) (a : Affiliate) → when_active o ≡ some a → o ≡ some a
when_active-some none a h = absurd (ground (arith, h))
when_active-some (some b) a h = ground (arith, h)

affiliate_known :
    (customer_id : ℕ) (db : Database) (a : Affiliate)
    → get_affiliate_for_customer customer_id db ≡ some a
    → affiliate_by_id a.id db ≡ some a
unfolding get_affiliate_for_customer
affiliate_known customer_id db a h =
    affiliate_of_known (customer_by_id customer_id db) db a
      (when_active-some (affiliate_of (customer_by_id customer_id db) db) a h)

or_throw-reads : {A : Type 0} (o : Option A) (e : Error) (db : Database) → (or_throw o e db).1 ≡ db
or_throw-reads none e db = refl
or_throw-reads (some a) e db = refl

throw_if-reads : (b : Bool) (e : Error) (db : Database) → (throw_if b e db).1 ≡ db
throw_if-reads true e db = refl
throw_if-reads false e db = refl

validate-reads :
    (N : Numbers) (m : Month) (u : ℕ) (amount : N.Number) (db : Database)
    → (validate_transaction_limit N m u amount db).1 ≡ db
unfolding validate_transaction_limit get_monthly_usage get_monthly_limit
validate-reads N m u amount db = ground arith

module _ {N : Numbers} (services : Services N) (message : Error → String) where
  destination-reads :
      (customer_id : ℕ) (id : Option ℕ) (db : Database)
      → (destination services message customer_id id db).1 ≡ db
  unfolding destination get_wallet_by_id
  destination-reads customer_id none db = refl
  destination-reads customer_id (some id) db = ground arith

  module _ (fresh : Fresh) (customer_id : ℕ) (brl_amount : N.Number) (wallet_id : Option ℕ)
      (a : Affiliate) (spares : Spares services fresh.conversion_id)
      (apart : (fresh.transaction_id == fresh.conversion_id) ≡ false) where
    address_purchase_fails :
        (account : Account) (customer : Option Customer) (db : Database)
        → N.less (N.literal 0 0) (spread_amount services message brl_amount customer) ≡ true
        → Foreign fresh.conversion_id a.id a db
        → is_ok
            (address_purchase services message fresh customer_id account brl_amount wallet_id
              customer
              (some a)
              db).0
          ≡ false
    unfolding address_purchase
    address_purchase_fails account customer db spread there =
        let There : Database → Type 0 = Foreign fresh.conversion_id a.id a in
        let go : Wallet × String → Action N.Number = λ target.
          start_purchase services message
            (record {
              fresh = fresh;
              customer_id = customer_id;
              account = account;
              wallet = target.0;
              address = target.1;
              brl_amount = brl_amount;
              brl_to_exchange = exchanged services message brl_amount customer;
              spread_brl = spread_amount services message brl_amount customer;
              affiliate = some a;
            })
            (total_spread services message customer) in
        let read : Option Wallet → Action (Wallet × String) =
          λ chosen db. (addressed services message chosen, db) in
        bind-fails There (destination services message customer_id wallet_id)
          (λ chosen. read chosen >>= go) db
          (subst There (sym (destination-reads customer_id wallet_id db)) there)
          λ chosen d t. bind-fails There (read chosen) go d t λ target d' t'.
            affiliated_purchase_refused services message
              (record {
                fresh = fresh;
                customer_id = customer_id;
                account = account;
                wallet = target.0;
                address = target.1;
                brl_amount = brl_amount;
                brl_to_exchange = exchanged services message brl_amount customer;
                spread_brl = spread_amount services message brl_amount customer;
                affiliate = some a;
              })
              (total_spread services message customer) a d' refl spread spares apart t'.0 t'.1

    module _ (db : Database) (yours : get_affiliate_for_customer customer_id db ≡ some a)
        (spread : N.less
            (N.literal 0 0)
            (spread_amount services message brl_amount (customer_by_id customer_id db))
          ≡ true)
        (absent : transaction_by_id fresh.conversion_id db ≡ none) where
      price_purchase_fails :
          (account : Account)
          → is_ok
              (price_purchase services message fresh customer_id account brl_amount wallet_id db).0
            ≡ false
      unfolding price_purchase
      price_purchase_fails account = rw yours (
          address_purchase_fails account (customer_by_id customer_id db) db spread
            (affiliate_known customer_id db a yours, absent))

      -- A purchase by the customer of an active affiliate, at a spread above 0, always throws, whatever
      -- the exchange answers, whichever wallet is asked for and whatever the limits are: the commission
      -- names the conversion's id as its transaction, and no transaction has it. It is assumed that
      -- sending a Pix leaves the affiliates alone and makes no transaction of that id, and that the
      -- transaction of the purchase has another id than the conversion.
      pub buy_usdt_with_brl_refused :
          (month : Month)
          → is_ok
              (buy_usdt_with_brl services message fresh month customer_id brl_amount wallet_id db).0
            ≡ false
      unfolding buy_usdt_with_brl
      buy_usdt_with_brl_refused month =
          let Same : Database → Type 0 = λ d. d ≡ db in
          let owner = account_by_customer customer_id db in
          let none_there = insufficient services message in
          let finish : Account → Action N.Number = λ account.
            price_purchase services message fresh customer_id account brl_amount wallet_id in
          let allow : Account → Bool × Option String → Action N.Number = λ account limit.
            throw_if (not limit.0) (bad_request (or_text limit.1 "")) >> finish account in
          let check = validate_transaction_limit N month customer_id brl_amount in
          let rich : Account → Action Account =
            λ found d. (enough_balance services message brl_amount found, d) in
          let next : Account → Action N.Number = λ found. rich found >>= λ x. check >>= allow x in
          bind-fails Same (or_throw owner none_there) next db (or_throw-reads owner none_there db)
            λ found d1 s1.
              bind-fails Same (rich found) (λ x. check >>= allow x) d1 s1
                λ x d2 s2.
                  bind-fails Same check (allow x) d2
                    (validate-reads N month customer_id brl_amount d2 ∙ s2)
                    λ limit d3 s3.
                      let stop = bad_request (or_text limit.1 "") in
                      bind-fails Same (throw_if (not limit.0) stop) (λ _. finish x) d3
                        (throw_if-reads (not limit.0) stop d3 ∙ s3)
                        λ _ d4 s4.
                          subst (λ d. is_ok (finish x d).0 ≡ false) (sym s4)
                            (price_purchase_fails x)
