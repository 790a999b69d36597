-- ===== src/Affiliates/Commissions.antt =====
-- Recording commissions, marking them as paid, and the affiliate's own row:
-- src/affiliates/affiliates.service.ts. An increment of a Decimal column adds the number as the
-- column would round it.
use otsem_api.Common.{
  ℕ, ℤ, String, Bool, true, not, ◌&&◌, Option, none, some, List, [], ◌∷◌, map, ◌==◌, ◌+ℤ◌, ◌-ℤ◌,
  is_zero, find, any, select, length, is_some, if◌then◌else◌,
}
use otsem_api.Numbers.{Numbers}
use otsem_api.Database.Enums.{CommissionStatus, commission_status_is}
use otsem_api.Database.Rows.{Customer, Conversion, Affiliate, AffiliateCommission, Database}
use otsem_api.Database.Tables.{by, update_where}
use otsem_api.Database.Queries.{option_is, customer_by_id, transaction_by_id}
use otsem_api.Database.Action.{
  Action, not_found, record_missing, unique_violation, foreign_key, pure, throw_if, gets, or_throw,
  modify, transaction, ◌>>=◌, ◌>>◌,
}

unfoldable pub affiliate_by_id : ℕ → Database → Option Affiliate
affiliate_by_id id db = find (by (λ a. a.id) id) db.affiliates

-- `affiliate.update({ where: { id }, data })`
unfoldable pub update_affiliate : ℕ → (Affiliate → Affiliate) → Action Affiliate
update_affiliate id f = do
  a ← or_throw (← gets (affiliate_by_id id)) record_missing
  modify λ db. record db { affiliates = update_where (by (λ a. a.id) id) f db.affiliates }
  pure (f a)

abbrev pub flipped : Affiliate → Affiliate
flipped a = record a { is_active = not a.is_active }

unfoldable pub toggle_active : ℕ → Action Affiliate
toggle_active id = do
  or_throw (← gets (affiliate_by_id id)) (not_found "Afiliado não encontrado")
  update_affiliate id flipped

abbrev pub unlinked_customer : ℕ → Customer → Customer
unlinked_customer id c = if option_is c.affiliate_id id then record c { affiliate_id = none } else c

abbrev pub unlinked_conversion : ℕ → Conversion → Conversion
unlinked_conversion id c =
    if option_is c.affiliate_id id then record c { affiliate_id = none } else c

-- The four calls of the `$transaction`: unlink, delete the commissions, unlink, delete the row.
abbrev pub without_affiliate : ℕ → Database → Database
without_affiliate id db = record db {
  customers = map (unlinked_customer id) db.customers;
  affiliate_commissions =
      select (λ c. not (by (λ c. c.affiliate_id) id c)) db.affiliate_commissions;
  conversions = map (unlinked_conversion id) db.conversions;
  affiliates = select (λ a. not (by (λ a. a.id) id a)) db.affiliates;
}

-- `deleteAffiliate`; its answer is the row that was deleted.
unfoldable pub delete_affiliate : ℕ → Action Affiliate
delete_affiliate id = do
  a ← or_throw (← gets (affiliate_by_id id)) (not_found "Afiliado não encontrado")
  modify (without_affiliate id)
  pure a

-- `status: 'PENDING'` of one affiliate, and what was paid to it.
unfoldable pub is_pending_of : ℕ → AffiliateCommission → Bool
is_pending_of id c = c.affiliate_id == id && commission_status_is c.status CommissionStatus.pending

-- `id: { in: ids }`
abbrev pub is_in : List ℕ → ℕ → Bool
is_in ids id = any (λ j. j == id) ids

abbrev pub paid_row : (now : ℕ) → Option String → AffiliateCommission → AffiliateCommission
paid_row now tx_id c = record c {
  status = CommissionStatus.paid;
  paid_at = some now;
  settlement_tx_id = tx_id;
}

-- Marking by hand leaves the settlement's id as it is.
abbrev pub marked_row : (now : ℕ) → AffiliateCommission → AffiliateCommission
marked_row now c = record c { status = CommissionStatus.paid; paid_at = some now }

abbrev pub earn : (brl usdt : ℤ) → Affiliate → Affiliate
earn brl usdt a = record a {
  pending_earnings = a.pending_earnings +ℤ brl;
  pending_earnings_usdt = a.pending_earnings_usdt +ℤ usdt;
}

abbrev pub collect : (brl usdt : ℤ) → Affiliate → Affiliate
collect brl usdt a = record a {
  pending_earnings = a.pending_earnings -ℤ brl;
  total_earnings = a.total_earnings +ℤ brl;
  pending_earnings_usdt = a.pending_earnings_usdt -ℤ usdt;
  total_earnings_usdt = a.total_earnings_usdt +ℤ usdt;
}

unfoldable pub transaction_exists : Option ℕ → Database → Bool
transaction_exists none db = true
transaction_exists (some id) db = is_some (transaction_by_id id db)

-- `affiliateCommission.create`, with its foreign keys
unfoldable pub insert_commission : AffiliateCommission → Action AffiliateCommission
unfolding transaction_exists
insert_commission c = do
  throw_if (any (by (λ d. d.id) c.id) (← gets (λ db. db.affiliate_commissions))) unique_violation
  or_throw (← gets (affiliate_by_id c.affiliate_id)) foreign_key
  or_throw (← gets (customer_by_id c.customer_id)) foreign_key
  throw_if (not (← gets (transaction_exists c.transaction_id))) foreign_key
  modify λ db. record db { affiliate_commissions = c ∷ db.affiliate_commissions }
  pure c

-- `affiliateCommission.updateMany({ where: { id: { in: ids } }, data })`
unfoldable pub pay_commissions :
    List ℕ → (AffiliateCommission → AffiliateCommission) → Action (Unit {0})
pay_commissions ids f = modify λ db. record db {
  affiliate_commissions = update_where (λ c. is_in ids c.id) f db.affiliate_commissions;
}

module _ (N : Numbers) where
  open N use {Number, literal, plus, times, over, less, to_number, to_column}

  -- The argument of `recordCommission`.
  pub record CommissionData : Type 0 where
    pub affiliate_id : ℕ
    pub customer_id : ℕ
    pub conversion_id : Option ℕ
    pub conversion_type : Option String
    pub transaction_id : Option ℕ
    pub transaction_amount : Number
    pub spread_brl : Number
    pub exchange_rate : Number

  abbrev pub default_commission_rate : Number
  default_commission_rate = literal 3 2

  -- `Number(affiliate.commissionRate) || DEFAULT_COMMISSION_RATE`
  unfoldable pub rate_of : Affiliate → Number
  rate_of a =
      if is_zero a.commission_rate then default_commission_rate else to_number 6 a.commission_rate

  unfoldable pub commission_row : (id now : ℕ) → CommissionData → Affiliate → AffiliateCommission
  commission_row id now d a =
      let commission_rate = rate_of a in
      let commission_brl = times d.spread_brl commission_rate in
      let commission_usdt =
        if less (literal 0 0) d.exchange_rate
        then over commission_brl d.exchange_rate
        else literal 0 0 in
      record {
        id = id;
        affiliate_id = d.affiliate_id;
        customer_id = d.customer_id;
        transaction_id = d.transaction_id;
        conversion_id = d.conversion_id;
        conversion_type = d.conversion_type;
        transaction_amount = to_column 2 d.transaction_amount;
        spread_brl = to_column 2 d.spread_brl;
        commission_rate = to_column 6 commission_rate;
        commission_brl = to_column 2 commission_brl;
        commission_usdt = to_column 6 commission_usdt;
        exchange_rate = to_column 4 d.exchange_rate;
        status = CommissionStatus.pending;
        paid_at = none;
        settlement_tx_id = none;
        created_at = now;
      }

  -- Create the row, then increment the affiliate's pending earnings.
  unfoldable pub book_commission : AffiliateCommission → Action (Option AffiliateCommission)
  book_commission c = do
    created ← insert_commission c
    update_affiliate c.affiliate_id (earn c.commission_brl c.commission_usdt)
    pure (some created)

  unfoldable pub record_commission :
      (id now : ℕ) → CommissionData → Action (Option AffiliateCommission)
  record_commission id now d = do
    affiliate ← gets (affiliate_by_id d.affiliate_id)
    elim affiliate [ none ↦ pure none | some a ↦ book_commission (commission_row id now d a) ]

  -- `commissions.reduce((sum, c) => sum + Number(c.commissionBrl), 0)`
  unfoldable pub reduce_from :
      (k : ℕ) → (AffiliateCommission → ℤ) → Number → List AffiliateCommission → Number
  reduce_from k m sum [] = sum
  reduce_from k m sum (c ∷ cs) = reduce_from k m (plus sum (to_number k (m c))) cs

  abbrev pub total_brl : List AffiliateCommission → Number
  total_brl = reduce_from 2 (λ c. c.commission_brl) (literal 0 0)

  abbrev pub total_usdt : List AffiliateCommission → Number
  total_usdt = reduce_from 6 (λ c. c.commission_usdt) (literal 0 0)

  -- The `$transaction` that pays `rows`: `ids` are the rows written.
  unfoldable pub pay_affiliate :
      ℕ
      → List ℕ
      → (AffiliateCommission → AffiliateCommission)
      → List AffiliateCommission
      → Action (Unit {0})
  pay_affiliate affiliate_id ids f rows = transaction (do
    pay_commissions ids f
    update_affiliate affiliate_id
        (collect (to_column 2 (total_brl rows)) (to_column 6 (total_usdt rows)))
    pure tt)

  -- The answer counts the commissions that were pending.
  unfoldable pub mark_commissions_as_paid : (now : ℕ) → ℕ → List ℕ → Action ℕ
  mark_commissions_as_paid now affiliate_id ids = do
    commissions ←
        gets λ db.
          select (λ c. is_in ids c.id && is_pending_of affiliate_id c) db.affiliate_commissions
    throw_if (length commissions == 0) (not_found "Nenhuma comissão pendente encontrada")
    pay_affiliate affiliate_id ids (marked_row now) commissions
    pure (length commissions)
