-- ===== src/Conversions/Foreign.antt =====
-- That the id of a conversion is the id of no transaction, and what keeps it so (`buyUsdtWithBrl`
-- of src/wallet/wallet.service.ts).
use otsem_api.Common.{ℕ, ◌≡◌, false, ◌⊎◌, inl, inr, none, some, ◌∷◌, arith, ◌==◌, find}
use otsem_api.Database.Rows.{Affiliate, AffiliateCommission, Conversion, Transaction, Database}
use otsem_api.Database.Tables.{by, update_where}
use otsem_api.Database.Queries.{transaction_by_id, create_transaction}
use otsem_api.Database.Action.{is_ok}
use otsem_api.Affiliates.Commissions.{affiliate_by_id, insert_commission, transaction_exists}
use otsem_api.Conversions.Rows.{update_conversion, insert_conversion}

pub insert_commission_fails :
    (id : ℕ) (c : AffiliateCommission) (db : Database)
    → c.transaction_id ≡ some id
    → transaction_by_id id db ≡ none
    → is_ok (insert_commission c db).0 ≡ false
unfolding insert_commission transaction_exists
insert_commission_fails id c db e h = ground (arith, e, h)

update-cases :
    (k : ℕ) (f : Conversion → Conversion) (d : Database)
    → ((update_conversion k f d).1 ≡ d)
      ⊎ ((update_conversion k f d).1
          ≡ record d { conversions = update_where (by (λ c. c.id) k) f d.conversions })
unfolding update_conversion
update-cases k f d = ground arith

create-cases :
    (t : Transaction) (d : Database)
    → ((create_transaction t d).1 ≡ d)
      ⊎ ((create_transaction t d).1 ≡ record d { transactions = t ∷ d.transactions })
unfolding create_transaction
create-cases t d = ground arith

module _ (id affiliate_id : ℕ) (a : Affiliate) where
  -- The affiliate is there, and no transaction has the id of the conversion.
  abbrev pub Foreign : Database → Type 0
  Foreign d = (affiliate_by_id affiliate_id d ≡ some a) × (transaction_by_id id d ≡ none)

  pub update-Foreign :
      (k : ℕ) (f : Conversion → Conversion) (d : Database)
      → Foreign d
      → Foreign (update_conversion k f d).1
  unfolding affiliate_by_id transaction_by_id
  update-Foreign k f d h = elim (update-cases k f d) [ inl same ↦ rw same h | inr went ↦ rw went h ]

  pub create-Foreign :
      (t : Transaction) (d : Database)
      → (t.id == id) ≡ false
      → Foreign d
      → Foreign (create_transaction t d).1
  unfolding affiliate_by_id transaction_by_id find
  create-Foreign t d other (known, none_there) = elim (create-cases t d) [
    | inl same ↦ rw same (known, none_there)
    | inr went ↦ rw went (known, rw other none_there)
  ]

pub insert-Foreign :
    (id affiliate_id : ℕ) (a : Affiliate) (c : Conversion) (d : Database)
    → Foreign id affiliate_id a d
    → Foreign id affiliate_id a (insert_conversion c d).1
unfolding insert_conversion affiliate_by_id transaction_by_id
insert-Foreign id affiliate_id a c d h = ground (arith, h)
