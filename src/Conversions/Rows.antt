-- ===== src/Conversions/Rows.antt =====
-- Reading and writing the table of conversions, as src/wallet/sell-processing.service.ts and
-- src/wallet/wallet.service.ts do through Prisma.
use otsem_api.Common.{
  ℕ, String, Bool, true, not, ◌||◌, Option, none, some, ◌∷◌, ◌==◌, find, any, is_some, show_ℕ,
}
use otsem_api.Database.Rows.{Conversion, Database}
use otsem_api.Database.Tables.{by, update_where}
use otsem_api.Database.Queries.{id_clash, account_by_id, customer_by_id}
use otsem_api.Database.Action.{
  Action, record_missing, unique_violation, foreign_key, pure, throw_if, gets, or_throw, modify,
  ◌>>=◌, ◌>>◌,
}
use otsem_api.Boleto.Payments.{wallet_by_id}
use otsem_api.Affiliates.Commissions.{affiliate_by_id}

-- An id as a text, where a column of texts holds it.
abbrev pub id_text : ℕ → String
id_text = show_ℕ

unfoldable pub conversion_by_id : ℕ → Database → Option Conversion
conversion_by_id id db = find (by (λ c. c.id) id) db.conversions

-- `conversion.update({ where: { id }, data })`
unfoldable pub update_conversion : ℕ → (Conversion → Conversion) → Action Conversion
update_conversion id f = do
  c ← or_throw (← gets (conversion_by_id id)) record_missing
  modify λ db. record db { conversions = update_where (by (λ c. c.id) id) f db.conversions }
  pure (f c)

-- The primary key and `transactionId @unique`.
abbrev pub conversion_clash : Conversion → Conversion → Bool
conversion_clash c d = d.id == c.id || id_clash c.transaction_id d.transaction_id

abbrev pub exists_if_set : Option ℕ → (ℕ → Database → Bool) → Database → Bool
exists_if_set none test db = true
exists_if_set (some id) test db = test id db

-- `conversion.create`, with its foreign keys
unfoldable pub insert_conversion : Conversion → Action Conversion
insert_conversion c = do
  throw_if (any (conversion_clash c) (← gets (λ db. db.conversions))) unique_violation
  or_throw (← gets (customer_by_id c.customer_id)) foreign_key
  or_throw (← gets (account_by_id c.account_id)) foreign_key
  throw_if (not (← gets (exists_if_set c.wallet_id (λ id db. is_some (wallet_by_id id db)))))
      foreign_key
  throw_if (not (← gets (exists_if_set c.affiliate_id (λ id db. is_some (affiliate_by_id id db)))))
      foreign_key
  modify λ db. record db { conversions = c ∷ db.conversions }
  pure c
