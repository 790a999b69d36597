-- ===== src/Database/Queries.antt =====
-- The Prisma calls that the services share, over the tables and their constraints.
use otsem_api.Common.{
  ℕ, ℤ, String, Bool, false, Option, none, some, ◌∷◌, ◌==◌, ◌||◌, find, any, text_is,
}
use otsem_api.Database.Rows.{Customer, Account, Transaction, Database}
use otsem_api.Database.Tables.{by, update_where}
use otsem_api.Database.Action.{
  Action, record_missing, unique_violation, foreign_key, pure, gets, or_throw, modify, throw_if,
  ◌>>=◌, ◌>>◌,
}

abbrev pub option_is : Option ℕ → ℕ → Bool
option_is none k = false
option_is (some j) k = j == k

-- Two optional unique columns clash when both are set and equal.
abbrev pub text_clash : Option String → Option String → Bool
text_clash none t = false
text_clash (some s) t = text_is t s

abbrev pub id_clash : Option ℕ → Option ℕ → Bool
id_clash none t = false
id_clash (some k) t = option_is t k

-- `account.findUnique`, by id, by customer, by Pix key
unfoldable pub account_by_id : ℕ → Database → Option Account
account_by_id id db = find (by (λ a. a.id) id) db.accounts

unfoldable pub account_by_customer : ℕ → Database → Option Account
account_by_customer customer_id db = find (by (λ a. a.customer_id) customer_id) db.accounts

unfoldable pub account_by_pix_key : String → Database → Option Account
account_by_pix_key key db = find (λ a. text_is a.pix_key key) db.accounts

unfoldable pub customer_by_id : ℕ → Database → Option Customer
customer_by_id id db = find (by (λ c. c.id) id) db.customers

unfoldable pub customer_by_username : String → Database → Option Customer
customer_by_username name db = find (λ c. text_is c.username name) db.customers

unfoldable pub transaction_by_id : ℕ → Database → Option Transaction
transaction_by_id id db = find (by (λ t. t.id) id) db.transactions

unfoldable pub transaction_by_external_id : String → Database → Option Transaction
transaction_by_external_id id db = find (λ t. text_is t.external_id id) db.transactions

abbrev pub with_balance : ℤ → Account → Account
with_balance b a = record a { balance = b }

-- `account.update({ where: { id }, data: { balance } })`
unfoldable pub set_balance : ℕ → ℤ → Action (Unit {0})
unfolding account_by_id
set_balance id b = do
  or_throw (← gets (account_by_id id)) record_missing
  modify
      λ db. record db { accounts = update_where (by (λ a. a.id) id) (with_balance b) db.accounts }

-- The primary key and the columns marked @unique of the model Transaction.
unfoldable pub transaction_clash : Transaction → Transaction → Bool
transaction_clash t u =
    t.id == u.id
    || text_clash t.external_id u.external_id
    || text_clash t.end_to_end u.end_to_end
    || text_clash t.txid u.txid
    || id_clash t.related_tx_id u.related_tx_id

-- `transaction.create`
unfoldable pub create_transaction : Transaction → Action Transaction
unfolding account_by_id
create_transaction t = do
  throw_if (any (transaction_clash t) (← gets (λ db. db.transactions))) unique_violation
  or_throw (← gets (account_by_id t.account_id)) foreign_key
  modify λ db. record db { transactions = t ∷ db.transactions }
  pure t
