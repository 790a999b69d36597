-- ===== src/Ledger/Effects/Found.antt =====
-- An account that a method has found by any column is the one that its id finds.
use otsem_api.Common.{ℕ, String, ◌≡◌, some}
use otsem_api.Database.Rows.{Account, Database}
use otsem_api.Database.Tables.{find-by_of_find}
use otsem_api.Database.Queries.{account_by_id, account_by_customer, account_by_pix_key}
use otsem_api.Ledger.Posting.{IsConsistent}

module _ {db : Database} (c : IsConsistent db) {a : Account} where
  pub found_by_pix_key :
      (key : String) → account_by_pix_key key db ≡ some a → account_by_id a.id db ≡ some a
  unfolding account_by_id account_by_pix_key
  found_by_pix_key key e = find-by_of_find (λ a. a.id) _ db.accounts c.distinct e

  pub found_by_customer :
      (customer_id : ℕ)
      → account_by_customer customer_id db ≡ some a
      → account_by_id a.id db ≡ some a
  unfolding account_by_id account_by_customer
  found_by_customer customer_id e = find-by_of_find (λ a. a.id) _ db.accounts c.distinct e
