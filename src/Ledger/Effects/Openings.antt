-- ===== src/Ledger/Effects/Openings.antt =====
-- Opening an account and setting its Pix key (src/accounts/accounts.service.ts), and the ledger.
use otsem_api.Common.{ℕ, pos, String, ◌≡◌, refl, Option, ◌∷◌, arith, false, true, any, find}
use otsem_api.Database.Enums.{PixKeyType}
use otsem_api.Database.Rows.{Account, Database}
use otsem_api.Database.Tables.{
  by, update_where, find-update_where_any, update_where_any-HasDistinct, find-by_of_any,
}
use otsem_api.Database.Action.{Result, ok, err}
use otsem_api.Database.Queries.{account_by_id}
use otsem_api.Ledger.Posting.{IsConsistent}
use otsem_api.Ledger.Accounts.{account_clash, create_account, update_pix_key, with_pix_key}

-- Opening raises and writes nothing, or adds an account with no money that clashes with none.
abbrev pub Opens : Database → Result Account × Database → Type 0
Opens db (err _, db') = db' ≡ db
Opens db (ok a, db') =
    (a.balance ≡ pos 0)
    × (any (account_clash a) db.accounts ≡ false)
    × (db' ≡ record db { accounts = a ∷ db.accounts })

pub create_account-Opens :
    (id customer_id : ℕ) (key : Option String) (db : Database)
    → Opens db (create_account id customer_id key db)
unfolding create_account
create_account-Opens id customer_id key db = ground arith

account_clash_id : (a b : Account) → b.id ≡ a.id → account_clash a b ≡ true
unfolding account_clash
account_clash_id a b e = ground arith

pub Opens-IsConsistent :
    {db : Database} (x : Result Account × Database)
    → IsConsistent db
    → Opens db x
    → IsConsistent x.1
unfolding account_by_id find
Opens-IsConsistent (err _, db') c e = rw e c
Opens-IsConsistent {db} (ok a, db') c (zero, fresh, e) =
    let new = find-by_of_any (λ a. a.id) account_clash a (account_clash_id a) db.accounts fresh in
    rw e (record { distinct = (new, c.distinct); explained = λ id. ground (arith, c.explained id) })

abbrev pub rekeyed : ℕ → (Account → Account) → Database → Database
rekeyed customer_id f db = record db {
  accounts = update_where (by (λ a. a.customer_id) customer_id) f db.accounts;
}

abbrev pub Rekeys : Database → ℕ → (Account → Account) → Result Account × Database → Type 0
Rekeys db customer_id f (err _, db') = db' ≡ db
Rekeys db customer_id f (ok _, db') = db' ≡ rekeyed customer_id f db

pub update_pix_key-Rekeys :
    (customer_id : ℕ) (key : String) (kind : PixKeyType) (db : Database)
    → Rekeys db customer_id (with_pix_key key kind) (update_pix_key customer_id key kind db)
unfolding update_pix_key
update_pix_key-Rekeys customer_id key kind db = ground arith

pub rekeyed-IsConsistent :
    (customer_id : ℕ) (key : String) (kind : PixKeyType) {db : Database}
    → IsConsistent db
    → IsConsistent (rekeyed customer_id (with_pix_key key kind) db)
unfolding account_by_id
rekeyed-IsConsistent customer_id key kind {db} c = record {
  distinct =
      update_where_any-HasDistinct (λ a. a.id) _ (with_pix_key key kind) (λ _. refl) db.accounts
        c.distinct;
  explained = λ id. ground (
    arith,
    c.explained id,
    find-update_where_any (λ a. a.id) (by (λ a. a.customer_id) customer_id) (with_pix_key key kind)
        (λ _. refl) id db.accounts,
  );
}
