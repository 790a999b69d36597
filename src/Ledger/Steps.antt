-- ===== src/Ledger/Steps.antt =====
-- The calls of the ledger's services as steps on the database, in any order. An amount is any
-- number of up to seven decimals that is not halfway between two cents; the other arguments are free.
use otsem_api.Common.{ℕ, ℤ, String, ◌≡◌, Option, some, ap, sym, ◌∙◌}
use otsem_api.Database.Enums.{TransactionStatus, PixKeyType}
use otsem_api.Database.Rows.{Account, Database}
use otsem_api.Database.Queries.{account_by_id}
use otsem_api.Ledger.Amounts.{IsClear}
use otsem_api.Ledger.Audit.{net, audit-net}
use otsem_api.Ledger.Posting.{IsConsistent, balance_or_zero}
use otsem_api.Ledger.Deposits.{process_pix_deposit, process_pix_withdraw}
use otsem_api.Ledger.Transfers.{process_transfer, create_transfer}
use otsem_api.Ledger.Reversals.{reverse_transaction, update_status}
use otsem_api.Ledger.Accounts.{
  AdjustmentType, adjust_balance, create_account, update_pix_key, with_pix_key,
}
use otsem_api.Ledger.Effects.Openings.{
  create_account-Opens, Opens-IsConsistent, Rekeys, update_pix_key-Rekeys, rekeyed-IsConsistent,
}
use otsem_api.Ledger.Invariant.{
  process_pix_deposit-IsConsistent, process_pix_withdraw-IsConsistent,
  process_transfer-IsConsistent, create_transfer-IsConsistent, reverse_transaction-IsConsistent,
  update_status-IsConsistent, adjust_balance-IsConsistent,
}
use otsem_api.Database.Action.{Result, ok, err}

pub data Step (db : Database) : Database → Type 0 where
  deposit :
      (id now : ℕ) (key : String) (amount : ℤ) (payer : Option String) (external_id : String)
      → IsClear amount
      → Step db (process_pix_deposit id now key amount payer external_id db).1
  withdraw :
      (id now customer_id : ℕ) (amount : ℤ) (destination : String) (description : Option String)
      → IsClear amount
      → Step db (process_pix_withdraw id now customer_id amount destination description db).1
  transfer :
      (out_id in_id now customer_id : ℕ) (key : String) (amount : ℤ) (description : Option String)
      → IsClear amount
      → Step db (process_transfer out_id in_id now customer_id key amount description db).1
  transfer_by_username :
      (out_id in_id now customer_id : ℕ) (username : String) (amount : ℤ)
      (description : Option String)
      → IsClear amount
      → Step db (create_transfer out_id in_id now customer_id username amount description db).1
  reverse :
      (id now transaction_id : ℕ) (reason : Option String)
      → Step db (reverse_transaction id now transaction_id reason db).1
  status :
      (now id : ℕ) (to : TransactionStatus) (external_id : Option String)
      → Step db (update_status now id to external_id db).1
  adjust :
      (id now customer_id : ℕ) (kind : AdjustmentType) (amount : ℤ) (reason : String)
      → IsClear amount
      → Step db (adjust_balance id now customer_id kind amount reason db).1
  open_account :
      (id customer_id : ℕ) (key : Option String) → Step db (create_account id customer_id key db).1
  set_pix_key :
      (customer_id : ℕ) (key : String) (kind : PixKeyType)
      → Step db (update_pix_key customer_id key kind db).1

pub data Reach (db : Database) : Database → Type 0 where
  here : Reach db db
  next : {d e : Database} → Reach db d → Step d e → Reach db e

Rekeys-IsConsistent :
    (customer_id : ℕ) (key : String) (kind : PixKeyType) {db : Database}
    (x : Result Account × Database)
    → IsConsistent db
    → Rekeys db customer_id (with_pix_key key kind) x
    → IsConsistent x.1
Rekeys-IsConsistent customer_id key kind (err _, db') c e = rw e c
Rekeys-IsConsistent customer_id key kind (ok _, db') c e =
    rw e (rekeyed-IsConsistent customer_id key kind c)

Step-IsConsistent : {d e : Database} → Step d e → IsConsistent d → IsConsistent e
Step-IsConsistent (deposit id now k n p x clear) c =
    process_pix_deposit-IsConsistent c id now k n p x clear
Step-IsConsistent (withdraw id now u n k d clear) c =
    process_pix_withdraw-IsConsistent c id now u n k d clear
Step-IsConsistent (transfer o i now u k n d clear) c =
    process_transfer-IsConsistent c o i now u k n d clear
Step-IsConsistent (transfer_by_username o i now u k n d clear) c =
    create_transfer-IsConsistent c o i now u k n d clear
Step-IsConsistent (reverse id now t r) c = reverse_transaction-IsConsistent c id now t r
Step-IsConsistent (status now id s x) c = update_status-IsConsistent c now id s x
Step-IsConsistent (adjust id now u k n r clear) c =
    adjust_balance-IsConsistent c id now u k n r clear
Step-IsConsistent {d} (open_account id u k) c =
    Opens-IsConsistent _ c (create_account-Opens id u k d)
Step-IsConsistent {d} (set_pix_key u k kind) c =
    Rekeys-IsConsistent u k kind _ c (update_pix_key-Rekeys u k kind d)

-- Any sequence of calls of the ledger's methods keeps a consistent database consistent: account
-- ids stay unique, and the log passes the audit against every balance; where no amount is halfway
-- between two cents, and none has more than seven decimals.
pub Reach-IsConsistent : {s d : Database} → IsConsistent s → Reach s d → IsConsistent d
Reach-IsConsistent c here = c
Reach-IsConsistent c (next r st) = Step-IsConsistent st (Reach-IsConsistent c r)

-- After any sequence of calls from a consistent database, the balance of every account that is
-- found is the net of its rows in the log; where no amount is halfway between two cents, and none
-- has more than seven decimals.
pub Reach-balance_net :
    {s d : Database} (id : ℕ) {a : Account}
    → IsConsistent s
    → Reach s d
    → account_by_id id d ≡ some a
    → a.balance ≡ net id d.transactions
Reach-balance_net {d = d} id c r found =
    sym (ap balance_or_zero found)
    ∙ audit-net id d.transactions _ ((Reach-IsConsistent c r).explained id)
