-- ===== src/Ledger/Tests.antt =====
-- The ledger run on a small bank, and its theorems at that bank.
use otsem_api.Common.{
  ℕ, ℤ, arith, ◌*◌, pos, ◌≡◌, refl, none, some, ◌-ℤ◌, ◌+ℤ◌, ◌≤ℤ◌, find, any, true, false,
  if◌then◌else◌,
}
use otsem_api.Database.Enums.{TransactionType, TransactionStatus, type_is, status_is}
use otsem_api.Database.Rows.{Account, Transaction, Database}
use otsem_api.Database.Tables.{update_where, sum_of}
use otsem_api.Database.Action.{Result, ok, err, bad_request, unique_violation}
use otsem_api.Database.Queries.{
  account_by_id, account_by_customer, account_by_pix_key, customer_by_id, customer_by_username,
  transaction_by_id, transaction_by_external_id, transaction_clash, create_transaction, set_balance,
  option_is,
}
use otsem_api.Samples.{account, bank, bank-IsConsistent}
use otsem_api.Ledger.Amounts.{in_units, booked, IsClear}
use otsem_api.Ledger.Rows.{row}
use otsem_api.Ledger.Audit.{net, audit, eq_ℤ, added}
use otsem_api.Ledger.Posting.{IsConsistent, balance_at, total}
use otsem_api.Ledger.Deposits.{process_pix_deposit, process_pix_withdraw}
use otsem_api.Ledger.Transfers.{
  process_transfer, process_transfer_by_username, move_funds, transfer_between,
}
use otsem_api.Ledger.Reversals.{reverse_transaction}
use otsem_api.Ledger.Invariant.{process_pix_deposit-IsConsistent}
use otsem_api.Ledger.Steps.{Step, Reach, Reach-IsConsistent, Reach-balance_net}
use otsem_api.Ledger.Conservation.{
  process_transfer-total, process_transfer_by_username-total, process_pix_withdraw-total,
}
use otsem_api.Ledger.Guarantees.{process_pix_withdraw-covered}
use otsem_api.Ledger.Undoing.{
  reverse_transaction_referenced, reverse_transaction-balance, reverse_transaction_once,
}

-- What a run of the ledger computes with.
ledger : Unit {0}
unfolding process_pix_deposit process_pix_withdraw process_transfer process_transfer_by_username
    move_funds transfer_between reverse_transaction create_transaction set_balance account_by_id
    account_by_customer account_by_pix_key customer_by_id customer_by_username transaction_by_id
    transaction_by_external_id transaction_clash update_where sum_of find any type_is status_is net
    audit eq_ℤ added in_units booked ◌-ℤ◌ ◌+ℤ◌
ledger = tt

-- The row of an answer, for a test that knows there is one.
abbrev no_row : Transaction
no_row = row 0 0 TransactionType.fee TransactionStatus.failed (pos 0) (pos 0) (pos 0) 0

abbrev row_of : Result Transaction → Transaction
row_of (ok t) = t
row_of (err _) = no_row

abbrev head_or : Result (Transaction × Transaction) → Transaction
head_or (ok (o, _)) = o
head_or (err _) = no_row

abbrev last_or : Result (Transaction × Transaction) → Transaction
last_or (ok (_, i)) = i
last_or (err _) = no_row

-- Whole reais.
abbrev reais : ℕ → ℤ
reais n = pos (n * 10_000_000)

reais-IsClear : (n : ℕ) → IsClear (reais n)
reais-IsClear n = ground arith

-- Ana has received R$ 50.
abbrev funded : Database
funded = (process_pix_deposit 100 7 "k1" (reais 50) none "e1" bank).1

funded-IsConsistent : IsConsistent funded
funded-IsConsistent =
    process_pix_deposit-IsConsistent bank-IsConsistent 100 7 "k1" (reais 50) none "e1"
      (reais-IsClear 50)

funded_balance : balance_at 1 funded ≡ pos 5000
unfolding ledger
funded_balance = refl

-- Ana has sent R$ 20 of it to Bia.
abbrev shared : Database
shared = (process_transfer 101 102 8 10 "k2" (reais 20) none funded).1

shared_balances : (balance_at 1 shared ≡ pos 3000) × (balance_at 2 shared ≡ pos 2000)
unfolding ledger
shared_balances = (refl, refl)

Reach-shared : Reach funded shared
Reach-shared =
    Reach.next Reach.here (Step.transfer 101 102 8 10 "k2" (reais 20) none (reais-IsClear 20))

Reach-IsConsistent_example : IsConsistent shared
Reach-IsConsistent_example = Reach-IsConsistent funded-IsConsistent Reach-shared

abbrev bia : Account
bia = record (account 2 20 "k2") { balance = pos 2000 }

shared-bia : account_by_id 2 shared ≡ some bia
unfolding ledger
shared-bia = refl

Reach-balance_net_example : pos 2000 ≡ net 2 shared.transactions
Reach-balance_net_example = Reach-balance_net 2 funded-IsConsistent Reach-shared shared-bia

process_transfer-total_example :
    total (process_transfer 101 102 8 10 "k2" (reais 20) none funded).1 ≡ total funded
process_transfer-total_example =
    process_transfer-total 101 102 8 10 "k2" (reais 20) none (reais-IsClear 20) funded-IsConsistent

transfer_by_username-total_example :
    total (process_transfer_by_username 101 102 8 10 "bia" (reais 20) none funded).1 ≡ total funded
transfer_by_username-total_example =
    process_transfer_by_username-total 101 102 8 10 "bia" (reais 20) none (reais-IsClear 20)
      funded-IsConsistent

abbrev ana : Account
ana = record (account 1 10 "k1") { balance = pos 5000 }

funded-ana : account_by_customer 10 funded ≡ some ana
unfolding ledger
funded-ana = refl

abbrev withdrawn : Database
withdrawn = (process_pix_withdraw 103 9 10 (reais 40) "x" none funded).1

abbrev withdrawal : Transaction
withdrawal = row_of (process_pix_withdraw 103 9 10 (reais 40) "x" none funded).0

withdrawal_ok :
    process_pix_withdraw 103 9 10 (reais 40) "x" none funded ≡ (ok withdrawal, withdrawn)
unfolding ledger
withdrawal_ok = refl

process_pix_withdraw-total_example : total withdrawn ≡ total funded -ℤ booked (reais 40)
process_pix_withdraw-total_example =
    process_pix_withdraw-total 103 9 10 (reais 40) "x" none (reais-IsClear 40) funded-IsConsistent
      funded-ana withdrawal_ok

process_pix_withdraw-covered_example :
    (balance_at 1 withdrawn ≡ pos 5000 -ℤ booked (reais 40)) × (pos 0 ≤ℤ balance_at 1 withdrawn)
process_pix_withdraw-covered_example =
    process_pix_withdraw-covered 103 9 10 (reais 40) "x" none (reais-IsClear 40) funded-IsConsistent
      funded-ana withdrawal_ok

-- The debit of the transfer cannot be reversed; its credit can, and is then credited again.
abbrev debit : Transaction
debit = head_or (process_transfer 101 102 8 10 "k2" (reais 20) none funded).0

debit_found : transaction_by_id 101 shared ≡ some debit
unfolding ledger
debit_found = refl

shared-ana : account_by_id debit.account_id shared ≡ some (record ana { balance = pos 3000 })
unfolding ledger
shared-ana = refl

debit_live : status_is debit.status TransactionStatus.reversed ≡ false
unfolding ledger
debit_live = refl

debit_referenced : any (λ u. option_is u.related_tx_id debit.id) shared.transactions ≡ true
unfolding ledger
debit_referenced = refl

reverse_transaction_referenced_example :
    reverse_transaction 104 10 101 none shared ≡ (err unique_violation, shared)
reverse_transaction_referenced_example =
    reverse_transaction_referenced 104 10 101 none shared debit_found shared-ana debit_live
      debit_referenced

abbrev credit : Transaction
credit = last_or (process_transfer 101 102 8 10 "k2" (reais 20) none funded).0

credit_found : transaction_by_id 102 shared ≡ some credit
unfolding ledger
credit_found = refl

credit_account : account_by_id credit.account_id shared ≡ some bia
unfolding ledger
credit_account = refl

abbrev doubled : Database
doubled = (reverse_transaction 104 10 102 none shared).1

reversal_ok :
    reverse_transaction 104 10 102 none shared
    ≡ (ok (row_of (reverse_transaction 104 10 102 none shared).0), doubled)
unfolding ledger
reversal_ok = refl

reverse_transaction-balance_example : balance_at credit.account_id doubled ≡ (
    if type_is credit.kind TransactionType.pix_in
    then bia.balance -ℤ credit.amount
    else bia.balance +ℤ credit.amount)
reverse_transaction-balance_example =
    reverse_transaction-balance 104 10 102 none shared credit_found credit_account reversal_ok

reverse_transaction_once_example :
    reverse_transaction 105 11 102 none doubled
    ≡ (err (bad_request "Transação já foi revertida"), doubled)
reverse_transaction_once_example =
    reverse_transaction_once 104 10 105 11 102 none none shared credit_found credit_account
      reversal_ok

doubled_balance : balance_at 2 doubled ≡ pos 4000
unfolding ledger
doubled_balance = refl

-- A transfer of R$ 0,015, halfway between two cents: Ana keeps R$ 49,99 and Bia gets R$ 0,02.
half_cent : total (process_transfer 101 102 8 10 "k2" (pos 150_000) none funded).1 ≡ pos 5001
unfolding ledger
half_cent = refl
