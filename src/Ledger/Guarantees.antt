-- ===== src/Ledger/Guarantees.antt =====
-- Withdrawals against the balance they draw on, and deposits that are repeated
-- (src/transactions/transactions.service.ts).
use otsem_api.Common.{ℕ, ℤ, String, ◌≡◌, ap, ap₂, ◌∙◌, subst, Option, some, ◌-ℤ◌, ◌≤ℤ◌, int_laws}
use otsem_api.Database.Enums.{TransactionType}
use otsem_api.Database.Rows.{Account, Transaction, Database}
use otsem_api.Database.Action.{ok}
use otsem_api.Database.Queries.{account_by_id, account_by_customer}
use otsem_api.Ledger.Amounts.{IsClear, booked}
use otsem_api.Ledger.Audit.{added}
use otsem_api.Ledger.Posting.{IsConsistent, balance_at, balance_or_zero, balance_at-posted_self}
use otsem_api.Ledger.Effects.Found.{found_by_customer}
use otsem_api.Ledger.Deposits.{process_pix_withdraw}
use otsem_api.Ledger.Effects.Deposits.{Withdraws, process_pix_withdraw-Withdraws}

withdrawn :
    (t : Transaction)
    → t.kind ≡ TransactionType.pix_out
    → t.balance_after ≡ added t.kind t.balance_before t.amount
    → t.balance_after ≡ t.balance_before -ℤ t.amount
unfolding added
withdrawn t k e = rw k at e

still_covered : (b blocked n : ℤ) → n ≤ℤ b -ℤ blocked → blocked ≤ℤ b -ℤ n
still_covered b blocked n h = omega int_laws

-- After a withdrawal that answers, the balance of the account is its old balance less the amount
-- rounded to cents, and still covers the blocked amount, for an amount of up to seven decimals that
-- is not halfway between two cents, on a consistent database.
pub process_pix_withdraw-covered :
    (id now customer_id : ℕ) (amount : ℤ) (destination : String) (description : Option String)
    {db db' : Database} {a : Account} {t : Transaction}
    → IsClear amount
    → IsConsistent db
    → account_by_customer customer_id db ≡ some a
    → process_pix_withdraw id now customer_id amount destination description db ≡ (ok t, db')
    → (balance_at a.id db' ≡ a.balance -ℤ booked amount) × (a.blocked_amount ≤ℤ balance_at a.id db')
process_pix_withdraw-covered id now u n k d {db} {db'} {a} {t} clear c found e =
    let w =
      subst (Withdraws db a (booked n)) e
        (process_pix_withdraw-Withdraws id now u n k d c found clear) in
    let (account, kind, same, _, covers, (f, p)) = w in
    let before : t.balance_before ≡ a.balance =
      f.before
      ∙ ap balance_or_zero {x = account_by_id t.account_id db} {y = some a}
          (rw account (found_by_customer c u found)) in
    let after : t.balance_after ≡ a.balance -ℤ booked n =
      withdrawn t kind f.adds ∙ ap₂ ◌-ℤ◌ before same in
    let new : balance_at a.id db' ≡ a.balance -ℤ booked n =
      rw (p, ← account, balance_at-posted_self t f) after in
    (new, rw new (still_covered a.balance a.blocked_amount (booked n) covers))
