-- ===== src/Ledger/Conservation.antt =====
-- The money of all accounts under each method, and what a balance can fall to.
use otsem_api.Common.{
  ℕ, ℤ, String, ◌≡◌, refl, ap, subst, Option, some, [], ◌∷◌, ◌+ℤ◌, ◌-ℤ◌, shift_add, shift_sub,
  sub_add, Option-cases, inl, inr, ◌⊎◌,
}
use otsem_api.Database.Enums.{TransactionType}
use otsem_api.Database.Rows.{Account, Transaction, Database}
use otsem_api.Database.Action.{Result, ok, err}
use otsem_api.Database.Queries.{account_by_customer, account_by_pix_key, customer_by_username}
use otsem_api.Ledger.Amounts.{IsClear, booked}
use otsem_api.Ledger.Audit.{added}
use otsem_api.Ledger.Posting.{
  Fits, Posts, IsConsistent, posted, posted-IsConsistent, total, total-posted,
}
use otsem_api.Ledger.Deposits.{process_pix_withdraw}
use otsem_api.Ledger.Transfers.{process_transfer, process_transfer_by_username, TransferResult}
use otsem_api.Ledger.Effects.Deposits.{Withdraws, process_pix_withdraw-Withdraws}
use otsem_api.Ledger.Effects.Transfers.{
  Transfers, NamedTransfers, IsTransfer, process_transfer-Transfers,
  process_transfer_by_username-NamedTransfers, process_transfer_no_source,
  process_transfer_no_target, transfer_no_receiver, transfer_no_source, transfer_no_target,
}

-- A credit raises the total by its amount, and a debit lowers it.
total-posted_credit :
    {db : Database} (t : Transaction)
    → IsConsistent db
    → Fits db t
    → (t.kind ≡ TransactionType.transfer_in) ⊎ (t.kind ≡ TransactionType.pix_in)
    → total (posted t db) ≡ total db +ℤ t.amount
unfolding added
total-posted_credit t c f (inl k) = shift_add _ _ _ _ _ (total-posted t c f) (rw k at f.adds)
total-posted_credit t c f (inr k) = shift_add _ _ _ _ _ (total-posted t c f) (rw k at f.adds)

total-posted_debit :
    {db : Database} (t : Transaction)
    → IsConsistent db
    → Fits db t
    → (t.kind ≡ TransactionType.transfer_out) ⊎ (t.kind ≡ TransactionType.pix_out)
    → total (posted t db) ≡ total db -ℤ t.amount
unfolding added
total-posted_debit t c f (inl k) = shift_sub _ _ _ _ _ (total-posted t c f) (rw k at f.adds)
total-posted_debit t c f (inr k) = shift_sub _ _ _ _ _ (total-posted t c f) (rw k at f.adds)

-- Debit and credit of one amount leave the total as it was.
total-transfer :
    {db db' : Database} {a b : Account} {n : ℤ} (o i : Transaction)
    → IsConsistent db
    → IsTransfer a b n o i
    → Posts db (o ∷ i ∷ []) db'
    → total db' ≡ total db
total-transfer {db} {db'} {n = n} o i c t (fo, (fi, e)) =
    let out = total-posted_debit o c fo (inl t.out_kind) in
    let into = total-posted_credit i (posted-IsConsistent o c fo) fi (inl t.in_kind) in
    rw (e, into, out, t.out_amount, t.in_amount) (sub_add (total db) n)

Transfers-total :
    {db : Database} (a b : Account) (n : ℤ) (x : Result (Transaction × Transaction) × Database)
    → IsConsistent db
    → Transfers db a b n x
    → total x.1 ≡ total db
Transfers-total a b n (err _, db') c e = ap total e
Transfers-total a b n (ok (o, i), db') c (t, _, _, p) = total-transfer o i c t p

NamedTransfers-total :
    {db : Database} (a b : Account) (n : ℤ) (x : Result TransferResult × Database)
    → IsConsistent db
    → NamedTransfers db a b n x
    → total x.1 ≡ total db
NamedTransfers-total a b n (err _, db') c e = ap total e
NamedTransfers-total a b n (ok r, db') c (t, _, _, p) = total-transfer r.tx_out r.tx_in c t p

-- A transfer by Pix key, whether it raises or not, leaves the sum of all balances as it was, for an
-- amount of up to seven decimals that is not halfway between two cents, on a consistent database.
pub process_transfer-total :
    (out_id in_id now customer_id : ℕ) (key : String) (amount : ℤ) (description : Option String)
    {db : Database}
    → IsClear amount
    → IsConsistent db
    → total (process_transfer out_id in_id now customer_id key amount description db).1 ≡ total db
process_transfer-total o i now u key n d {db} clear c =
    elim (Option-cases (account_by_customer u db)) [
      | inl missing ↦ ap total (process_transfer_no_source o i now u n d db key missing)
      | inr (a, hf) ↦ elim (Option-cases (account_by_pix_key key db)) [
        | inl missing ↦ ap total (process_transfer_no_target o i now u n d db key hf missing)
        | inr (b, ht) ↦
            Transfers-total a b (booked n) _ c
              (process_transfer-Transfers o i now u key n d c hf ht clear)
      ]
    ]

-- A transfer by username, whether it raises or not, leaves the sum of all balances as it was, for an
-- amount of up to seven decimals that is not halfway between two cents, on a consistent database.
pub process_transfer_by_username-total :
    (out_id in_id now customer_id : ℕ) (username : String) (amount : ℤ)
    (description : Option String) {db : Database}
    → IsClear amount
    → IsConsistent db
    → total
        (process_transfer_by_username out_id in_id now customer_id username amount description db).1
      ≡ total db
process_transfer_by_username-total o i now u username n d {db} clear c =
    elim (Option-cases (customer_by_username username db)) [
      | inl missing ↦ ap total (transfer_no_receiver o i now u n d db username missing)
      | inr (r, hr) ↦ elim (Option-cases (account_by_customer u db)) [
        | inl missing ↦ ap total (transfer_no_source o i now u n d db username hr missing)
        | inr (a, hf) ↦ elim (Option-cases (account_by_customer r.id db)) [
          | inl missing ↦ ap total (transfer_no_target o i now u n d db username hr hf missing)
          | inr (b, ht) ↦
              NamedTransfers-total a b (booked n) _ c (
                process_transfer_by_username-NamedTransfers o i now u username n d c clear hf hr ht)
        ]
      ]
    ]

-- A withdrawal that answers takes its amount, rounded to cents, out of the sum of all balances, for
-- an amount of up to seven decimals that is not halfway between two cents, on a consistent database.
pub process_pix_withdraw-total :
    (id now customer_id : ℕ) (amount : ℤ) (destination : String) (description : Option String)
    {db db' : Database} {a : Account} {t : Transaction}
    → IsClear amount
    → IsConsistent db
    → account_by_customer customer_id db ≡ some a
    → process_pix_withdraw id now customer_id amount destination description db ≡ (ok t, db')
    → total db' ≡ total db -ℤ booked amount
process_pix_withdraw-total id now u n k d {a = a} {t = t} clear c found e =
    let w =
      subst (Withdraws _ a (booked n)) e
        (process_pix_withdraw-Withdraws id now u n k d c found clear) in
    let (_, kind, same, _, _, (f, p)) = w in rw (p, total-posted_debit t c f (inr kind), same) refl
