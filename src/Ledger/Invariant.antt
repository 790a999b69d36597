-- ===== src/Ledger/Invariant.antt =====
-- Each method of the ledger's services and the consistency of the database (Ledger/Posting).
use otsem_api.Common.{
  ℕ, ℤ, String, ◌≡◌, refl, Option, List, [], ◌∷◌, inl, inr, Option-cases, Bool-cases, leb_ℤ, pos,
}
use otsem_api.Database.Enums.{TransactionStatus}
use otsem_api.Database.Rows.{Account, Transaction, Database}
use otsem_api.Database.Action.{Result, ok, err}
use otsem_api.Database.Queries.{
  account_by_id, account_by_customer, account_by_pix_key, customer_by_username, transaction_by_id,
}
use otsem_api.Ledger.Amounts.{IsClear, booked}
use otsem_api.Ledger.Audit.{audit-update_where}
use otsem_api.Ledger.Posting.{Posts, IsConsistent, posted-IsConsistent}
use otsem_api.Ledger.Deposits.{process_pix_deposit, process_pix_withdraw}
use otsem_api.Ledger.Transfers.{
  process_transfer, process_transfer_by_username, create_transfer, TransferResult,
}
use otsem_api.Ledger.Reversals.{reverse_transaction, update_status, status_update, with_status}
use otsem_api.Ledger.Accounts.{AdjustmentType, adjust_balance}
use otsem_api.Ledger.Effects.Deposits.{
  Deposits, Withdraws, process_pix_deposit-Deposits, process_pix_withdraw-Withdraws,
  process_pix_withdraw_unknown, process_pix_deposit_unknown,
}
use otsem_api.Ledger.Effects.Transfers.{
  Transfers, NamedTransfers, process_transfer-Transfers,
  process_transfer_by_username-NamedTransfers, process_transfer_no_source,
  process_transfer_no_target, transfer_no_receiver, transfer_no_source, transfer_no_target,
}
use otsem_api.Ledger.Effects.Reversals.{
  rewritten, Reverses, Adjusts, Updates, reverse_transaction-Reverses, adjust_balance-Adjusts,
  update_status-Updates, reverse_transaction_unknown, reverse_transaction_orphan,
  adjust_balance_unknown,
}

pub Posts-IsConsistent :
    (ts : List Transaction) {db db' : Database}
    → IsConsistent db
    → Posts db ts db'
    → IsConsistent db'
Posts-IsConsistent [] c e = rw e c
Posts-IsConsistent (t ∷ ts) c (f, p) = Posts-IsConsistent ts (posted-IsConsistent t c f) p

module _ (f : Transaction → Transaction)
    (account_id : (t : Transaction) → (f t).account_id ≡ t.account_id)
    (kind : (t : Transaction) → (f t).kind ≡ t.kind)
    (amount : (t : Transaction) → (f t).amount ≡ t.amount)
    (before : (t : Transaction) → (f t).balance_before ≡ t.balance_before)
    (after : (t : Transaction) → (f t).balance_after ≡ t.balance_after) where
  rewritten-IsConsistent :
      (id : ℕ) {db : Database} → IsConsistent db → IsConsistent (rewritten id f db)
  unfolding account_by_id
  rewritten-IsConsistent id {db} c = record {
    distinct = c.distinct;
    explained = λ a.
        rw (audit-update_where _ f account_id kind amount before after a db.transactions _)
          (c.explained a);
  }

Deposits-IsConsistent :
    {db : Database} (a : Account) (n : ℤ) (e : String) (x : Result Transaction × Database)
    → IsConsistent db
    → Deposits db a n e x
    → IsConsistent x.1
Deposits-IsConsistent a n e (err _, db') c h = rw h c
Deposits-IsConsistent a n e (ok t, db') c (inl h) = rw h.1 c
Deposits-IsConsistent a n e (ok t, db') c (inr h) = Posts-IsConsistent (t ∷ []) c h.6

Withdraws-IsConsistent :
    {db : Database} (a : Account) (n : ℤ) (x : Result Transaction × Database)
    → IsConsistent db
    → Withdraws db a n x
    → IsConsistent x.1
Withdraws-IsConsistent a n (err _, db') c h = rw h c
Withdraws-IsConsistent a n (ok t, db') c h = Posts-IsConsistent (t ∷ []) c h.5

Transfers-IsConsistent :
    {db : Database} (a b : Account) (n : ℤ) (x : Result (Transaction × Transaction) × Database)
    → IsConsistent db
    → Transfers db a b n x
    → IsConsistent x.1
Transfers-IsConsistent a b n (err _, db') c h = rw h c
Transfers-IsConsistent a b n (ok (o, i), db') c h = Posts-IsConsistent (o ∷ i ∷ []) c h.3

NamedTransfers-IsConsistent :
    {db : Database} (a b : Account) (n : ℤ) (x : Result TransferResult × Database)
    → IsConsistent db
    → NamedTransfers db a b n x
    → IsConsistent x.1
NamedTransfers-IsConsistent a b n (err _, db') c h = rw h c
NamedTransfers-IsConsistent a b n (ok r, db') c h =
    Posts-IsConsistent (r.tx_out ∷ r.tx_in ∷ []) c h.3

Adjusts-IsConsistent :
    {db : Database} (a : Account) (n : ℤ) (x : Result (Transaction × ℤ) × Database)
    → IsConsistent db
    → Adjusts db a n x
    → IsConsistent x.1
Adjusts-IsConsistent a n (err _, db') c h = rw h c
Adjusts-IsConsistent a n (ok (t, b), db') c h = Posts-IsConsistent (t ∷ []) c h.3

Reverses-IsConsistent :
    {db : Database} (id : ℕ) (o : Transaction) (x : Result Transaction × Database)
    → IsConsistent db
    → Reverses db id o x
    → IsConsistent x.1
Reverses-IsConsistent id o (err _, db') c h = rw h c
Reverses-IsConsistent id o (ok t, db') c (_, _, _, _, _, f, e) = rw e (
    rewritten-IsConsistent (with_status TransactionStatus.reversed) (λ _. refl) (λ _. refl)
      (λ _. refl) (λ _. refl) (λ _. refl) _ (posted-IsConsistent t c f))

Updates-IsConsistent :
    {db : Database} (id now : ℕ) (s : TransactionStatus) (e : Option String)
    (x : Result Transaction × Database)
    → IsConsistent db
    → Updates db id (status_update s e now) x
    → IsConsistent x.1
Updates-IsConsistent id now s e (err _, db') c h = rw h c
Updates-IsConsistent id now s e (ok t, db') c h = rw h (
    rewritten-IsConsistent (status_update s e now) (λ _. refl) (λ _. refl) (λ _. refl) (λ _. refl)
      (λ _. refl) _ c)

module _ {db : Database} (c : IsConsistent db) where
  pub process_pix_deposit-IsConsistent :
      (id now : ℕ) (key : String) (amount : ℤ) (payer : Option String) (external_id : String)
      → IsClear amount
      → IsConsistent (process_pix_deposit id now key amount payer external_id db).1
  process_pix_deposit-IsConsistent id now key amount payer external_id clear =
      elim (Option-cases (account_by_pix_key key db)) [
        | inl missing ↦
            rw (process_pix_deposit_unknown id now key amount payer external_id db missing) c
        | inr (a, found) ↦
            Deposits-IsConsistent a (booked amount) external_id _ c
              (process_pix_deposit-Deposits id now key amount payer external_id c found clear)
      ]

  pub process_pix_withdraw-IsConsistent :
      (id now customer_id : ℕ) (amount : ℤ) (destination : String) (description : Option String)
      → IsClear amount
      → IsConsistent (process_pix_withdraw id now customer_id amount destination description db).1
  process_pix_withdraw-IsConsistent id now customer_id amount destination description clear =
      elim (Option-cases (account_by_customer customer_id db)) [
        | inl missing ↦
            rw
              (process_pix_withdraw_unknown id now customer_id amount destination description db
                missing)
              c
        | inr (a, found) ↦ Withdraws-IsConsistent a (booked amount) _ c (
            process_pix_withdraw-Withdraws id now customer_id amount destination description c found
              clear)
      ]

  pub process_transfer-IsConsistent :
      (out_id in_id now customer_id : ℕ) (key : String) (amount : ℤ) (description : Option String)
      → IsClear amount
      → IsConsistent (process_transfer out_id in_id now customer_id key amount description db).1
  process_transfer-IsConsistent o i now customer key n d clear =
      elim (Option-cases (account_by_customer customer db)) [
        | inl missing ↦ rw (process_transfer_no_source o i now customer n d db key missing) c
        | inr (a, hf) ↦ elim (Option-cases (account_by_pix_key key db)) [
          | inl missing ↦ rw (process_transfer_no_target o i now customer n d db key hf missing) c
          | inr (b, ht) ↦
              Transfers-IsConsistent a b (booked n) _ c
                (process_transfer-Transfers o i now customer key n d c hf ht clear)
        ]
      ]

  pub process_transfer_by_username-IsConsistent :
      (out_id in_id now customer_id : ℕ) (username : String) (amount : ℤ)
      (description : Option String)
      → IsClear amount
      → IsConsistent
          (process_transfer_by_username out_id in_id now customer_id username amount description
            db).1
  process_transfer_by_username-IsConsistent o i now customer username n d clear =
      elim (Option-cases (customer_by_username username db)) [
        | inl missing ↦ rw (transfer_no_receiver o i now customer n d db username missing) c
        | inr (r, hr) ↦ elim (Option-cases (account_by_customer customer db)) [
          | inl missing ↦ rw (transfer_no_source o i now customer n d db username hr missing) c
          | inr (a, hf) ↦ elim (Option-cases (account_by_customer r.id db)) [
            | inl missing ↦ rw (transfer_no_target o i now customer n d db username hr hf missing) c
            | inr (b, ht) ↦ NamedTransfers-IsConsistent a b (booked n) _ c (
                process_transfer_by_username-NamedTransfers o i now customer username n d c clear hf
                  hr ht)
          ]
        ]
      ]

  pub create_transfer-IsConsistent :
      (out_id in_id now customer_id : ℕ) (username : String) (amount : ℤ)
      (description : Option String)
      → IsClear amount
      → IsConsistent (create_transfer out_id in_id now customer_id username amount description db).1
  unfolding create_transfer
  create_transfer-IsConsistent o i now customer username n d clear =
      elim (Bool-cases (leb_ℤ n (pos 0))) [
        | inl low ↦ rw low c
        | inr high ↦
            rw high (process_transfer_by_username-IsConsistent o i now customer username n d clear)
      ]

  pub reverse_transaction-IsConsistent :
      (id now transaction_id : ℕ) (reason : Option String)
      → IsConsistent (reverse_transaction id now transaction_id reason db).1
  reverse_transaction-IsConsistent id now t reason = elim (Option-cases (transaction_by_id t db)) [
    | inl missing ↦ rw (reverse_transaction_unknown id now db t reason missing) c
    | inr (o, ho) ↦ elim (Option-cases (account_by_id o.account_id db)) [
      | inl missing ↦ rw (reverse_transaction_orphan id now db t reason ho missing) c
      | inr (a, ha) ↦
          Reverses-IsConsistent t o _ c (reverse_transaction-Reverses id now t reason db ho ha)
    ]
  ]

  pub update_status-IsConsistent :
      (now id : ℕ) (status : TransactionStatus) (external_id : Option String)
      → IsConsistent (update_status now id status external_id db).1
  update_status-IsConsistent now id s e =
      Updates-IsConsistent id now s e _ c (update_status-Updates now id s e db)

  pub adjust_balance-IsConsistent :
      (id now customer_id : ℕ) (kind : AdjustmentType) (amount : ℤ) (reason : String)
      → IsClear amount
      → IsConsistent (adjust_balance id now customer_id kind amount reason db).1
  adjust_balance-IsConsistent id now customer kind n reason clear =
      elim (Option-cases (account_by_customer customer db)) [
        | inl missing ↦ rw (adjust_balance_unknown id now db customer kind n reason missing) c
        | inr (a, found) ↦
            Adjusts-IsConsistent a (booked n) _ c
              (adjust_balance-Adjusts id now customer kind n reason c found clear)
      ]
