-- ===== src/Ledger/Reading.antt =====
-- Who may read a transaction, and how its receipt and its details agree.
use otsem_api.Common.{ℕ, true, false, ◌||◌, ◌≡◌, ◌≢◌, sym, ap, ◌∙◌, some, arith, inl, inr}
use otsem_api.Database.Enums.{type_is}
use otsem_api.Database.Rows.{Customer, Account, Transaction, Database}
use otsem_api.Database.Action.{Error, ok, err, Reads-cases}
use otsem_api.Database.Queries.{transaction_by_id, account_by_id, customer_by_id}
use otsem_api.Ledger.Receipts.{
  Receipt, Details, read_transaction, get_receipt, get_transaction_details, is_pix_in, is_pix_out,
  receipt_of, receipt_in, receipt_out, details_of,
}

pix_apart : (t : Transaction) → is_pix_in t ≡ true → is_pix_out t ≡ false
unfolding is_pix_in is_pix_out type_is
pix_apart t h = ground arith

module _ (id : ℕ) (db : Database) where
  read_transaction_reads : (read_transaction id db).1 ≡ db
  unfolding read_transaction
  read_transaction_reads = ground arith

  -- What a read that answers has found.
  abbrev pub Reads : Transaction × Account × Customer → Type 0
  Reads (t, a, c) =
      (transaction_by_id id db ≡ some t)
      × (account_by_id t.account_id db ≡ some a)
      × (customer_by_id a.customer_id db ≡ some c)

  read_transaction-Reads :
      (x : Transaction × Account × Customer) → read_transaction id db ≡ (ok x, db) → Reads x
  unfolding read_transaction
  read_transaction-Reads (t, a, c) e = ground arith

module _ (id u : ℕ) (db : Database) where
  receipt_answered :
      (t : Transaction) (a : Account) (c : Customer) {r : Receipt} {db' : Database}
      → read_transaction id db ≡ (ok (t, a, c), db)
      → get_receipt id u db ≡ (ok r, db')
      → (a.customer_id ≡ u) × (r ≡ receipt_of t a c)
  unfolding get_receipt
  receipt_answered t a c {r} {db'} e h = ground arith

  receipt_given :
      (t : Transaction) (a : Account) (c : Customer)
      → read_transaction id db ≡ (ok (t, a, c), db)
      → a.customer_id ≡ u
      → (is_pix_in t || is_pix_out t) ≡ true
      → get_receipt id u db ≡ (ok (receipt_of t a c), db)
  unfolding get_receipt
  receipt_given t a c e o p = ground arith

  receipt_unread :
      (x : Error) {r : Receipt} {db' : Database}
      → read_transaction id db ≡ (err x, db)
      → get_receipt id u db ≢ (ok r, db')
  unfolding get_receipt
  receipt_unread x {r} {db'} e h = absurd (ground arith)

  details_answered :
      (t : Transaction) (a : Account) (c : Customer) {d : Details} {db' : Database}
      → read_transaction id db ≡ (ok (t, a, c), db)
      → get_transaction_details id u db ≡ (ok d, db')
      → (a.customer_id ≡ u) × (d ≡ details_of t a c)
  unfolding get_transaction_details
  details_answered t a c {d} {db'} e h = ground arith

  details_unread :
      (x : Error) {d : Details} {db' : Database}
      → read_transaction id db ≡ (err x, db)
      → get_transaction_details id u db ≢ (ok d, db')
  unfolding get_transaction_details
  details_unread x {d} {db'} e h = absurd (ground arith)

receipt_transaction :
    (t : Transaction) (a : Account) (c : Customer) → (receipt_of t a c).transaction ≡ t
unfolding receipt_in receipt_out
receipt_transaction t a c = ground arith

-- A receipt is answered only to the customer whose account the transaction is on.
pub get_receipt_owner :
    (id u : ℕ) (db : Database) {r : Receipt} {db' : Database}
    → get_receipt id u db ≡ (ok r, db')
    → (transaction_by_id id db ≡ some r.transaction)
      × (a : Account) × (account_by_id r.transaction.account_id db ≡ some a)
      × (a.customer_id ≡ u)
get_receipt_owner id u db {r} {db'} h =
    elim (Reads-cases (read_transaction id db) db (read_transaction_reads id db)) [
      | inr (x, e) ↦ absurd (receipt_unread id u db x e h)
      | inl ((t, a, c), e) ↦
          let (owner, same) = receipt_answered id u db t a c e h in
          let (found, account, _) = read_transaction-Reads id db (t, a, c) e in
          let is : r.transaction ≡ t = ap (λ x. x.transaction) same ∙ receipt_transaction t a c in
          rw is (found, a, account, owner)
    ]

-- The details and the receipt of a Pix transaction name the same two sides.
sides_agree :
    (t : Transaction) (a : Account) (c : Customer)
    → (details_of t a c).has_receipt ≡ true
    → ((is_pix_in t || is_pix_out t) ≡ true)
      × ((details_of t a c).payer ≡ some (receipt_of t a c).payer)
      × ((details_of t a c).receiver ≡ some (receipt_of t a c).receiver)
unfolding details_of receipt_in receipt_out
sides_agree t a c h = ground (arith, pix_apart t)

-- Where the details announce a receipt, the receipt is answered to the same customer, for the same
-- transaction, and it names the same payer and receiver.
pub get_transaction_details-get_receipt :
    (id u : ℕ) (db : Database) {d : Details} {db' : Database}
    → get_transaction_details id u db ≡ (ok d, db')
    → d.has_receipt ≡ true
    → (r : Receipt) × (get_receipt id u db ≡ (ok r, db))
      × (r.transaction ≡ d.transaction)
      × (d.payer ≡ some r.payer)
      × (d.receiver ≡ some r.receiver)
unfolding details_of
get_transaction_details-get_receipt id u db {d} {db'} h announced =
    elim (Reads-cases (read_transaction id db) db (read_transaction_reads id db)) [
      | inr (x, e) ↦ absurd (details_unread id u db x e h)
      | inl ((t, a, c), e) ↦
          let (owner, same) = details_answered id u db t a c e h in
          let known : (details_of t a c).has_receipt ≡ true = rw same at announced in
          let (pix, payer, receiver) = sides_agree t a c known in
          (
            receipt_of t a c,
            receipt_given id u db t a c e owner pix,
            receipt_transaction t a c ∙ sym (ap (λ x. x.transaction) same),
            ap (λ x. x.payer) same ∙ payer,
            ap (λ x. x.receiver) same ∙ receiver,
          )
    ]
