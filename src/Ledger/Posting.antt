-- ===== src/Ledger/Posting.antt =====
-- The abstract ledger: to post a row is to log it and to write its `balance_after` to its account.
-- The modules of Ledger/Effects read the services' methods as such posts.
use otsem_api.Common.{
  ℕ, ℤ, pos, ◌≡◌, ◌≢◌, refl, true, Option, none, some, List, [], ◌∷◌, arith, ◌==◌, ◌+ℤ◌,
  if◌then◌else◌, ==_refl, Option-cases, inl, inr, Bool-cases, ◌∙◌, ==_sound, ap,
}
use mathlib.Core.Option
use mathlib.Core.Option.{some-injective}
use otsem_api.Database.Rows.{Account, Transaction, Database}
use otsem_api.Database.Tables.{
  by, HasDistinct, update_where, sum_of, find-update_where, update_where-HasDistinct,
  sum_of-update_where,
}
use otsem_api.Database.Queries.{account_by_id, with_balance}
use otsem_api.Ledger.Audit.{added, audit, eq_ℤ_refl}

abbrev pub posted : Transaction → Database → Database
posted t db = record db {
  accounts = update_where (by (λ a. a.id) t.account_id) (with_balance t.balance_after) db.accounts;
  transactions = t ∷ db.transactions;
}

-- The balance of an account, or 0 where there is none.
abbrev pub balance_or_zero : Option Account → ℤ
balance_or_zero none = pos 0
balance_or_zero (some a) = a.balance

abbrev pub balance_at : ℕ → Database → ℤ
balance_at id db = balance_or_zero (account_by_id id db)

-- A row that may be posted: its account exists, and its columns start at that account's balance.
pub record Fits (db : Database) (t : Transaction) : Type 0 where
  pub known : account_by_id t.account_id db ≢ none
  pub before : t.balance_before ≡ balance_at t.account_id db
  pub adds : t.balance_after ≡ added t.kind t.balance_before t.amount

-- The rows are posted one after the other.
abbrev pub Posts : Database → List Transaction → Database → Type 0
Posts db [] db' = db' ≡ db
Posts db (t ∷ ts) db' = Fits db t × Posts (posted t db) ts db'

-- Account ids are unique, and the log explains every balance, from zero.
pub record IsConsistent (db : Database) : Type 0 where
  pub distinct : HasDistinct (λ a. a.id) db.accounts
  pub explained : (id : ℕ) → audit id db.transactions (balance_at id db) ≡ true

-- The money of all accounts.
abbrev pub total : Database → ℤ
total db = sum_of (λ a. a.balance) db.accounts

pub account_by_id-posted :
    (t : Transaction) (db : Database) (id : ℕ)
    → account_by_id id (posted t db) ≡ (
        if t.account_id == id
        then Option.map (with_balance t.balance_after) (account_by_id id db)
        else account_by_id id db)
unfolding account_by_id
account_by_id-posted t db id =
    find-update_where (λ a. a.id) (with_balance t.balance_after) (λ _. refl) t.account_id id
      db.accounts

pub balance_at-posted :
    (t : Transaction) (db : Database) (id : ℕ)
    → account_by_id t.account_id db ≢ none
    → balance_at id (posted t db)
      ≡ (if t.account_id == id then t.balance_after else balance_at id db)
balance_at-posted t db id known = elim (Bool-cases (t.account_id == id)) [
  | inl same ↦ elim (Option-cases (account_by_id id db)) [
    | inl missing ↦ absurd (known (rw (==_sound t.account_id id same) missing))
    | inr (a, found) ↦ rw (account_by_id-posted t db id, same, found) refl
  ]
  | inr other ↦ rw (account_by_id-posted t db id, other) refl
]

pub posted-IsConsistent :
    {db : Database} (t : Transaction) → IsConsistent db → Fits db t → IsConsistent (posted t db)
unfolding audit
posted-IsConsistent {db} t c f = record {
  distinct =
      update_where-HasDistinct (λ a. a.id) (with_balance t.balance_after) (λ _. refl) t.account_id
        db.accounts c.distinct;
  explained = λ id.
      ground (arith, c.explained id, balance_at-posted t db id f.known, eq_ℤ_refl t.balance_after);
}

pub total-posted :
    {db : Database} (t : Transaction)
    → IsConsistent db
    → Fits db t
    → total (posted t db) +ℤ t.balance_before ≡ total db +ℤ t.balance_after
unfolding account_by_id
total-posted {db} t c f = elim (Option-cases (account_by_id t.account_id db)) [
  | inl missing ↦ absurd (f.known missing)
  | inr (a, found) ↦
      let same : t.balance_before ≡ a.balance = f.before ∙ ap balance_or_zero found in
      rw same (
        sum_of-update_where (λ a. a.id) (λ a. a.balance) (with_balance t.balance_after) t.account_id
          db.accounts c.distinct found)
]

-- The account of a posted row then holds the row's balance.
pub balance_at-posted_self :
    {db : Database} (t : Transaction)
    → Fits db t
    → balance_at t.account_id (posted t db) ≡ t.balance_after
balance_at-posted_self {db} t f =
    rw (balance_at-posted t db t.account_id f.known, ==_refl t.account_id) refl
