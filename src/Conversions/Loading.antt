-- ===== src/Conversions/Loading.antt =====
-- What a pass over the waiting sales loads (src/wallet/sell-processing.service.ts): rows of the table,
-- each once.
use otsem_api.Common.{
  ℕ, ◌≡◌, refl, sym, ap, ◌∙◌, String, Bool, false, inl, inr, Option, none, some, List, [], ◌∷◌,
  arith, ◌==◌, ==_refl, find, select, Bool-cases, Option-cases,
}
use otsem_api.Numbers.{Numbers}
use otsem_api.Database.Enums.{ConversionStatus}
use otsem_api.Database.Rows.{Account, Conversion, Database}
use otsem_api.Database.Tables.{by, HasDistinct}
use otsem_api.Database.Queries.{account_by_id}
use otsem_api.Database.Action.{Error, ok, ok-injective, Result-cases}
use otsem_api.Conversions.Selling.{Exchange, Fresh}
use otsem_api.Conversions.Polling.{load_accounts}
use otsem_api.Conversions.Statuses.{not_there}

abbrev pub Pair : Type 0
Pair = Conversion × Account

-- No pair is about conversion `id`.
abbrev pub Apart : ℕ → List Pair → Type 0
Apart id [] = Unit
Apart id (p ∷ ps) = ((id == p.0.id) ≡ false) × Apart id ps

-- The statuses that were loaded are those in the table, and no conversion is loaded twice.
abbrev pub Fits : List Pair → List Conversion → Type 0
Fits [] xs = Unit
Fits (p ∷ ps) xs =
    ((x : Conversion) → find (by (λ c. c.id) p.0.id) xs ≡ some x → x.status ≡ p.0.status)
    × Apart p.0.id ps
    × Fits ps xs

-- Every conversion of the list is the row of its id.
abbrev pub Listed : List Conversion → List Conversion → Type 0
Listed [] xs = Unit
Listed (c ∷ cs) xs = (find (by (λ c. c.id) c.id) xs ≡ some c) × Listed cs xs

Listed-cons :
    (x : Conversion) (xs cs : List Conversion)
    → find (by (λ c. c.id) x.id) xs ≡ none
    → Listed cs xs
    → Listed cs (x ∷ xs)
unfolding find
Listed-cons x xs [] fresh h = tt
Listed-cons x xs (c ∷ cs) fresh (e, h) = elim (Bool-cases (x.id == c.id)) [
  | inl same ↦ absurd (not_there x.id c.id xs c fresh same e)
  | inr other ↦ (rw other e, Listed-cons x xs cs fresh h)
]

pub select-Listed :
    (p : Conversion → Bool) (xs : List Conversion)
    → HasDistinct (λ c. c.id) xs
    → Listed (select p xs) xs
unfolding select find
select-Listed p [] d = tt
select-Listed p (x ∷ xs) (fresh, d) =
    let rest = Listed-cons x xs (select p xs) fresh (select-Listed p xs d) in
    elim (Bool-cases (p x)) [
      | inl fits ↦ rw fits (rw (==_refl x.id) refl, rest)
      | inr other ↦ rw other rest
    ]

flipped_test : (m n : ℕ) → (m == n) ≡ false → (n == m) ≡ false
flipped_test m n h = ground arith

status_or : Conversion → Option Conversion → ConversionStatus
status_or x none = x.status
status_or x (some y) = y.status

pub same_row : (x c : Conversion) → some x ≡ some c → x.status ≡ c.status
unfolding status_or
same_row x c e = ap (λ o. status_or x o) e

module _ {N : Numbers} (exchange : Exchange N) (message : Error → String) (fresh : ℕ → Fresh) where
  load_accounts_known :
      (c : Conversion) (cs : List Conversion) (db : Database) (a : Account) (rest : List Pair)
      → account_by_id c.account_id db ≡ some a
      → load_accounts exchange message fresh cs db ≡ ok rest
      → load_accounts exchange message fresh (c ∷ cs) db ≡ ok ((c, a) ∷ rest)
  unfolding load_accounts
  load_accounts_known c cs db a rest k r = ground (arith, k, r)

  -- What is loaded of a first conversion and the rest.
  load_accounts_cons :
      (c : Conversion) (cs : List Conversion) (db : Database) (ps : List Pair)
      → load_accounts exchange message fresh (c ∷ cs) db ≡ ok ps
      → (a : Account) × (rest : List Pair) × (ps ≡ (c, a) ∷ rest)
        × (load_accounts exchange message fresh cs db ≡ ok rest)
  unfolding load_accounts
  load_accounts_cons c cs db ps e = elim (Option-cases (account_by_id c.account_id db)) [
    | inl k ↦ absurd (ground (arith, e, k))
    | inr (a, k) ↦ elim (Result-cases (load_accounts exchange message fresh cs db)) [
      | inl (x, r) ↦ absurd (ground (arith, e, k, r))
      | inr (rest, r) ↦ (a, rest, ok-injective (sym e ∙ load_accounts_known c cs db a rest k r), r)
    ]
  ]

  load_accounts-Apart :
      (id : ℕ) (cs : List Conversion) (db : Database) (ps : List Pair)
      → find (by (λ c. c.id) id) cs ≡ none
      → load_accounts exchange message fresh cs db ≡ ok ps
      → Apart id ps
  unfolding load_accounts find
  load_accounts-Apart id [] db ps away e = rw (← ok-injective e) tt
  load_accounts-Apart id (c ∷ cs) db ps away e =
      let (a, rest, is, r) = load_accounts_cons c cs db ps e in
      elim (Bool-cases (c.id == id)) [
        | inl same ↦ absurd (ground (arith, away, same))
        | inr other ↦
            rw is
              (flipped_test c.id id other, load_accounts-Apart id cs db rest (rw other at away) r)
      ]

  pub load_accounts-Fits :
      (cs : List Conversion) (db : Database) (ps : List Pair)
      → HasDistinct (λ c. c.id) cs
      → Listed cs db.conversions
      → load_accounts exchange message fresh cs db ≡ ok ps
      → Fits ps db.conversions
  unfolding load_accounts
  load_accounts-Fits [] db ps d h e = rw (← ok-injective e) tt
  load_accounts-Fits (c ∷ cs) db ps (away, d) (here, h) e =
      let (a, rest, is, r) = load_accounts_cons c cs db ps e in
      rw is (
        λ x f. same_row x c (sym f ∙ here),
        load_accounts-Apart c.id cs db rest away r,
        load_accounts-Fits cs db rest d h r,
      )
