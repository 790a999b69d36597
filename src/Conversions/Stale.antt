-- ===== src/Conversions/Stale.antt =====
-- A pass over the waiting sales (src/wallet/sell-processing.service.ts) loads every account before
-- it credits the first sale.
use otsem_api.Common.{
  ℕ, ℤ, ◌≡◌, refl, sym, ap, ◌∙◌, subst, String, inl, inr, none, some, List, [], ◌∷◌, arith, ==_refl,
  find, select, Option-cases,
}
use mathlib.Core.Option
use otsem_api.Numbers.{Numbers}
use otsem_api.Database.Enums.{ConversionStatus}
use otsem_api.Database.Rows.{Account, Conversion, Database}
use otsem_api.Database.Tables.{by, update_where, find-update_where}
use otsem_api.Database.Queries.{account_by_id, with_balance}
use otsem_api.Database.Action.{Error, ok}
use otsem_api.Conversions.Deposits.{Deposit}
use otsem_api.Conversions.Selling.{
  Exchange, Fresh, amounts_of, brl_to_customer, brl, is_credit_of, credit_balance_to_customer,
  process_conversion,
}
use otsem_api.Conversions.Polling.{
  is_waiting, load_accounts, process_all, process_loaded, check_and_process_sell_conversions,
}
use otsem_api.Conversions.Crediting.{credit_first-Credits}
use otsem_api.Conversions.Once.{process_sold, credit_again-accounts}

module _ {N : Numbers} (exchange : Exchange N) where
  open N use {plus, to_number}

  -- The balance that a credit writes: that of the account as it was loaded, and the amount.
  abbrev pub balance_credited : Conversion → ℤ → Account → ℤ
  balance_credited c p account = brl exchange (
      plus (to_number 2 account.balance)
        (brl_to_customer exchange (amounts_of exchange c (to_number 6 p))))

  account_by_id-update :
      (id : ℕ) (b : ℤ) (accounts : List Account)
      → find (by (λ a. a.id) id) (update_where (by (λ a. a.id) id) (with_balance b) accounts)
        ≡ Option.map (with_balance b) (find (by (λ a. a.id) id) accounts)
  account_by_id-update id b accounts =
      find-update_where (λ a. a.id) (with_balance b) (λ a. refl) id id accounts
      ∙ rw (==_refl id) refl

  -- Whatever the balance is by then, a first credit overwrites it.
  credit-account :
      (fresh : Fresh) (c : Conversion) (account : Account) (p : ℤ) (db d : Database)
      → c.usdt_purchased ≡ some p
      → find (is_credit_of c.id c.account_id) db.transactions ≡ none
      → credit_balance_to_customer exchange fresh c account db ≡ (ok tt, d)
      → account_by_id c.account_id d
        ≡ Option.map (with_balance (balance_credited c p account)) (account_by_id c.account_id db)
  unfolding account_by_id
  credit-account fresh c account p db d e new is =
      elim (credit_first-Credits exchange fresh c account db new) [
        | inl (kept, threw) ↦ absurd (cc)
        | inr (q, b, f, e', (_, _, same, _), _, went) ↦
            let amount : q ≡ p = ground (arith, e', e) in
            rw (ap (λ r. r.1) (sym is ∙ went), amount, ← same)
              (account_by_id-update c.account_id (balance_credited c p account) b.accounts)
      ]

  -- A first credit of another sale leaves an account with another balance only.
  credit-found :
      (fresh : Fresh) (c : Conversion) (account a : Account) (db d : Database)
      → account_by_id c.account_id db ≡ some a
      → credit_balance_to_customer exchange fresh c account db ≡ (ok tt, d)
      → (b : ℤ) × (account_by_id c.account_id d ≡ some (with_balance b a))
  unfolding account_by_id
  credit-found fresh c account a db d known is =
      elim (Option-cases (find (is_credit_of c.id c.account_id) db.transactions)) [
        | inr (t, e) ↦
            let same : d.accounts ≡ db.accounts =
              subst (λ r. r.1.accounts ≡ db.accounts) is
                (credit_again-accounts exchange fresh c account db t e) in
            (a.balance, rw same known)
        | inl e ↦ elim (credit_first-Credits exchange fresh c account db e) [
          | inl (kept, threw) ↦ absurd (cc)
          | inr (q, b, f, e', (_, _, same, _), _, went) ↦ (
            balance_credited c q account,
            rw (ap (λ r. r.1) (sym is ∙ went)) (
                account_by_id-update c.account_id (balance_credited c q account) b.accounts
                ∙ rw (same, known) refl),
          )
        ]
      ]

  module _ (message : Error → String) (fresh : ℕ → Fresh) where
    run_two :
        (c e : Conversion) (a : Account) (deposits : List (Deposit N)) (db d later : Database)
        → exchange.recent_deposits ≡ ok deposits
        → select is_waiting db.conversions ≡ c ∷ e ∷ []
        → account_by_id c.account_id db ≡ some a
        → account_by_id e.account_id db ≡ some a
        → process_conversion exchange (fresh c.id) c a deposits db ≡ (ok tt, d)
        → process_conversion exchange (fresh e.id) e a deposits d ≡ (ok tt, later)
        → check_and_process_sell_conversions exchange message fresh db ≡ (ok tt, later)
    unfolding check_and_process_sell_conversions load_accounts process_loaded process_all
    run_two c e a deposits db d later listed waiting known_c known_e first second =
        ground (arith, listed, waiting, known_c, known_e, first, second)

    -- Of two sold conversions of one account that a pass credits, the second credit overwrites the
    -- first: after the pass the balance is the one from before it and the second amount, since both
    -- accounts are loaded at the start; where the two are the only waiting sales, both calls answer
    -- and the second was not credited before.
    pub check_and_process_stale :
        (c e : Conversion) (a : Account) (p : ℤ) (deposits : List (Deposit N))
        (db d later : Database)
        → exchange.recent_deposits ≡ ok deposits
        → select is_waiting db.conversions ≡ c ∷ e ∷ []
        → account_by_id c.account_id db ≡ some a
        → e.account_id ≡ c.account_id
        → c.status ≡ ConversionStatus.usdt_sold
        → e.status ≡ ConversionStatus.usdt_sold
        → e.usdt_purchased ≡ some p
        → process_conversion exchange (fresh c.id) c a deposits db ≡ (ok tt, d)
        → process_conversion exchange (fresh e.id) e a deposits d ≡ (ok tt, later)
        → find (is_credit_of e.id e.account_id) d.transactions ≡ none
        → account_by_id c.account_id
            (check_and_process_sell_conversions exchange message fresh db).1
          ≡ some (with_balance (balance_credited e p a) a)
    check_and_process_stale c e a p deposits db d later listed waiting known one s t amount first
          second new =
        let run =
          run_two c e a deposits db d later listed waiting known (rw one known) first second in
        let (b, between) =
          credit-found (fresh c.id) c a a db d known
            (sym (process_sold exchange (fresh c.id) c a deposits db s) ∙ first) in
        let last =
          credit-account (fresh e.id) e a p d later amount new
            (sym (process_sold exchange (fresh e.id) e a deposits d t) ∙ second) in
        let here : account_by_id e.account_id d ≡ some (with_balance b a) = rw one between in
        rw (run, ← one) (last ∙ rw here refl)
