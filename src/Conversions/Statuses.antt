-- ===== src/Conversions/Statuses.antt =====
-- The status machine of a sale, and tables of conversions that move along it
-- (src/wallet/sell-processing.service.ts).
use otsem_api.Common.{
  ℕ, ℤ, ◌≡◌, refl, ◌∙◌, true, ◌⊎◌, inl, inr, Option, none, some, List, ◌∷◌, arith, ◌==◌, ==_sound,
  find, Bool-cases, Option-cases,
}
use otsem_api.Numbers.{Numbers}
use otsem_api.Database.Enums.{ConversionStatus, conversion_status_is, conversion_status_is_sound}
use otsem_api.Database.Rows.{Account, Conversion, Database}
use otsem_api.Database.Tables.{
  by, update_where, HasDistinct, find-update_where, update_where-HasDistinct,
}
use otsem_api.Database.Action.{ok, Result-cases}
use otsem_api.Conversions.Rows.{update_conversion}
use otsem_api.Conversions.Deposits.{
  Deposit, matching_deposit, check_deposit_confirmation, received, confirm_deposit,
}
use otsem_api.Conversions.Selling.{
  Exchange, Fresh, Sold, sold, is_credit_of, closed_at, credit_balance_to_customer,
  sell_usdt_for_brl, process_conversion,
}
use otsem_api.Conversions.Crediting.{credit_again, credit_first-Credits}

-- One step of a sale.
pub data Next : ConversionStatus → ConversionStatus → Type 0 where
  confirm : Next ConversionStatus.pending ConversionStatus.usdt_received
  sell : Next ConversionStatus.usdt_received ConversionStatus.usdt_sold
  credit : Next ConversionStatus.usdt_sold ConversionStatus.completed

pub data Leads (s : ConversionStatus) : ConversionStatus → Type 0 where
  stay : Leads s s
  go : {t u : ConversionStatus} → Leads s t → Next t u → Leads s u

pub Leads-trans : {s t u : ConversionStatus} → Leads s t → Leads t u → Leads s u
Leads-trans p stay = p
Leads-trans p (go q n) = go (Leads-trans p q) n

-- Rows keep their ids apart, and every row is still there, further along or as it was.
abbrev pub Advances : List Conversion → List Conversion → Type 0
Advances xs ys =
    (HasDistinct (λ c. c.id) xs → HasDistinct (λ c. c.id) ys)
    × ((id : ℕ) (x : Conversion)
        → find (by (λ c. c.id) id) xs ≡ some x
        → (y : Conversion) × (find (by (λ c. c.id) id) ys ≡ some y) × Leads x.status y.status)

pub Advances-refl : (xs : List Conversion) → Advances xs xs
Advances-refl xs = (λ d. d, λ id x e. (x, e, Leads.stay))

pub Advances-trans : (xs ys zs : List Conversion) → Advances xs ys → Advances ys zs → Advances xs zs
Advances-trans xs ys zs (p, q) (r, s) = (
  λ d. r (p d),
  λ id x e. let (y, f, l) = q id x e in let (z, g, m) = s id y f in (z, g, Leads-trans l m),
)

pub update-Advances :
    (k : ℕ) (f : Conversion → Conversion) (xs : List Conversion)
    → ((x : Conversion) → (f x).id ≡ x.id)
    → ((x : Conversion) → find (by (λ c. c.id) k) xs ≡ some x → Leads x.status (f x).status)
    → Advances xs (update_where (by (λ c. c.id) k) f xs)
update-Advances k f xs keep moves = (
  update_where-HasDistinct (λ c. c.id) f keep k xs,
  λ id x e. elim (Bool-cases (k == id)) [
    | inl same ↦ (
      f x,
      find-update_where (λ c. c.id) f keep k id xs ∙ rw (same, e) refl,
      moves x (rw (==_sound k id same) e),
    )
    | inr other ↦ (x, find-update_where (λ c. c.id) f keep k id xs ∙ rw (other, e) refl, Leads.stay)
  ],
)

pub not_there :
    (k id : ℕ) (xs : List Conversion) (x : Conversion)
    → find (by (λ c. c.id) k) xs ≡ none
    → (k == id) ≡ true
    → find (by (λ c. c.id) id) xs ≡ some x
    → ⊥
not_there k id xs x fresh same e =
    let gone : find (by (λ c. c.id) id) xs ≡ none = rw (← ==_sound k id same) fresh in absurd (cc)

pub cons-Advances :
    (c : Conversion) (xs : List Conversion)
    → find (by (λ c. c.id) c.id) xs ≡ none
    → Advances xs (c ∷ xs)
unfolding find
cons-Advances c xs fresh = (
  λ d. (fresh, d),
  λ id x e. elim (Bool-cases (c.id == id)) [
    | inl same ↦ absurd (not_there c.id id xs x fresh same e)
    | inr other ↦ (x, rw other e, Leads.stay)
  ],
)

-- What processing a conversion does to the table: nothing, or one step of that conversion.
abbrev pub Moves : Conversion → Database → Database → Type 0
Moves c db d =
    (d.conversions ≡ db.conversions)
    ⊎ ((f : Conversion → Conversion) × (s : ConversionStatus) × ((x : Conversion)
          → ((f x).id ≡ x.id) × ((f x).status ≡ s))
        × Next c.status s
        × (d.conversions ≡ update_where (by (λ c. c.id) c.id) f db.conversions))

module _ {N : Numbers} (exchange : Exchange N) where
  confirm-cases :
      (id : ℕ) (d : Deposit N) (db : Database)
      → ((confirm_deposit N id (some d) db).1.conversions ≡ db.conversions)
        ⊎ ((confirm_deposit N id (some d) db).1.conversions
            ≡ update_where (by (λ c. c.id) id) (received N d) db.conversions)
  unfolding update_conversion
  confirm-cases id d db = ground arith

  confirm-Moves :
      (c : Conversion) (found : Option (Deposit N)) (db : Database)
      → c.status ≡ ConversionStatus.pending
      → Moves c db (confirm_deposit N c.id found db).1
  confirm-Moves c none db is = inl refl
  confirm-Moves c (some d) db is = elim (confirm-cases c.id d db) [
    | inl same ↦ inl same
    | inr went ↦ inr (
      received N d,
      ConversionStatus.usdt_received,
      (λ x. (refl, refl)),
      rw is Next.confirm,
      went,
    )
  ]

  check_deposit-Moves :
      (c : Conversion) (deposits : List (Deposit N)) (db : Database)
      → c.status ≡ ConversionStatus.pending
      → Moves c db (check_deposit_confirmation N c deposits db).1
  unfolding check_deposit_confirmation
  check_deposit-Moves c deposits db is = elim (Result-cases (matching_deposit N c deposits)) [
    | inl (e, h) ↦ rw h (inl refl)
    | inr (found, h) ↦ rw h (confirm-Moves c found db is)
  ]

  sold-cases :
      (c : Conversion) (p : ℤ) (s : Sold N) (db : Database)
      → c.usdt_purchased ≡ some p
      → exchange.transfer_usdt_to_trading (N.to_number 6 p) ≡ ok tt
      → exchange.sell_usdt_for_brl (N.to_number 6 p) ≡ ok s
      → ((sell_usdt_for_brl exchange c db).1.conversions ≡ db.conversions)
        ⊎ ((sell_usdt_for_brl exchange c db).1.conversions
            ≡ update_where (by (λ c. c.id) c.id) (sold exchange (N.to_number 6 p) s) db.conversions)
  unfolding sell_usdt_for_brl update_conversion
  sold-cases c p s db e t h = ground (arith, e, t, h)

  sell-Moves :
      (c : Conversion) (db : Database)
      → c.status ≡ ConversionStatus.usdt_received
      → Moves c db (sell_usdt_for_brl exchange c db).1
  unfolding sell_usdt_for_brl
  sell-Moves c db is = elim (Option-cases c.usdt_purchased) [
    | inl e ↦ inl (ground (arith, e))
    | inr (p, e) ↦ elim (Result-cases (exchange.transfer_usdt_to_trading (N.to_number 6 p))) [
      | inl (x, t) ↦ inl (ground (arith, e, t))
      | inr (u, t) ↦ elim (Result-cases (exchange.sell_usdt_for_brl (N.to_number 6 p))) [
        | inl (x, h) ↦ inl (ground (arith, e, t, h))
        | inr (s, h) ↦ elim (sold-cases c p s db e t h) [
          | inl same ↦ inl same
          | inr went ↦ inr (
            sold exchange (N.to_number 6 p) s,
            ConversionStatus.usdt_sold,
            (λ x. (refl, refl)),
            rw is Next.sell,
            went,
          )
        ]
      ]
    ]
  ]

  credit-Moves :
      (fresh : Fresh) (c : Conversion) (account : Account) (db : Database)
      → c.status ≡ ConversionStatus.usdt_sold
      → Moves c db (credit_balance_to_customer exchange fresh c account db).1
  credit-Moves fresh c account db s =
      let step : Next c.status ConversionStatus.completed = rw s Next.credit in
      elim (Option-cases (find (is_credit_of c.id c.account_id) db.transactions)) [
        | inr (t, e) ↦ elim (credit_again exchange fresh c account db t e) [
          | inl kept ↦ inl (rw kept refl)
          | inr closed ↦ inr (
            closed_at fresh.now,
            ConversionStatus.completed,
            (λ x. (refl, refl)),
            step,
            rw closed refl,
          )
        ]
        | inl e ↦ elim (credit_first-Credits exchange fresh c account db e) [
          | inl ((same, _, _, _), threw) ↦ inl same
          | inr (p, b, f, _, (same, _, _, _), ends, went) ↦ inr (
            f,
            ConversionStatus.completed,
            (λ x. let (t, i) = ends x in (i, t)),
            step,
            rw (went, same) refl,
          )
        ]
      ]

  pub process-Moves :
      (fresh : Fresh) (c : Conversion) (account : Account) (deposits : List (Deposit N))
      (db : Database)
      → Moves c db (process_conversion exchange fresh c account deposits db).1
  unfolding process_conversion
  process-Moves fresh c account deposits db =
      elim (Bool-cases (conversion_status_is c.status ConversionStatus.pending)) [
        | inl p ↦ rw p (
            check_deposit-Moves c deposits db
              (conversion_status_is_sound c.status ConversionStatus.pending p))
        | inr np ↦
            elim (Bool-cases (conversion_status_is c.status ConversionStatus.usdt_received)) [
              | inl r ↦
                  rw (np, r)
                    (sell-Moves c db
                      (conversion_status_is_sound c.status ConversionStatus.usdt_received r))
              | inr nr ↦
                  elim (Bool-cases (conversion_status_is c.status ConversionStatus.usdt_sold)) [
                    | inl so ↦
                        rw (np, nr, so)
                          (credit-Moves fresh c account db
                            (conversion_status_is_sound c.status ConversionStatus.usdt_sold so))
                    | inr ns ↦ rw (np, nr, ns) (inl refl)
                  ]
            ]
      ]
