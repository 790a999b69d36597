-- ===== src/Conversions/Passes.antt =====
-- What a pass over the waiting sales (src/wallet/sell-processing.service.ts) does to the statuses.
use otsem_api.Common.{
  ℕ, ◌≡◌, refl, sym, ◌∙◌, String, ◌⊎◌, inl, inr, some, List, [], ◌∷◌, arith, find, select,
}
use otsem_api.Numbers.{Numbers}
use otsem_api.Database.Enums.{ConversionStatus}
use otsem_api.Database.Rows.{Conversion, Database}
use otsem_api.Database.Tables.{by, update_where, HasDistinct, find-update_where}
use otsem_api.Database.Action.{Action, Error, ok, Result-cases, then-cases, pure, ◌>>◌}
use otsem_api.Wallets.Mains.{select-HasDistinct}
use otsem_api.Conversions.Rows.{update_conversion}
use otsem_api.Conversions.Deposits.{Deposit}
use otsem_api.Conversions.Selling.{Exchange, Fresh, process_conversion}
use otsem_api.Conversions.Polling.{
  is_waiting, noted, or_noted, load_accounts, process_all, process_loaded,
  check_and_process_sell_conversions,
}
use otsem_api.Conversions.Loading.{Pair, Apart, Fits, select-Listed, load_accounts-Fits}
use otsem_api.Conversions.Statuses.{
  Next, Leads, Advances, Advances-refl, Advances-trans, update-Advances, Moves, process-Moves,
}

abbrev pub Statuses : Database → Database → Type 0
Statuses db d = Advances db.conversions d.conversions

-- Writing another conversion leaves them so.
Fits-update :
    (k : ℕ) (f : Conversion → Conversion) (xs : List Conversion)
    → ((x : Conversion) → (f x).id ≡ x.id)
    → (ps : List Pair) → Apart k ps
    → Fits ps xs
    → Fits ps (update_where (by (λ c. c.id) k) f xs)
Fits-update k f xs keep [] apart h = tt
Fits-update k f xs keep (p ∷ ps) (other, apart) (same, away, rest) = (
  λ x e. same x (sym (find-update_where (λ c. c.id) f keep k p.0.id xs ∙ rw other refl) ∙ e),
  away,
  Fits-update k f xs keep ps apart rest,
)

one_step : {s t u v : ConversionStatus} → s ≡ t → u ≡ v → Next t v → Leads s u
one_step same at step = rw (same, at) (Leads.go Leads.stay step)

pub Moves-Advances :
    (c : Conversion) (db d : Database)
    → ((x : Conversion) → find (by (λ c. c.id) c.id) db.conversions ≡ some x → x.status ≡ c.status)
    → Moves c db d
    → Statuses db d
Moves-Advances c db d fits (inl same) = rw same (Advances-refl db.conversions)
Moves-Advances c db d fits (inr (f, s, at, step, went)) =
    rw went (
      update-Advances c.id f db.conversions (λ x. (at x).0)
        λ x e. one_step (fits x e) (at x).1 step)

Moves-Fits :
    (c : Conversion) (db d : Database) (ps : List Pair)
    → Moves c db d
    → Apart c.id ps
    → Fits ps db.conversions
    → Fits ps d.conversions
Moves-Fits c db d ps (inl same) apart h = rw same h
Moves-Fits c db d ps (inr (f, s, at, step, went)) apart h =
    rw went (Fits-update c.id f db.conversions (λ x. (at x).0) ps apart h)

written-cases :
    (id : ℕ) (f : Conversion → Conversion) (db : Database)
    → (((update_conversion id f >> pure tt) db).1.conversions ≡ db.conversions)
      ⊎ (((update_conversion id f >> pure tt) db).1.conversions
          ≡ update_where (by (λ c. c.id) id) f db.conversions)
unfolding update_conversion
written-cases id f db = ground arith

module _ {N : Numbers} (exchange : Exchange N) where
  module _ (message : Error → String) (fresh : ℕ → Fresh) where
    -- The message of an exception is written to the conversion, or nothing is.
    noted-cases :
        (id : ℕ) (m : Action (Unit {0})) (db : Database)
        → ((or_noted exchange message fresh id m db).1.conversions ≡ (m db).1.conversions)
          ⊎ ((e : Error) × ((or_noted exchange message fresh id m db).1.conversions
                ≡ update_where (by (λ c. c.id) id) (noted (message e)) (m db).1.conversions))
    unfolding update_conversion
    noted-cases id m db = elim (Result-cases (m db).0) [
      | inr (u, h) ↦ inl (ground (arith, h))
      | inl (e, h) ↦ elim (written-cases id (noted (message e)) (m db).1) [
        | inl same ↦ inl (ground (arith, h, same))
        | inr went ↦ inr (e, ground (arith, h, went))
      ]
    ]

    noted-Advances :
        (id : ℕ) (m : Action (Unit {0})) (db : Database)
        → Statuses db (m db).1
        → Statuses db (or_noted exchange message fresh id m db).1
    noted-Advances id m db h = elim (noted-cases id m db) [
      | inl same ↦ rw same h
      | inr (e, went) ↦
          let d = (m db).1 in
          rw went (
            Advances-trans db.conversions d.conversions
              (update_where (by (λ c. c.id) id) (noted (message e)) d.conversions) h
              (update-Advances id (noted (message e)) d.conversions (λ x. refl) λ x f. Leads.stay))
    ]

    noted-Fits :
        (id : ℕ) (m : Action (Unit {0})) (db : Database) (ps : List Pair)
        → Apart id ps
        → Fits ps (m db).1.conversions
        → Fits ps (or_noted exchange message fresh id m db).1.conversions
    noted-Fits id m db ps apart h = elim (noted-cases id m db) [
      | inl same ↦ rw same h
      | inr (e, went) ↦
          rw went (Fits-update id (noted (message e)) (m db).1.conversions (λ x. refl) ps apart h)
    ]

    process_all-Statuses :
        (ps : List Pair) (deposits : List (Deposit N)) (db : Database)
        → Fits ps db.conversions
        → Statuses db (process_all exchange message fresh ps deposits db).1
    unfolding process_all
    process_all-Statuses [] deposits db h = Advances-refl db.conversions
    process_all-Statuses ((c, a) ∷ ps) deposits db (fits, apart, rest) =
        let m = process_conversion exchange (fresh c.id) c a deposits in
        let d = (or_noted exchange message fresh c.id m db).1 in
        let moved = process-Moves exchange (fresh c.id) c a deposits db in
        let first : Statuses db d =
          noted-Advances c.id m db (Moves-Advances c db (m db).1 fits moved) in
        let left : Fits ps d.conversions =
          noted-Fits c.id m db ps apart (Moves-Fits c db (m db).1 ps moved apart rest) in
        let rest_of = process_all exchange message fresh ps deposits in
        elim (then-cases (or_noted exchange message fresh c.id m) rest_of db) [
          | inl stops ↦ rw stops first
          | inr goes ↦ rw goes (
              Advances-trans db.conversions d.conversions (rest_of d).1.conversions first
                (process_all-Statuses ps deposits d left))
        ]

module _ {N : Numbers} (exchange : Exchange N) (message : Error → String) (fresh : ℕ → Fresh) where
  -- A pass reads only, or processes what it has loaded.
  check_and_process-cases :
      (db : Database)
      → ((check_and_process_sell_conversions exchange message fresh db).1 ≡ db)
        ⊎ ((ps : List Pair) × (deposits : List (Deposit N)) × (load_accounts exchange message fresh
                (select is_waiting db.conversions)
                db
              ≡ ok ps)
            × ((check_and_process_sell_conversions exchange message fresh db).1
                ≡ (process_all exchange message fresh ps deposits db).1))
  unfolding check_and_process_sell_conversions process_loaded
  check_and_process-cases db =
      elim (Result-cases
        (load_accounts exchange message fresh (select is_waiting db.conversions) db)) [
          | inl (e, h) ↦ inl (ground (arith, h))
          | inr ([], h) ↦ inl (ground (arith, h))
          | inr (p ∷ ps, h) ↦ elim (Result-cases exchange.recent_deposits) [
            | inl (e, r) ↦ inl (ground (arith, h, r))
            | inr (deposits, r) ↦ inr (p ∷ ps, deposits, h, ground (arith, h, r))
          ]
        ]

  -- A pass moves no conversion but along the status machine.
  pub check_and_process-Statuses :
      (db : Database)
      → HasDistinct (λ c. c.id) db.conversions
      → Statuses db (check_and_process_sell_conversions exchange message fresh db).1
  check_and_process-Statuses db d = elim (check_and_process-cases db) [
    | inl same ↦ rw same (Advances-refl db.conversions)
    | inr (ps, deposits, h, went) ↦ rw went (
        process_all-Statuses exchange message fresh ps deposits db (
          load_accounts-Fits exchange message fresh (select is_waiting db.conversions) db ps
            (select-HasDistinct (λ c. c.id) is_waiting db.conversions d)
            (select-Listed is_waiting db.conversions d) h))
  ]
