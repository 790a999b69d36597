-- ===== src/Wallets/Importing.antt =====
-- What `importWallet` answers, and an import undone by `deleteWallet`.
use otsem_api.Common.{
  ℕ, ◌≡◌, refl, sym, ap, ◌∙◌, String, true, false, not, ◌⊎◌, inl, inr, Option, none, some, arith,
  find, any, select, is_some, Bool-cases, Option-cases, ◌==◌, ==_refl,
}
use otsem_api.Database.Enums.{WalletNetwork}
use otsem_api.Database.Rows.{Wallet, Database}
use otsem_api.Database.Tables.{find-by_of_any}
use otsem_api.Database.Queries.{customer_by_id}
use otsem_api.Database.Action.{Error, ok, err, ok-injective, unique_violation, foreign_key}
use otsem_api.Boleto.Payments.{wallet_by_id}
use otsem_api.Wallets.Currencies.{
  normalize_currency, is_supported, assert_supported_currency, unsupported,
}
use otsem_api.Wallets.Management.{
  is_main_of, is_same_wallet, unset_mains, not_main, wallet_clash, wallet_row, create_wallet,
  insert_wallet, get_main_wallet, AddressTests, import_wallet, validate_address, taken,
  create_error,
}
use otsem_api.Wallets.Keeping.{get_wallet_by_id, delete_wallet, delete_row}
use otsem_api.Wallets.Mains.{update_where_of_none, select_absent}
use otsem_api.Wallets.Orderly.{with_wallet, covers}
use otsem_api.Wallets.Effects.{import_wallet-cases, prepared}

insert_wallet-cases :
    (w : Wallet) (db : Database)
    → ((e : Error) × (insert_wallet w db ≡ (err e, db)))
      ⊎ ((any (wallet_clash w) db.wallets ≡ false)
          × (insert_wallet w db ≡ (ok w, with_wallet w db)))
unfolding insert_wallet
insert_wallet-cases w db = elim (Bool-cases (any (wallet_clash w) db.wallets)) [
  | inl clash ↦ inl (unique_violation, ground (arith, clash))
  | inr free ↦ elim (Option-cases (customer_by_id w.customer_id db)) [
    | inl missing ↦ inl (foreign_key, ground (arith, free, missing))
    | inr (k, known) ↦ inr (free, ground (arith, free, known))
  ]
]

-- A creation that is not to be reset answers with its row, or throws and writes nothing.
module _ (id now c : ℕ) (n : WalletNetwork) (address : String) (currency label : Option String)
    (db : Database) where
  -- A reset finds nobody where there is no main wallet.
  reset_nobody : prepared (not (is_some (get_main_wallet c n db))) c n db ≡ db
  unfolding get_main_wallet unset_mains
  reset_nobody = elim (Option-cases (get_main_wallet c n db)) [
    | inl e ↦ rw (e, update_where_of_none (is_main_of c n) not_main db.wallets e) refl
    | inr (w, e) ↦ rw e refl
  ]

  abbrev first_row : Wallet
  first_row =
      wallet_row id now c n address none (normalize_currency currency n) label
        (not (is_some (get_main_wallet c n db)))

  create_first-cases :
      ((e : Error) × (create_wallet id now c n address currency label
            (not (is_some (get_main_wallet c n db)))
            db
          ≡ (err e, db)))
      ⊎ ((any (wallet_clash first_row) db.wallets ≡ false)
          × (create_wallet id now c n address currency label
                (not (is_some (get_main_wallet c n db)))
                db
              ≡ (ok first_row, with_wallet first_row db)))
  unfolding create_wallet assert_supported_currency
  create_first-cases = elim (Bool-cases (is_supported n (normalize_currency currency n))) [
    | inl s ↦
        elim (Option-cases
          (find (is_same_wallet c n address (normalize_currency currency n)) db.wallets)) [
            | inl e ↦ elim (insert_wallet-cases first_row db) [
              | inl (x, h) ↦ inl (create_error x, ground (arith, s, e, reset_nobody, h))
              | inr (free, h) ↦ inr (free, ground (arith, s, e, reset_nobody, h))
            ]
            | inr (w, e) ↦ inl (taken, rw (s, e) refl)
          ]
    | inr s ↦ inl (unsupported n, rw s refl)
  ]

module _ (tests : AddressTests) (id now c : ℕ) (n : WalletNetwork) (address : String)
    (label currency : Option String) (db : Database) where
  -- An import throws and writes nothing, or adds the wallet it answers with, which is the main one
  -- where there was none.
  import_wallet-answers :
      ((e : Error) × (import_wallet tests id now c n address label currency db ≡ (err e, db)))
      ⊎ ((w : Wallet) × (w.id ≡ id)
          × (w.customer_id ≡ c)
          × (w.is_main ≡ not (is_some (get_main_wallet c n db)))
          × (any (wallet_clash w) db.wallets ≡ false)
          × (import_wallet tests id now c n address label currency db ≡ (ok w, with_wallet w db)))
  import_wallet-answers = elim (import_wallet-cases tests id now c n address label currency db) [
    | inl threw ↦ inl threw
    | inr (text, valid, is) ↦
        let cur = some (normalize_currency currency n) in
        elim (create_first-cases id now c n address cur (some text) db) [
          | inl (e, h) ↦ inl (e, is ∙ h)
          | inr (free, h) ↦
              inr (first_row id now c n address cur (some text) db, refl, refl, refl, free, is ∙ h)
        ]
  ]

  -- An import that throws leaves the database as it was, also where it was to be the main wallet.
  -- It throws where the network does not take the currency, or where the address does not pass its
  -- test.
  pub import_wallet_throws :
      ((e : Error) (d : Database)
        → import_wallet tests id now c n address label currency db ≡ (err e, d)
        → d ≡ db)
      × ((is_supported n (normalize_currency currency n) ≡ false)
          → import_wallet tests id now c n address label currency db ≡ (err (unsupported n), db))
      × ((x : Error)
          → is_supported n (normalize_currency currency n) ≡ true
          → validate_address tests n address ≡ err x
          → import_wallet tests id now c n address label currency db ≡ (err x, db))
  unfolding import_wallet assert_supported_currency
  import_wallet_throws = (
    λ e d is. elim import_wallet-answers [
      | inl (x, h) ↦ ap (λ r. r.1) (sym is ∙ h)
      | inr (w, _, _, _, _, h) ↦ absurd (cc)
    ],
    λ s. rw s refl,
    λ x s v. rw (s, v) refl,
  )

  -- An import beside a main wallet, undone: deleting the wallet that the import answers with brings
  -- back the wallets from before it, where no boleto payment names the new wallet's id.
  pub import_wallet-delete_wallet :
      (w : Wallet) (d : Database) (v : Wallet)
      → get_main_wallet c n db ≡ some v
      → any (λ b. b.wallet_id == id) db.boleto_payments ≡ false
      → import_wallet tests id now c n address label currency db ≡ (ok w, d)
      → ((delete_wallet w.id c d).0 ≡ ok w) × ((delete_wallet w.id c d).1.wallets ≡ db.wallets)
  unfolding delete_wallet delete_row get_wallet_by_id wallet_by_id find select
  import_wallet-delete_wallet w d v has unused is = elim import_wallet-answers [
    | inl (x, h) ↦ absurd (cc)
    | inr (u, same_id, same_c, main, free, h) ↦
        let both = sym is ∙ h in
        let row : w ≡ u = ok-injective (ap (λ r. r.0) both) in
        let end : d ≡ with_wallet u db = ap (λ r. r.1) both in
        let fresh = find-by_of_any (λ w. w.id) wallet_clash u (covers u) db.wallets free in
        let left = select_absent (λ w. w.id) u.id db.wallets fresh in
        let side : u.is_main ≡ false = main ∙ rw has refl in
        let free_of : any (λ b. b.wallet_id == u.id) db.boleto_payments ≡ false =
          rw same_id unused in
        rw (row, end) (ground (arith, side, left, ==_refl u.id, ==_refl c, free_of, same_c))
  ]
