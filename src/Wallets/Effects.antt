-- ===== src/Wallets/Effects.antt =====
-- What each method of Management and Keeping does to the database, outcome by outcome.
use otsem_api.Common.{
  ℕ, ◌≡◌, refl, String, Bool, true, false, not, ◌&&◌, ◌⊎◌, inl, inr, Option, none, some, [], ◌∷◌,
  or_text, template, arith, any, select, map, is_some, if◌then◌else◌, Option-cases, Bool-cases,
  ◌==◌, ==_sound,
}
use otsem_api.Database.Enums.{WalletNetwork}
use otsem_api.Database.Rows.{Wallet, Database}
use otsem_api.Database.Tables.{by, update_where}
use otsem_api.Database.Action.{Error, ok, err, not_found, bad_request, foreign_key, Result-cases}
use otsem_api.Boleto.Payments.{wallet_by_id}
use otsem_api.Wallets.Currencies.{
  normalize_currency, is_supported, assert_supported_currency, network_name, unsupported,
}
use otsem_api.Wallets.Management.{
  unset_mains, wallet_clash, wallet_row, create_wallet, get_main_wallet, keep_generated,
  AddressTests, import_wallet, insert_wallet, validate_address, as_main,
}
use otsem_api.Wallets.Keeping.{
  update_wallet, get_wallet_by_id, set_main_wallet, update_wallet_label, labelled, delete_wallet,
  delete_row, without_wallet, whitelisted_as, set_okx_whitelisted,
}
use otsem_api.Wallets.Orderly.{with_wallet}

-- The main wallet is reset where it will be replaced.
abbrev pub prepared : Bool → ℕ → WalletNetwork → Database → Database
prepared b c n db = if b then unset_mains c n db else db

-- A row of a currency that its network takes is added, and clashes with none.
abbrev pub Adds : Wallet → Database → Database → Type 0
Adds w db db' =
    (any (wallet_clash w) db.wallets ≡ false)
    × (is_supported w.network w.currency ≡ true)
    × (db' ≡ with_wallet w db)

pub create_wallet-cases :
    (id now c : ℕ) (n : WalletNetwork) (address : String) (currency label : Option String)
    (is_main : Bool) (db : Database)
    → ((create_wallet id now c n address currency label is_main db).1 ≡ db)
      ⊎ ((create_wallet id now c n address currency label is_main db).1 ≡ prepared is_main c n db)
      ⊎ Adds
          (wallet_row id now c n address none (normalize_currency currency n) label is_main)
          (prepared is_main c n db)
          (create_wallet id now c n address currency label is_main db).1
unfolding create_wallet assert_supported_currency insert_wallet
create_wallet-cases id now c n address currency label is_main db = ground arith

module _ (id now c : ℕ) (n : WalletNetwork) (address key currency label : String) (resets : Bool)
    (db : Database) where
  pub keep_generated-cases :
      is_supported n currency ≡ true
      → ((keep_generated id now c n address key currency label resets db).1 ≡ db)
        ⊎ ((keep_generated id now c n address key currency label resets db).1
            ≡ prepared (resets && not (is_some (get_main_wallet c n db))) c n db)
        ⊎ Adds
            (wallet_row id now c n address
              (some key)
              currency
              (some label)
              (not (is_some (get_main_wallet c n db))))
            (prepared (resets && not (is_some (get_main_wallet c n db))) c n db)
            (keep_generated id now c n address key currency label resets db).1
  unfolding keep_generated insert_wallet
  keep_generated-cases h = ground arith

-- An import writes nothing, or is a creation once its address has passed.
pub import_wallet-cases :
    (tests : AddressTests) (id now c : ℕ) (n : WalletNetwork) (address : String)
    (label currency : Option String) (db : Database)
    → ((e : Error) × (import_wallet tests id now c n address label currency db ≡ (err e, db)))
      ⊎ ((text : String) × (validate_address tests n address ≡ ok tt)
          × (import_wallet tests id now c n address label currency db
              ≡ create_wallet id now c n address
                  (some (normalize_currency currency n))
                  (some text)
                  (not (is_some (get_main_wallet c n db)))
                  db))
unfolding import_wallet assert_supported_currency
import_wallet-cases tests id now c n address label currency db =
    elim (Bool-cases (is_supported n (normalize_currency currency n))) [
      | inl s ↦ elim (Result-cases (validate_address tests n address)) [
        | inl (e, h) ↦ inl (e, rw (s, h) refl)
        | inr (u, h) ↦ inr (
          or_text label
              (template (network_name n ∷ " " ∷ normalize_currency currency n ∷ " Wallet" ∷ [])),
          h,
          rw (s, h) refl,
        )
      ]
      | inr s ↦ inl (unsupported n, rw s refl)
    ]

-- A lookup throws, or finds a wallet of that customer.
get_wallet_by_id-cases :
    (id c : ℕ) (db : Database)
    → ((e : Error) × (get_wallet_by_id id (some c) db ≡ (err e, db)))
      ⊎ ((w : Wallet) × (wallet_by_id id db ≡ some w)
          × (w.customer_id ≡ c)
          × (get_wallet_by_id id (some c) db ≡ (ok w, db)))
unfolding get_wallet_by_id
get_wallet_by_id-cases id c db = elim (Option-cases (wallet_by_id id db)) [
  | inl e ↦ inl (not_found "Wallet não encontrada", rw e refl)
  | inr (w, e) ↦ elim (Bool-cases (w.customer_id == c)) [
    | inl same ↦ inr (w, e, ==_sound w.customer_id c same, rw (e, same) refl)
    | inr other ↦ inl (bad_request "Wallet não pertence a este customer", rw (e, other) refl)
  ]
]

pub update_wallet_found :
    (id : ℕ) (f : Wallet → Wallet) (db : Database) {w : Wallet}
    → wallet_by_id id db ≡ some w
    → update_wallet id f db
      ≡ (ok (f w), record db { wallets = update_where (by (λ w. w.id) id) f db.wallets })
unfolding update_wallet
update_wallet_found id f db e = rw e refl

pub set_main_wallet-cases :
    (id c : ℕ) (db : Database)
    → ((e : Error) × (set_main_wallet id c db ≡ (err e, db)))
      ⊎ ((w : Wallet) × (wallet_by_id id db ≡ some w)
          × (w.customer_id ≡ c)
          × (set_main_wallet id c db ≡ update_wallet id as_main (unset_mains c w.network db)))
unfolding set_main_wallet
set_main_wallet-cases id c db = elim (get_wallet_by_id-cases id c db) [
  | inl (e, h) ↦ inl (e, ground (arith, h))
  | inr (w, e, own, h) ↦ inr (w, e, own, ground (arith, h))
]

pub update_wallet_label-cases :
    (id c : ℕ) (label : String) (db : Database)
    → ((update_wallet_label id c label db).1 ≡ db)
      ⊎ ((w : Wallet) × (wallet_by_id id db ≡ some w)
          × (update_wallet_label id c label db ≡ update_wallet id (labelled label) db))
unfolding update_wallet_label
update_wallet_label-cases id c label db = elim (get_wallet_by_id-cases id c db) [
  | inl (e, h) ↦ inl (ground (arith, h))
  | inr (w, e, own, h) ↦ inr (w, e, ground (arith, h))
]

pub delete_wallet-cases :
    (id c : ℕ) (db : Database)
    → ((e : Error) × (delete_wallet id c db ≡ (err e, db)))
      ⊎ ((w : Wallet) × (wallet_by_id id db ≡ some w)
          × (w.customer_id ≡ c)
          × (w.is_main ≡ false)
          × (delete_wallet id c db ≡ (
            ok w,
            record db {
              conversions = map (without_wallet id) db.conversions;
              wallets = select (λ w. not (w.id == id)) db.wallets;
            },
          )))
unfolding delete_wallet delete_row
delete_wallet-cases id c db = elim (get_wallet_by_id-cases id c db) [
  | inl (e, h) ↦ inl (e, ground (arith, h))
  | inr (w, e, own, h) ↦ elim (Bool-cases w.is_main) [
    | inl main ↦
        inl (bad_request "Não é possível deletar a wallet principal", ground (arith, h, main))
    | inr other ↦ elim (Bool-cases (any (λ b. b.wallet_id == id) db.boleto_payments)) [
      | inl used ↦ inl (foreign_key, ground (arith, h, other, used))
      | inr free ↦ inr (w, e, own, other, ground (arith, h, other, free))
    ]
  ]
]

pub set_okx_whitelisted-cases :
    (id c : ℕ) (b : Bool) (db : Database)
    → ((set_okx_whitelisted id c b db).1 ≡ db)
      ⊎ ((set_okx_whitelisted id c b db).1 ≡ (update_wallet id (whitelisted_as b) db).1)
unfolding set_okx_whitelisted
set_okx_whitelisted-cases id c b db = ground arith
