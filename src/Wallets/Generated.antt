-- ===== src/Wallets/Generated.antt =====
-- The methods that create a wallet keep the wallets orderly: `createWallet`, `importWallet` and the
-- four that generate a key.
use otsem_api.Common.{
  ℕ, ◌≡◌, sym, subst, String, Bool, true, false, not, ◌&&◌, ◌⊎◌, inl, inr, Option, none, some, [],
  ◌∷◌, arith, is_some, Bool-cases, Option-cases, or_text, template,
}
use otsem_api.Database.Enums.{WalletNetwork}
use otsem_api.Database.Rows.{Wallet, Database}
use otsem_api.Database.Action.{Result, Result-cases}
use otsem_api.Wallets.Currencies.{normalize_currency, is_supported, assert_supported_currency}
use otsem_api.Wallets.Management.{
  is_main_of, wallet_row, create_wallet, get_main_wallet, keep_generated, create_solana_wallet,
  create_tron_wallet, create_ethereum_wallet, create_bitcoin_wallet, AddressTests, import_wallet,
}
use otsem_api.Wallets.Mains.{count, count_of_none}
use otsem_api.Wallets.Orderly.{IsOrderly, unset-count, unset-IsOrderly, added-IsOrderly}
use otsem_api.Wallets.Effects.{
  prepared, Adds, create_wallet-cases, keep_generated-cases, import_wallet-cases,
}

prepared-IsOrderly :
    (b : Bool) (c : ℕ) (n : WalletNetwork) (db : Database)
    → IsOrderly db
    → IsOrderly (prepared b c n db)
prepared-IsOrderly true c n db h = unset-IsOrderly c n db h
prepared-IsOrderly false c n db h = h

prepared-count :
    (b : Bool) (c : ℕ) (n : WalletNetwork) (db : Database)
    → (b ≡ true) ⊎ (count (is_main_of c n) db.wallets ≡ 0)
    → count (is_main_of c n) (prepared b c n db).wallets ≡ 0
prepared-count true c n db h = unset-count c n db
prepared-count false c n db (inl h) = absurd (cc)
prepared-count false c n db (inr h) = h

-- What a creation may do, from a database where a new main wallet is the only one.
Adds-IsOrderly :
    (w : Wallet) (b : Bool) (db db' : Database)
    → IsOrderly db
    → (w.is_main ≡ true → (b ≡ true) ⊎ (count (is_main_of w.customer_id w.network) db.wallets ≡ 0))
    → (db' ≡ db)
      ⊎ (db' ≡ prepared b w.customer_id w.network db)
      ⊎ Adds w (prepared b w.customer_id w.network db) db'
    → IsOrderly db'
Adds-IsOrderly w b db db' h only (inl same) = subst IsOrderly (sym same) h
Adds-IsOrderly w b db db' h only (inr (inl reset)) =
    subst IsOrderly (sym reset) (prepared-IsOrderly b w.customer_id w.network db h)
Adds-IsOrderly w b db db' h only (inr (inr (new, takes, is))) = subst IsOrderly (sym is) (
    added-IsOrderly w (prepared b w.customer_id w.network db)
      (prepared-IsOrderly b w.customer_id w.network db h) new takes
      λ main. prepared-count b w.customer_id w.network db (only main))

pub create_wallet-IsOrderly :
    (id now c : ℕ) (n : WalletNetwork) (address : String) (currency label : Option String)
    (is_main : Bool) (db : Database)
    → IsOrderly db
    → IsOrderly (create_wallet id now c n address currency label is_main db).1
create_wallet-IsOrderly id now c n address currency label is_main db h =
    Adds-IsOrderly
      (wallet_row id now c n address none (normalize_currency currency n) label is_main) is_main db
      (create_wallet id now c n address currency label is_main db).1 h (λ main. inl main)
      (create_wallet-cases id now c n address currency label is_main db)

pub import_wallet-IsOrderly :
    (tests : AddressTests) (id now c : ℕ) (n : WalletNetwork) (address : String)
    (label currency : Option String) (db : Database)
    → IsOrderly db
    → IsOrderly (import_wallet tests id now c n address label currency db).1
import_wallet-IsOrderly tests id now c n address label currency db h =
    elim (import_wallet-cases tests id now c n address label currency db) [
      | inl (e, is) ↦ rw is h
      | inr (text, valid, is) ↦ rw is (
          create_wallet-IsOrderly id now c n address (some (normalize_currency currency n))
            (some text) (not (is_some (get_main_wallet c n db))) db h)
    ]

-- The first wallet of a network is its main one.
first_main :
    (c : ℕ) (n : WalletNetwork) (db : Database)
    → not (is_some (get_main_wallet c n db)) ≡ true
    → count (is_main_of c n) db.wallets ≡ 0
unfolding get_main_wallet
first_main c n db h = elim (Option-cases (get_main_wallet c n db)) [
  | inl e ↦ count_of_none (is_main_of c n) db.wallets e
  | inr (w, e) ↦ absurd (grind (arith, h, e))
]

keep_generated-IsOrderly :
    (id now c : ℕ) (n : WalletNetwork) (address key currency label : String) (resets : Bool)
    (db : Database)
    → is_supported n currency ≡ true
    → IsOrderly db
    → IsOrderly (keep_generated id now c n address key currency label resets db).1
keep_generated-IsOrderly id now c n address key currency label resets db takes h =
    Adds-IsOrderly
      (wallet_row id now c n address (some key) currency (some label)
        (not (is_some (get_main_wallet c n db))))
      (resets && not (is_some (get_main_wallet c n db))) db
      (keep_generated id now c n address key currency label resets db).1 h
      (λ main. inr (first_main c n db main))
      (keep_generated-cases id now c n address key currency label resets db takes)

-- The call writes nothing, or keeps a generated wallet of a currency that its network takes.
module _ (id now c : ℕ) (address key : String) (db : Database) where
  pub create_solana_wallet-IsOrderly :
      (label currency : Option String)
      → IsOrderly db
      → IsOrderly (create_solana_wallet id now c address key label currency db).1
  unfolding create_solana_wallet assert_supported_currency
  create_solana_wallet-IsOrderly label currency h =
      let text = normalize_currency currency WalletNetwork.solana in
      elim (Bool-cases (is_supported WalletNetwork.solana text)) [
        | inl s ↦ rw s (
            keep_generated-IsOrderly id now c WalletNetwork.solana address key text
              (or_text label (template ("Solana " ∷ text ∷ " Wallet" ∷ []))) true db s h)
        | inr s ↦ rw s h
      ]

  pub create_ethereum_wallet-IsOrderly :
      (label : Option String)
      → IsOrderly db
      → IsOrderly (create_ethereum_wallet id now c address key label db).1
  unfolding create_ethereum_wallet assert_supported_currency
  create_ethereum_wallet-IsOrderly label h =
      let text = normalize_currency (some "ETH") WalletNetwork.ethereum in
      elim (Bool-cases (is_supported WalletNetwork.ethereum text)) [
        | inl s ↦ rw s (
            keep_generated-IsOrderly id now c WalletNetwork.ethereum address key text
              (or_text label "Ethereum Wallet") false db s h)
        | inr s ↦ rw s h
      ]

pub create_tron_wallet-IsOrderly :
    (id now c : ℕ) (generated : Result (String × String)) (label currency : Option String)
    (db : Database)
    → IsOrderly db
    → IsOrderly (create_tron_wallet id now c generated label currency db).1
unfolding create_tron_wallet assert_supported_currency
create_tron_wallet-IsOrderly id now c generated label currency db h =
    let text = normalize_currency currency WalletNetwork.tron in
    elim (Bool-cases (is_supported WalletNetwork.tron text)) [
      | inl s ↦ elim (Result-cases generated) [
        | inl (e, r) ↦ rw (s, r) h
        | inr (pair, r) ↦
            rw (s, r)
              (keep_generated-IsOrderly id now c WalletNetwork.tron pair.0 pair.1 text
                (or_text label (template ("Tron " ∷ text ∷ " Wallet" ∷ []))) true db s h)
      ]
      | inr s ↦ rw s h
    ]

pub create_bitcoin_wallet-IsOrderly :
    (id now c : ℕ) (address : Option String) (key : String) (label : Option String) (db : Database)
    → IsOrderly db
    → IsOrderly (create_bitcoin_wallet id now c address key label db).1
unfolding create_bitcoin_wallet assert_supported_currency
create_bitcoin_wallet-IsOrderly id now c address key label db h =
    let text = normalize_currency (some "BTC") WalletNetwork.bitcoin in
    elim (Bool-cases (is_supported WalletNetwork.bitcoin text)) [
      | inl s ↦ elim (Option-cases address) [
        | inl e ↦ rw (s, e) h
        | inr (given, e) ↦
            rw (s, e)
              (keep_generated-IsOrderly id now c WalletNetwork.bitcoin given key text
                (or_text label "Bitcoin Wallet") false db s h)
      ]
      | inr s ↦ rw s h
    ]
