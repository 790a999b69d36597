-- ===== src/Wallets/Steps.antt =====
-- Sequences of calls of the wallet methods of Management and Keeping.
use otsem_api.Common.{
  ℕ, ◌≤◌, ◌≡◌, refl, String, Bool, true, false, inl, inr, Option, none, some, arith, Option-cases,
  Bool-cases, not, ◌==◌, if◌then◌else◌, All,
}
use otsem_api.Database.Enums.{WalletNetwork}
use otsem_api.Database.Rows.{Wallet, Database}
use otsem_api.Database.Tables.{find-update_where_any}
use otsem_api.Database.Action.{Result}
use otsem_api.Boleto.Payments.{wallet_by_id}
use otsem_api.Wallets.Management.{
  is_main_of, unset_mains, not_main, as_main, create_wallet, create_solana_wallet,
  create_tron_wallet, create_ethereum_wallet, create_bitcoin_wallet, AddressTests, import_wallet,
}
use otsem_api.Wallets.Keeping.{
  update_wallet, set_main_wallet, update_wallet_label, labelled, delete_wallet, whitelisted_as,
  set_okx_whitelisted, mark_wallet_as_not_whitelisted,
}
use otsem_api.Wallets.Mains.{count, count-select_le, count_deleted, select-HasDistinct}
use otsem_api.Wallets.Orderly.{
  IsOrderly, takes_currency, Keeps, written-IsOrderly, unset-IsOrderly, unset-count, All-select,
}
use otsem_api.Wallets.Effects.{
  update_wallet_found, set_main_wallet-cases, update_wallet_label-cases, delete_wallet-cases,
  set_okx_whitelisted-cases,
}
use otsem_api.Wallets.Generated.{
  create_wallet-IsOrderly, import_wallet-IsOrderly, create_solana_wallet-IsOrderly,
  create_tron_wallet-IsOrderly, create_ethereum_wallet-IsOrderly, create_bitcoin_wallet-IsOrderly,
}

update_unknown :
    (id : ℕ) (f : Wallet → Wallet) (db : Database)
    → wallet_by_id id db ≡ none
    → (update_wallet id f db).1 ≡ db
unfolding update_wallet
update_unknown id f db e = rw e refl

-- A write that keeps the keys and `is_main`.
update_wallet-IsOrderly :
    (id : ℕ) (f : Wallet → Wallet) (db : Database)
    → Keeps f
    → ((w : Wallet) → (f w).is_main ≡ w.is_main)
    → IsOrderly db
    → IsOrderly (update_wallet id f db).1
unfolding wallet_by_id
update_wallet-IsOrderly id f db keeps same h = elim (Option-cases (wallet_by_id id db)) [
  | inl e ↦ rw (update_unknown id f db e) h
  | inr (w, e) ↦
      rw (update_wallet_found id f db e)
        (written-IsOrderly id f keeps db.wallets w h e λ main. inl (rw (← same w) main))
]

-- The wallet as it stands once the main wallets of its network are reset.
abbrev pub reset_row : ℕ → Wallet → Wallet
reset_row c w = if is_main_of c w.network w then not_main w else w

pub found_reset :
    (id c : ℕ) (db : Database) (w : Wallet)
    → wallet_by_id id db ≡ some w
    → wallet_by_id id (unset_mains c w.network db) ≡ some (reset_row c w)
unfolding wallet_by_id unset_mains
found_reset id c db w e =
    rw
      (
        find-update_where_any (λ w. w.id) (is_main_of c w.network) not_main (λ w. refl) id
            db.wallets,
        e,
      )
      refl

pub reset_row_keys :
    (c : ℕ) (w : Wallet)
    → ((reset_row c w).id ≡ w.id)
      × ((reset_row c w).customer_id ≡ w.customer_id)
      × ((reset_row c w).network ≡ w.network)
reset_row_keys c w = elim (Bool-cases (is_main_of c w.network w)) [
  | inl main ↦ rw main (refl, refl, refl)
  | inr other ↦ rw other (refl, refl, refl)
]

pub set_main_wallet-IsOrderly :
    (id c : ℕ) (db : Database) → IsOrderly db → IsOrderly (set_main_wallet id c db).1
unfolding wallet_by_id
set_main_wallet-IsOrderly id c db h = elim (set_main_wallet-cases id c db) [
  | inl (e, is) ↦ rw is h
  | inr (w, found, own, is) ↦
      let d = unset_mains c w.network db in
      let (_, same_c, same_n) = reset_row_keys c w in
      rw (is, update_wallet_found id as_main d (found_reset id c db w found))
        (written-IsOrderly id as_main (λ w. (refl, refl, refl, refl)) d.wallets (reset_row c w)
          (unset-IsOrderly c w.network db h) (found_reset id c db w found)
          λ main. inr (rw (same_c, same_n, own) (unset-count c w.network db)))
]

delete_wallet-IsOrderly :
    (id c : ℕ) (db : Database) → IsOrderly db → IsOrderly (delete_wallet id c db).1
delete_wallet-IsOrderly id c db (distinct, single, supported) = elim (delete_wallet-cases id c db) [
  | inl (e, is) ↦ rw is (distinct, single, supported)
  | inr (w, found, own, other, is) ↦ rw is (
    select-HasDistinct (λ w. w.id) (λ w. not (w.id == id)) db.wallets distinct,
    λ d m.
        omega
          (arith, count-select_le (is_main_of d m) (λ w. not (w.id == id)) db.wallets, single d m),
    All-select (λ w. not (w.id == id)) db.wallets supported,
  )
]

-- One call.
pub data Step (tests : AddressTests) (db : Database) : Database → Type 0 where
  create :
      (id now c : ℕ) (n : WalletNetwork) (address : String) (currency label : Option String)
      (is_main : Bool)
      → Step tests db (create_wallet id now c n address currency label is_main db).1
  bring :
      (id now c : ℕ) (n : WalletNetwork) (address : String) (label currency : Option String)
      → Step tests db (import_wallet tests id now c n address label currency db).1
  solana :
      (id now c : ℕ) (address key : String) (label currency : Option String)
      → Step tests db (create_solana_wallet id now c address key label currency db).1
  tron :
      (id now c : ℕ) (generated : Result (String × String)) (label currency : Option String)
      → Step tests db (create_tron_wallet id now c generated label currency db).1
  ethereum :
      (id now c : ℕ) (address key : String) (label : Option String)
      → Step tests db (create_ethereum_wallet id now c address key label db).1
  bitcoin :
      (id now c : ℕ) (address : Option String) (key : String) (label : Option String)
      → Step tests db (create_bitcoin_wallet id now c address key label db).1
  choose : (id c : ℕ) → Step tests db (set_main_wallet id c db).1
  name : (id c : ℕ) (label : String) → Step tests db (update_wallet_label id c label db).1
  delete : (id c : ℕ) → Step tests db (delete_wallet id c db).1
  whitelist : (id c : ℕ) (b : Bool) → Step tests db (set_okx_whitelisted id c b db).1
  unlist : (id : Option ℕ) → Step tests db (mark_wallet_as_not_whitelisted id db).1

pub data Reach (tests : AddressTests) (db : Database) : Database → Type 0 where
  here : Reach tests db db
  next : {d e : Database} → Reach tests db d → Step tests d e → Reach tests db e

unlist-IsOrderly :
    (id : Option ℕ) (db : Database)
    → IsOrderly db
    → IsOrderly (mark_wallet_as_not_whitelisted id db).1
unfolding mark_wallet_as_not_whitelisted
unlist-IsOrderly none db h = h
unlist-IsOrderly (some id) db h =
    update_wallet-IsOrderly id (whitelisted_as false) db (λ w. (refl, refl, refl, refl)) (λ w. refl)
      h

module _ {tests : AddressTests} where
  Step-IsOrderly : {d e : Database} → IsOrderly d → Step tests d e → IsOrderly e
  Step-IsOrderly {d} h (create id now c n a cur l m) =
      create_wallet-IsOrderly id now c n a cur l m d h
  Step-IsOrderly {d} h (bring id now c n a l cur) =
      import_wallet-IsOrderly tests id now c n a l cur d h
  Step-IsOrderly {d} h (solana id now c a k l cur) =
      create_solana_wallet-IsOrderly id now c a k d l cur h
  Step-IsOrderly {d} h (tron id now c g l cur) = create_tron_wallet-IsOrderly id now c g l cur d h
  Step-IsOrderly {d} h (ethereum id now c a k l) =
      create_ethereum_wallet-IsOrderly id now c a k d l h
  Step-IsOrderly {d} h (bitcoin id now c a k l) = create_bitcoin_wallet-IsOrderly id now c a k l d h
  Step-IsOrderly {d} h (choose id c) = set_main_wallet-IsOrderly id c d h
  Step-IsOrderly {d} h (name id c l) = elim (update_wallet_label-cases id c l d) [
    | inl is ↦ rw is h
    | inr (w, e, is) ↦
        rw is
          (update_wallet-IsOrderly id (labelled l) d (λ w. (refl, refl, refl, refl)) (λ w. refl) h)
  ]
  Step-IsOrderly {d} h (delete id c) = delete_wallet-IsOrderly id c d h
  Step-IsOrderly {d} h (whitelist id c b) = elim (set_okx_whitelisted-cases id c b d) [
    | inl is ↦ rw is h
    | inr is ↦ rw is (
        update_wallet-IsOrderly id (whitelisted_as b) d (λ w. (refl, refl, refl, refl)) (λ w. refl)
          h)
  ]
  Step-IsOrderly {d} h (unlist id) = unlist-IsOrderly id d h

  Reach-IsOrderly : {s d : Database} → IsOrderly s → Reach tests s d → IsOrderly d
  Reach-IsOrderly h here = h
  Reach-IsOrderly h (next r st) = Step-IsOrderly (Reach-IsOrderly h r) st

  -- After any sequence of calls that create, import, generate, choose, name, delete or whitelist
  -- wallets, a customer has at most one main wallet on a network and every wallet's currency is one
  -- that its network takes, from a database where this holds and wallet ids are unique.
  pub Reach-single :
      {s d : Database} (c : ℕ) (n : WalletNetwork)
      → IsOrderly s
      → Reach tests s d
      → (count (is_main_of c n) d.wallets ≤ 1) × All (λ w. takes_currency w ≡ true) d.wallets
  Reach-single c n h r = let (_, single, supported) = Reach-IsOrderly h r in (single c n, supported)

-- A deletion, whether it goes through or throws, takes no main wallet: the number of main wallets of
-- every customer on every network stays, where wallet ids are unique, no customer has two main
-- wallets on a network and every currency is one that its network takes.
pub delete_wallet-mains :
    (id customer_id : ℕ) (db : Database) (c : ℕ) (n : WalletNetwork)
    → IsOrderly db
    → count (is_main_of c n) (delete_wallet id customer_id db).1.wallets
      ≡ count (is_main_of c n) db.wallets
unfolding wallet_by_id is_main_of
delete_wallet-mains id customer_id db c n (distinct, _, _) =
    elim (delete_wallet-cases id customer_id db) [
      | inl (e, is) ↦ rw is refl
      | inr (w, found, own, other, is) ↦
          let left = count_deleted (λ w. w.id) (is_main_of c n) id db.wallets found distinct in
          rw is (grind (arith, left, other))
    ]
