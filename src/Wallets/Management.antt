-- ===== src/Wallets/Management.antt =====
-- Creating, importing, naming and deleting wallets, and the main wallet of a network:
-- src/wallet/wallet.service.ts. Generated keys, the encryption of a key, the tests of an address by
-- the chains' libraries, and the ids and times of rows are arguments.
use otsem_api.Common.{
  ℕ, pos, String, Bool, true, false, not, ◌&&◌, ◌||◌, Option, none, some, [], ◌∷◌, ◌==◌, find, any,
  is_some, str_eq, text_is, or_text, template, if◌then◌else◌,
}
use otsem_api.Database.Enums.{WalletNetwork, network_is}
use otsem_api.Database.Rows.{Wallet, Database}
use otsem_api.Database.Tables.{update_where}
use otsem_api.Database.Queries.{customer_by_id, text_clash}
use otsem_api.Database.Action.{
  Action, Result, Error, ok, err, bad_request, unique_violation, foreign_key, pure, throw_if, gets,
  or_throw, modify, ◌>>=◌, ◌>>◌,
}
use otsem_api.Wallets.Currencies.{normalize_currency, assert_supported_currency, network_name}

abbrev pub belongs_to : ℕ → WalletNetwork → Wallet → Bool
belongs_to customer_id network w = w.customer_id == customer_id && network_is w.network network

-- `{ customerId, network, isMain: true }`
unfoldable pub is_main_of : ℕ → WalletNetwork → Wallet → Bool
is_main_of customer_id network w = belongs_to customer_id network w && w.is_main

-- `{ customerId, network, externalAddress, currency }`
unfoldable pub is_same_wallet : ℕ → WalletNetwork → String → String → Wallet → Bool
is_same_wallet customer_id network address currency w =
    belongs_to customer_id network w
    && text_is w.external_address address
    && str_eq w.currency currency

abbrev pub not_main : Wallet → Wallet
not_main w = record w { is_main = false }

abbrev pub as_main : Wallet → Wallet
as_main w = record w { is_main = true }

-- `wallet.updateMany({ where: { customerId, network, isMain: true }, data: { isMain: false } })`
unfoldable pub unset_mains : ℕ → WalletNetwork → Database → Database
unset_mains customer_id network db = record db {
  wallets = update_where (is_main_of customer_id network) not_main db.wallets;
}

-- The primary key and `@@unique([customerId, network, externalAddress])`.
unfoldable pub wallet_clash : Wallet → Wallet → Bool
wallet_clash w v =
    v.id == w.id
    || (belongs_to w.customer_id w.network v && text_clash v.external_address w.external_address)

-- `wallet.create`
unfoldable pub insert_wallet : Wallet → Action Wallet
insert_wallet w = do
  throw_if (any (wallet_clash w) (← gets (λ db. db.wallets))) unique_violation
  or_throw (← gets (customer_by_id w.customer_id)) foreign_key
  modify λ db. record db { wallets = w ∷ db.wallets }
  pure w

abbrev pub wallet_row :
    (id now : ℕ) (customer_id : ℕ) (network : WalletNetwork) (address : String)
    (key : Option String) (currency : String) (label : Option String) (is_main : Bool)
    → Wallet
wallet_row id now customer_id network address key currency label is_main = record {
  id = id;
  customer_id = customer_id;
  currency = currency;
  network = network;
  balance = pos 0;
  external_address = some address;
  encrypted_private_key = key;
  label = label;
  is_main = is_main;
  is_active = true;
  okx_whitelisted = false;
  created_at = now;
}

abbrev pub taken : Error
taken = bad_request "Wallet com este endereço já existe nesta rede"

-- The `catch` around `wallet.create`.
abbrev pub create_error : Error → Error
create_error unique_violation = taken
create_error foreign_key = bad_request "Cliente não encontrado"
create_error _ = bad_request "Erro ao criar wallet. Verifique os dados e tente novamente."

abbrev pub rethrow : {A : Type 0} → (Error → Error) → Action A → Action A
rethrow f m db = let (r, db') = m db in elim r [ ok a ↦ (ok a, db') | err e ↦ (err (f e), db') ]

unfoldable pub create_wallet :
    (id now : ℕ) (customer_id : ℕ) (network : WalletNetwork) (address : String)
    (currency label : Option String) (is_main : Bool)
    → Action Wallet
unfolding is_same_wallet
create_wallet id now customer_id network address currency label is_main = do
  assert_supported_currency network (normalize_currency currency network)
  existing ← gets λ db.
      find (is_same_wallet customer_id network address (normalize_currency currency network))
        db.wallets
  throw_if (is_some existing) taken
  modify λ db. if is_main then unset_mains customer_id network db else db
  rethrow create_error (
      insert_wallet (
        wallet_row id now customer_id network address none (normalize_currency currency network)
          label is_main))

unfoldable pub get_main_wallet : ℕ → WalletNetwork → Database → Option Wallet
get_main_wallet customer_id network db = find (is_main_of customer_id network) db.wallets

-- What the four methods that generate a key share: the first wallet of a network is its main one.
unfoldable pub keep_generated :
    (id now : ℕ) (customer_id : ℕ) (network : WalletNetwork) (address key : String)
    (currency : String) (label : String) (resets : Bool)
    → Action Wallet
unfolding is_same_wallet
keep_generated id now customer_id network address key currency label resets = do
  existing_main ← gets (get_main_wallet customer_id network)
  existing ← gets λ db. find (is_same_wallet customer_id network address currency) db.wallets
  throw_if (is_some existing) taken
  modify
      λ db. if resets && not (is_some existing_main) then unset_mains customer_id network db else db
  insert_wallet (
      wallet_row id now customer_id network address (some key) currency (some label)
        (not (is_some existing_main)))

-- `key` is the encrypted secret key.
unfoldable pub create_solana_wallet :
    (id now : ℕ) (customer_id : ℕ) (address key : String) (label currency : Option String)
    → Action Wallet
create_solana_wallet id now customer_id address key label currency = do
  assert_supported_currency WalletNetwork.solana (normalize_currency currency WalletNetwork.solana)
  keep_generated id now customer_id WalletNetwork.solana address key
      (normalize_currency currency WalletNetwork.solana)
      (or_text label
        (template ("Solana " ∷ normalize_currency currency WalletNetwork.solana ∷ " Wallet" ∷ [])))
      true

unfoldable pub create_tron_wallet :
    (id now : ℕ) (customer_id : ℕ) (generated : Result (String × String))
    (label currency : Option String)
    → Action Wallet
create_tron_wallet id now customer_id generated label currency = do
  assert_supported_currency WalletNetwork.tron (normalize_currency currency WalletNetwork.tron)
  pair ← λ db. (generated, db)
  keep_generated id now customer_id WalletNetwork.tron pair.0 pair.1
      (normalize_currency currency WalletNetwork.tron)
      (or_text label
        (template ("Tron " ∷ normalize_currency currency WalletNetwork.tron ∷ " Wallet" ∷ [])))
      true

unfoldable pub create_ethereum_wallet :
    (id now : ℕ) (customer_id : ℕ) (address key : String) (label : Option String) → Action Wallet
create_ethereum_wallet id now customer_id address key label = do
  assert_supported_currency WalletNetwork.ethereum
      (normalize_currency (some "ETH") WalletNetwork.ethereum)
  keep_generated id now customer_id WalletNetwork.ethereum address key
      (normalize_currency (some "ETH") WalletNetwork.ethereum) (or_text label "Ethereum Wallet")
      false

unfoldable pub create_bitcoin_wallet :
    (id now : ℕ) (customer_id : ℕ) (address : Option String) (key : String) (label : Option String)
    → Action Wallet
create_bitcoin_wallet id now customer_id address key label = do
  assert_supported_currency WalletNetwork.bitcoin
      (normalize_currency (some "BTC") WalletNetwork.bitcoin)
  given ← or_throw address (bad_request "Falha ao gerar endereço Bitcoin")
  keep_generated id now customer_id WalletNetwork.bitcoin given key
      (normalize_currency (some "BTC") WalletNetwork.bitcoin) (or_text label "Bitcoin Wallet") false

-- The tests of an address: two services, `ethers.isAddress`, and whether bitcoinjs-lib makes an
-- output script of it.
pub record AddressTests : Type 0 where
  pub tron : String → Result Bool
  pub solana : String → Result Bool
  pub ethereum : String → Bool
  pub bitcoin : String → Bool

-- The `try` around the tests: a BadRequestException passes, any other exception is replaced.
abbrev pub tested : WalletNetwork → String → Result Bool → Result (Unit {0})
tested network message (ok true) = ok tt
tested network message (ok false) = err (bad_request message)
tested network message (err (bad_request m)) = err (bad_request m)
tested network message (err _) = err (
    bad_request
      (template ("Não foi possível validar o endereço para a rede " ∷ network_name network ∷ [])))

unfoldable pub validate_address : AddressTests → WalletNetwork → String → Result (Unit {0})
validate_address tests WalletNetwork.tron address =
    tested WalletNetwork.tron "Endereço Tron inválido" (tests.tron address)
validate_address tests WalletNetwork.solana address =
    tested WalletNetwork.solana "Endereço Solana inválido" (tests.solana address)
validate_address tests WalletNetwork.ethereum address =
    tested WalletNetwork.ethereum "Endereço Ethereum inválido" (ok (tests.ethereum address))
validate_address tests WalletNetwork.bitcoin address =
    tested WalletNetwork.bitcoin "Endereço Bitcoin inválido" (ok (tests.bitcoin address))
validate_address tests _ address = ok tt

unfoldable pub import_wallet :
    AddressTests
    → (id now : ℕ) (customer_id : ℕ) (network : WalletNetwork) (address : String)
      (label currency : Option String)
    → Action Wallet
import_wallet tests id now customer_id network address label currency = do
  assert_supported_currency network (normalize_currency currency network)
  λ db. (validate_address tests network address, db)
  existing_main ← gets (get_main_wallet customer_id network)
  create_wallet id now customer_id network address (some (normalize_currency currency network))
      (some (
        or_text label (
          template
            (network_name network ∷ " " ∷ normalize_currency currency network ∷ " Wallet" ∷ []))))
      (not (is_some existing_main))
