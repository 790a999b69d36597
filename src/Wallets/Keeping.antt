-- ===== src/Wallets/Keeping.antt =====
-- The rest of a wallet's life in src/wallet/wallet.service.ts: which one is the main one, its label,
-- its whitelisting, its deletion, and the lists of a customer's wallets.
use otsem_api.Common.{
  ℕ, String, Bool, true, false, not, ◌&&◌, Option, none, some, List, ◌++◌, map, ◌==◌, find, any,
  select, if◌then◌else◌,
}
use otsem_api.Database.Enums.{WalletNetwork, network_is}
use otsem_api.Database.Rows.{Wallet, Conversion, Database}
use otsem_api.Database.Tables.{by, update_where}
use otsem_api.Database.Paging.{order_desc}
use otsem_api.Database.Queries.{option_is}
use otsem_api.Database.Action.{
  Action, ok, bad_request, not_found, record_missing, foreign_key, pure, throw_if, gets, or_throw,
  modify, ◌>>=◌, ◌>>◌,
}
use otsem_api.Boleto.Payments.{wallet_by_id}
use otsem_api.Wallets.Management.{unset_mains, as_main}

-- `wallet.update({ where: { id }, data })`
unfoldable pub update_wallet : ℕ → (Wallet → Wallet) → Action Wallet
update_wallet id f = do
  w ← or_throw (← gets (wallet_by_id id)) record_missing
  modify λ db. record db { wallets = update_where (by (λ w. w.id) id) f db.wallets }
  pure (f w)

abbrev pub is_foreign : Option ℕ → Wallet → Bool
is_foreign none w = false
is_foreign (some customer_id) w = not (w.customer_id == customer_id)

unfoldable pub get_wallet_by_id : ℕ → Option ℕ → Action Wallet
get_wallet_by_id id customer_id = do
  w ← or_throw (← gets (wallet_by_id id)) (not_found "Wallet não encontrada")
  throw_if (is_foreign customer_id w) (bad_request "Wallet não pertence a este customer")
  pure w

unfoldable pub set_main_wallet : ℕ → ℕ → Action Wallet
set_main_wallet id customer_id = do
  w ← get_wallet_by_id id (some customer_id)
  modify (unset_mains customer_id w.network)
  update_wallet id as_main

abbrev pub labelled : String → Wallet → Wallet
labelled label w = record w { label = some label }

unfoldable pub update_wallet_label : ℕ → ℕ → String → Action Wallet
update_wallet_label id customer_id label = do
  get_wallet_by_id id (some customer_id)
  update_wallet id (labelled label)

-- `onDelete: SetNull` of a conversion's wallet.
abbrev pub without_wallet : ℕ → Conversion → Conversion
without_wallet id c = if option_is c.wallet_id id then record c { wallet_id = none } else c

-- `wallet.delete`: a boleto payment restricts it.
unfoldable pub delete_row : ℕ → Action (Unit {0})
delete_row id = do
  throw_if (any (λ b. b.wallet_id == id) (← gets (λ db. db.boleto_payments))) foreign_key
  modify λ db. record db {
    conversions = map (without_wallet id) db.conversions;
    wallets = select (λ w. not (w.id == id)) db.wallets;
  }

unfoldable pub delete_wallet : ℕ → ℕ → Action Wallet
delete_wallet id customer_id = do
  w ← get_wallet_by_id id (some customer_id)
  throw_if w.is_main (bad_request "Não é possível deletar a wallet principal")
  delete_row id
  pure w

abbrev pub whitelisted_as : Bool → Wallet → Wallet
whitelisted_as b w = record w { okx_whitelisted = b }

-- Found by id and customer in one query.
unfoldable pub set_okx_whitelisted : ℕ → ℕ → Bool → Action Wallet
set_okx_whitelisted id customer_id whitelisted = do
  found ← gets λ db. find (λ w. w.id == id && w.customer_id == customer_id) db.wallets
  or_throw found (not_found "Wallet não encontrada")
  update_wallet id (whitelisted_as whitelisted)

-- The `catch` only logs.
unfoldable pub mark_wallet_as_not_whitelisted : Option ℕ → Action (Unit {0})
mark_wallet_as_not_whitelisted none db = (ok tt, db)
mark_wallet_as_not_whitelisted (some id) db =
    let (r, db') = update_wallet id (whitelisted_as false) db in (ok tt, db')

abbrev pub is_on : Option WalletNetwork → Wallet → Bool
is_on none w = true
is_on (some network) w = network_is w.network network

-- The main wallets first, then the newest.
unfoldable pub get_wallets_by_customer : ℕ → Option WalletNetwork → Database → List Wallet
get_wallets_by_customer customer_id network db =
    let rows =
      order_desc (λ w. w.created_at)
        (select (λ w. w.customer_id == customer_id && is_on network w) db.wallets) in
    select (λ w. w.is_main) rows ++ select (λ w. not w.is_main) rows
