-- ===== src/Wallets/Tests.antt =====
-- The wallet methods at concrete databases, and their theorems there.
use otsem_api.Common.{
  ℕ, ◌≤◌, ◌≡◌, refl, true, false, ◌&&◌, ◌==◌, none, some, [], ◌∷◌, arith, find, any, select, All,
  text_is,
}
use otsem_api.Samples.{bank, wallet}
use otsem_api.Database.Enums.{WalletNetwork, network_is}
use otsem_api.Database.Rows.{Wallet, Database}
use otsem_api.Database.Tables.{update_where}
use otsem_api.Database.Queries.{customer_by_id}
use otsem_api.Database.Action.{Result, Error, ok, err}
use otsem_api.Boleto.Payments.{wallet_by_id}
use otsem_api.Wallets.Currencies.{
  to_upper, normalize_currency, is_supported, assert_supported_currency, unsupported,
}
use otsem_api.Wallets.Management.{
  AddressTests, is_main_of, is_same_wallet, belongs_to, unset_mains, wallet_clash, insert_wallet,
  create_wallet, get_main_wallet, validate_address, import_wallet, taken,
}
use otsem_api.Wallets.Keeping.{
  get_wallet_by_id, update_wallet, set_main_wallet, delete_row, delete_wallet,
}
use otsem_api.Wallets.Mains.{count}
use otsem_api.Wallets.Orderly.{IsOrderly, takes_currency}
use otsem_api.Wallets.Steps.{Step, Reach, Reach-single, delete_wallet-mains}
use otsem_api.Wallets.Choosing.{set_main_wallet-get_main_wallet, create_wallet-get_main_wallet}
use otsem_api.Wallets.Importing.{import_wallet_throws, import_wallet-delete_wallet}

wallets : Unit {0}
unfolding to_upper normalize_currency is_supported assert_supported_currency is_main_of
    is_same_wallet unset_mains wallet_clash insert_wallet create_wallet get_main_wallet
    validate_address import_wallet get_wallet_by_id update_wallet set_main_wallet delete_row
    delete_wallet count wallet_by_id customer_by_id network_is find any select update_where
wallets = tt

-- Every Tron address passes.
abbrev tests : AddressTests
tests = record {
  tron = λ _. ok true;
  solana = λ _. ok false;
  ethereum = λ _. false;
  bitcoin = λ _. false;
}

abbrev main_tron : Wallet
main_tron = record (wallet 5 10 WalletNetwork.tron "USDT") {
  external_address = some "T1";
  is_main = true;
}

abbrev second_tron : Wallet
second_tron = record (wallet 6 10 WalletNetwork.tron "USDT") { external_address = some "T2" }

abbrev purse : Database
purse = record bank { wallets = main_tron ∷ second_tron ∷ [] }

abbrev after_choice : Result Wallet × Database
after_choice = set_main_wallet 6 10 purse

purse-IsOrderly : IsOrderly purse
unfolding wallets
purse-IsOrderly = ((refl, (refl, tt)), (λ c n. ground arith), (refl, (refl, tt)))

Reach-single_example :
    (count (is_main_of 10 WalletNetwork.tron) after_choice.1.wallets ≤ 1)
    × All (λ w. takes_currency w ≡ true) after_choice.1.wallets
Reach-single_example =
    Reach-single {tests = tests} 10 WalletNetwork.tron purse-IsOrderly
      (Reach.next Reach.here (Step.choose 6 10))

delete_wallet-mains_example :
    count (is_main_of 10 WalletNetwork.tron) (delete_wallet 6 10 purse).1.wallets
    ≡ count (is_main_of 10 WalletNetwork.tron) purse.wallets
delete_wallet-mains_example = delete_wallet-mains 6 10 purse 10 WalletNetwork.tron purse-IsOrderly

abbrev chosen_wallet : Wallet
chosen_wallet = record second_tron { is_main = true }

abbrev chosen_purse : Database
chosen_purse = record bank { wallets = record main_tron { is_main = false } ∷ chosen_wallet ∷ [] }

choice : set_main_wallet 6 10 purse ≡ (ok chosen_wallet, chosen_purse)
unfolding wallets
choice = refl

set_main_wallet-get_main_wallet_example :
    (chosen_wallet.id ≡ 6)
    × (chosen_wallet.customer_id ≡ 10)
    × (get_main_wallet 10 WalletNetwork.tron chosen_purse ≡ some chosen_wallet)
    × ((e : ℕ) (m : WalletNetwork)
        → (10 == e && network_is WalletNetwork.tron m) ≡ false
        → get_main_wallet e m chosen_purse ≡ get_main_wallet e m purse)
set_main_wallet-get_main_wallet_example =
    set_main_wallet-get_main_wallet 6 10 purse chosen_wallet chosen_purse purse-IsOrderly choice

-- The address T1 again, for TRX.
taken_elsewhere :
    (is_supported WalletNetwork.tron (normalize_currency (some "trx") WalletNetwork.tron) ≡ true)
    × (find
          (is_same_wallet 10 WalletNetwork.tron "T1"
            (normalize_currency (some "trx") WalletNetwork.tron))
          purse.wallets
        ≡ none)
    × (find
          (λ w. belongs_to 10 WalletNetwork.tron w && text_is w.external_address "T1")
          purse.wallets
        ≡ some main_tron)
unfolding wallets
taken_elsewhere = (refl, refl, refl)

create_wallet-get_main_wallet_example :
    ((create_wallet 7 0 10 WalletNetwork.tron "T1" (some "trx") none true purse).0 ≡ err taken)
    × (get_main_wallet 10 WalletNetwork.tron
          (create_wallet 7 0 10 WalletNetwork.tron "T1" (some "trx") none true purse).1
        ≡ none)
create_wallet-get_main_wallet_example =
    create_wallet-get_main_wallet 7 0 10 WalletNetwork.tron "T1" (some "trx") none purse main_tron
      taken_elsewhere.0 taken_elsewhere.1 taken_elsewhere.2

import_wallet_throws_example :
    ((e : Error) (d : Database)
      → import_wallet tests 7 0 10 WalletNetwork.base "B" none none purse ≡ (err e, d)
      → d ≡ purse)
    × ((is_supported WalletNetwork.base (normalize_currency none WalletNetwork.base) ≡ false)
        → import_wallet tests 7 0 10 WalletNetwork.base "B" none none purse
          ≡ (err (unsupported WalletNetwork.base), purse))
    × ((x : Error)
        → is_supported WalletNetwork.base (normalize_currency none WalletNetwork.base) ≡ true
        → validate_address tests WalletNetwork.base "B" ≡ err x
        → import_wallet tests 7 0 10 WalletNetwork.base "B" none none purse ≡ (err x, purse))
import_wallet_throws_example =
    import_wallet_throws tests 7 0 10 WalletNetwork.base "B" none none purse

abbrev third_tron : Wallet
third_tron = record (wallet 7 10 WalletNetwork.tron "USDT") {
  external_address = some "T3";
  label = some "mine";
}

abbrev fuller_purse : Database
fuller_purse = record bank { wallets = third_tron ∷ main_tron ∷ second_tron ∷ [] }

imported :
    import_wallet tests 7 0 10 WalletNetwork.tron "T3" (some "mine") none purse
    ≡ (ok third_tron, fuller_purse)
unfolding wallets
imported = refl

beside_main :
    (get_main_wallet 10 WalletNetwork.tron purse ≡ some main_tron)
    × (any (λ b. b.wallet_id == 7) purse.boleto_payments ≡ false)
unfolding wallets
beside_main = (refl, refl)

import_wallet-delete_wallet_example :
    ((delete_wallet 7 10 fuller_purse).0 ≡ ok third_tron)
    × ((delete_wallet 7 10 fuller_purse).1.wallets ≡ purse.wallets)
import_wallet-delete_wallet_example =
    import_wallet-delete_wallet tests 7 0 10 WalletNetwork.tron "T3" (some "mine") none purse
      third_tron fuller_purse main_tron beside_main.0 beside_main.1 imported
