-- ===== src/Wallets/Currencies.antt =====
-- Which currency a network takes: the constants and the two private methods at the top of
-- src/wallet/wallet.service.ts.
use otsem_api.Common.{
  ℕ, zero, suc, ◌-◌, ◌≡◌, refl, String, Bool, ◌&&◌, Option, List, [], ◌∷◌, any, leb, ◌==◌, str_eq,
  or_text, template, if◌then◌else◌, not,
}
use Prim.Native.Char.{Char, code}
use Prim.Native.String
use otsem_api.Database.Enums.{WalletNetwork}
use otsem_api.Database.Action.{Action, Error, bad_request, throw_if}

char_at : Char → ℕ → String → Char
char_at d n String.[] = d
char_at d zero (String.◌∷◌ c s) = c
char_at d (suc n) (String.◌∷◌ c s) = char_at d n s

upper_char : Char → Char
unfolding char_at
upper_char c =
    let n = code c in
    if leb 97 n && leb n 122
    then char_at c (n - 97) "ABCDEFGHIJKLMNOPQRSTUVWXYZ"
    else if n == 0x17f
    then char_at c 0 "S"
    else c

-- `s.toUpperCase()`, exact on ASCII and on the long s. No other letter becomes, in upper case, a
-- letter or a sequence of letters of the currencies below.
unfoldable pub to_upper : String → String
unfolding upper_char
to_upper String.[] = ""
to_upper (String.◌∷◌ c s) = String.◌∷◌ (upper_char c) (to_upper s)

-- `NETWORK_CURRENCIES`
abbrev pub network_currencies : WalletNetwork → List String
network_currencies WalletNetwork.solana = "USDT" ∷ "SOL" ∷ []
network_currencies WalletNetwork.tron = "USDT" ∷ "TRX" ∷ []
network_currencies WalletNetwork.ethereum = "ETH" ∷ []
network_currencies WalletNetwork.bitcoin = "BTC" ∷ []
network_currencies _ = []

-- `DEFAULT_CURRENCY_BY_NETWORK[network] || 'USDT'`
abbrev pub default_currency : WalletNetwork → String
default_currency WalletNetwork.ethereum = "ETH"
default_currency WalletNetwork.bitcoin = "BTC"
default_currency _ = "USDT"

unfoldable pub network_name : WalletNetwork → String
network_name WalletNetwork.solana = "SOLANA"
network_name WalletNetwork.ethereum = "ETHEREUM"
network_name WalletNetwork.polygon = "POLYGON"
network_name WalletNetwork.bsc = "BSC"
network_name WalletNetwork.tron = "TRON"
network_name WalletNetwork.bitcoin = "BITCOIN"
network_name WalletNetwork.avalanche = "AVALANCHE"
network_name WalletNetwork.arbitrum = "ARBITRUM"
network_name WalletNetwork.optimism = "OPTIMISM"
network_name WalletNetwork.base = "BASE"

unfoldable pub normalize_currency : Option String → WalletNetwork → String
normalize_currency currency network = to_upper (or_text currency (default_currency network))

unfoldable pub is_supported : WalletNetwork → String → Bool
is_supported network currency = any (λ c. str_eq c currency) (network_currencies network)

-- `supported.join(', ') || 'nenhuma'`
unfoldable pub joined : List String → String
joined [] = "nenhuma"
joined (c ∷ []) = c
joined (c ∷ d ∷ cs) = String.◌++◌ c (String.◌++◌ ", " (joined (d ∷ cs)))

abbrev pub unsupported : WalletNetwork → Error
unsupported network = bad_request (
    template (
      "Moeda inválida para "
      ∷ network_name network
      ∷ ". Suportadas: "
      ∷ joined (network_currencies network)
      ∷ []))

unfoldable pub assert_supported_currency : WalletNetwork → String → Action (Unit {0})
assert_supported_currency network currency =
    throw_if (not (is_supported network currency)) (unsupported network)

upper_default : to_upper "trx" ≡ "TRX"
unfolding to_upper
upper_default = refl
