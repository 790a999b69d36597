-- ===== src/Conversions/Messages.antt =====
-- `isOkxWhitelistErrorMessage` of src/wallet/wallet.service.ts, with the text functions it calls.
use otsem_api.Common.{ℕ, zero, suc, ◌-◌, String, Bool, ◌&&◌, ◌||◌, leb, if◌then◌else◌, str_eq}
use Prim.Native.Char.{Char, code}
use text.Mathlib.Text.{starts_with}

-- `s.includes(t)`
includes : String → String → Bool
includes String.[] t = str_eq t ""
includes (String.◌∷◌ c s) t = starts_with (String.◌∷◌ c s) t || includes s t

letter_at : Char → ℕ → String → Char
letter_at d n String.[] = d
letter_at d zero (String.◌∷◌ c s) = c
letter_at d (suc n) (String.◌∷◌ c s) = letter_at d n s

-- `s.toLowerCase()`, exact on ASCII. No other letter becomes one of the texts that are looked for.
to_lower : String → String
unfolding letter_at
to_lower String.[] = ""
to_lower (String.◌∷◌ c s) =
    let n = code c in
    String.◌∷◌
      (if leb 65 n && leb n 90 then letter_at c (n - 65) "abcdefghijklmnopqrstuvwxyz" else c)
      (to_lower s)

unfoldable pub is_okx_whitelist_error_message : String → Bool
unfolding includes to_lower
is_okx_whitelist_error_message message =
    let normalized = to_lower message in
    includes normalized "verified addresses"
    || includes normalized "whitelist"
    || includes normalized "58207"
