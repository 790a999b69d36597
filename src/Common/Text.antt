-- ===== src/Common/Text.antt =====
-- Texts: equality, JavaScript's `||` on an optional text, digits.
use Prim.Native.String.{String}
use Prim.Native.Char.{Char, code}
use Prim.Native.Nat.{ℕ, zero, suc, ◌+◌, ◌/◌, ◌%◌, ◌^◌}
use Prim.Native.String
use mathlib.Core.Path.{◌≡◌, refl}
use mathlib.Core.List.{List, [], ◌∷◌}
use mathlib.Core.Bool.{Bool, false, ◌&&◌, ◌||◌}
use mathlib.Core.Option.{Option, none, some}
use otsem_api.Common.Tests.{if◌then◌else◌, leb, ◌==◌}
use otsem_api.Common.Int.{ℤ, pos, negsuc, pos_part, neg_part}
pub use text.Mathlib.Text.{◌==◌ as str_eq}
pub use text.Mathlib.TextEquality.{eq_iff}

-- `a || b` where `a` is a text that may be undefined or empty.
abbrev pub or_text : Option String → String → String
or_text none d = d
or_text (some s) d = if str_eq s "" then d else s

-- `a || b` where b may be undefined as well.
abbrev pub or_else : Option String → Option String → Option String
or_else none d = d
or_else (some s) d = if str_eq s "" then d else some s

-- A column that is written from a value that may be undefined: Prisma then leaves it alone.
abbrev pub or_kept : Option String → Option String → Option String
or_kept none old = old
or_kept (some s) old = some s

-- `o === s` for an optional column.
abbrev pub text_is : Option String → String → Bool
text_is none s = false
text_is (some t) s = str_eq t s

-- A template literal, from its parts.
pub template : List String → String
template [] = ""
template (s ∷ parts) = String.◌++◌ s (template parts)

-- `\s` of JavaScript, by code point.
is_space : Char → Bool
is_space c =
    let n = code c in
    (leb 9 n && leb n 13)
    || n == 32
    || n == 160
    || n == 0x1680
    || (leb 0x2000 n && leb n 0x200a)
    || n == 0x2028
    || n == 0x2029
    || n == 0x202f
    || n == 0x205f
    || n == 0x3000
    || n == 0xfeff

trim_start : String → String
trim_start String.[] = ""
trim_start (String.◌∷◌ c s) = let rest = trim_start s in if is_space c then rest else String.◌∷◌ c s

trim_end : String → String
trim_end String.[] = ""
trim_end (String.◌∷◌ c s) =
    let rest = trim_end s in if is_space c && str_eq rest "" then "" else String.◌∷◌ c rest

-- `s.trim()`
unfoldable pub trim : String → String
unfolding trim_start trim_end is_space
trim s = trim_end (trim_start s)

digit_text : ℕ → String
digit_text n =
    if n == 0
    then "0"
    else if n == 1
    then "1"
    else if n == 2
    then "2"
    else if n == 3
    then "3"
    else if n == 4
    then "4"
    else if n == 5
    then "5"
    else if n == 6
    then "6"
    else if n == 7
    then "7"
    else if n == 8
    then "8"
    else "9"

-- The last k decimal digits, and all of them (a number below 10 ^ k has at most k).
unfoldable pub last_digits : ℕ → ℕ → String
unfolding digit_text
last_digits zero n = ""
last_digits (suc k) n = String.◌++◌ (last_digits k (n / 10)) (digit_text (n % 10))

digits_from : ℕ → ℕ → String
digits_from zero n = ""
digits_from (suc fuel) n =
    let rest = digits_from fuel (n / 10) in
    String.◌++◌ (if n / 10 == 0 then "" else rest) (digit_text (n % 10))

unfoldable pub show_ℕ : ℕ → String
unfolding digits_from digit_text
show_ℕ n = digits_from (suc n) n

-- `x.toFixed(k)`, from the integer that counts units of 10 ^ -k.
unfoldable pub fixed_text : ℕ → ℤ → String
unfolding show_ℕ last_digits
fixed_text k x =
    let n = pos_part x + neg_part x in
    let sign : String = elim x [ pos _ ↦ "" | negsuc _ ↦ "-" ] in
    let whole = show_ℕ (n / 10 ^ k) in
    String.◌++◌ sign
      (if k == 0 then whole else String.◌++◌ whole (String.◌++◌ "." (last_digits k n)))

show_amount : fixed_text 2 (pos 1205) ≡ "12.05"
unfolding fixed_text
show_amount = refl

trim_both : trim "  a b " ≡ "a b"
unfolding trim
trim_both = refl
