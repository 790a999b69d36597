-- ===== src/Documents/Validator.antt =====
-- src/auth/utils/document-validator.ts: a document is cleaned to its ASCII digits, which are then
-- read as numbers.
use Prim.Native.Char.{Char, code}
use otsem_api.Common.{
  ℕ, zero, suc, ◌+◌, ◌-◌, ◌*◌, ◌%◌, String, Bool, true, false, not, ◌&&◌, List, [], ◌∷◌, ◌==◌, ltb,
  leb, length, if◌then◌else◌,
}

-- `\d`
abbrev pub is_digit : Char → Bool
is_digit c = let n = code c in leb 48 n && leb n 57

-- `document.replace(/\D/g, '')`
unfoldable pub clean_document : String → String
clean_document String.[] = ""
clean_document (String.◌∷◌ c s) =
    let rest = clean_document s in if is_digit c then String.◌∷◌ c rest else rest

-- `parseInt(s.charAt(i))` for each i, on a text of digits.
unfoldable pub digits_of : String → List ℕ
digits_of String.[] = []
digits_of (String.◌∷◌ c s) = (code c - 48) ∷ digits_of s

-- `/^(\d)\1*$/`: all digits are the same.
abbrev pub all_are : ℕ → List ℕ → Bool
all_are d [] = true
all_are d (e ∷ es) = (e == d) && all_are d es

abbrev pub all_same : List ℕ → Bool
all_same [] = false
all_same (d ∷ ds) = all_are d ds

-- The loops of `validateCPF`: n digits, with weights that go down by one.
abbrev pub weigh_down : (n weight : ℕ) → List ℕ → ℕ
weigh_down zero weight ds = 0
weigh_down (suc n) weight [] = 0
weigh_down (suc n) weight (d ∷ ds) = d * weight + weigh_down n (weight - 1) ds

-- The loops of `validateCNPJ`: `pos--; if (pos < 2) pos = 9;`
abbrev pub next_pos : ℕ → ℕ
next_pos pos = if ltb (pos - 1) 2 then 9 else pos - 1

abbrev pub weigh_cycle : (n pos : ℕ) → List ℕ → ℕ
weigh_cycle zero pos ds = 0
weigh_cycle (suc n) pos [] = 0
weigh_cycle (suc n) pos (d ∷ ds) = d * pos + weigh_cycle n (next_pos pos) ds

-- `charAt(i)`; the callers have checked the length.
abbrev pub digit_at : ℕ → List ℕ → ℕ
digit_at i [] = 0
digit_at zero (d ∷ ds) = d
digit_at (suc i) (d ∷ ds) = digit_at i ds

-- `11 - (sum % 11)`, or 0 where that is 10 or more.
unfoldable pub cpf_check_digit : ℕ → ℕ
cpf_check_digit sum = let digit = 11 - sum % 11 in if leb 10 digit then 0 else digit

unfoldable pub cnpj_check_digit : ℕ → ℕ
cnpj_check_digit sum = if ltb (sum % 11) 2 then 0 else 11 - sum % 11

unfoldable pub check_cpf : List ℕ → Bool
check_cpf ds =
    if not (length ds == 11)
    then false
    else if all_same ds
    then false
    else if not (cpf_check_digit (weigh_down 9 10 ds) == digit_at 9 ds)
    then false
    else if not (cpf_check_digit (weigh_down 10 11 ds) == digit_at 10 ds)
    then false
    else true

unfoldable pub check_cnpj : List ℕ → Bool
check_cnpj ds =
    if not (length ds == 14)
    then false
    else if all_same ds
    then false
    else if not (cnpj_check_digit (weigh_cycle 12 5 ds) == digit_at 12 ds)
    then false
    else if not (cnpj_check_digit (weigh_cycle 13 6 ds) == digit_at 13 ds)
    then false
    else true

unfoldable pub validate_cpf : String → Bool
validate_cpf cpf = check_cpf (digits_of (clean_document cpf))

unfoldable pub validate_cnpj : String → Bool
validate_cnpj cnpj = check_cnpj (digits_of (clean_document cnpj))

unfoldable pub validate_document : String → Bool
validate_document document =
    let clean = clean_document document in
    if length (digits_of clean) == 11
    then validate_cpf clean
    else if length (digits_of clean) == 14
    then validate_cnpj clean
    else false
