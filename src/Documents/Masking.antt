-- ===== src/Documents/Masking.antt =====
-- `maskTaxNumber` of src/transactions/transactions.service.ts.
use Prim.Native.String
use Prim.Native.String.{count}
use text.Mathlib.TextLemmas.{length-nil, length-cons, length-append}
use otsem_api.Common.{
  ℕ, zero, suc, ◌+◌, ◌-◌, ◌≡◌, refl, ap, ◌∙◌, String, true, Option, none, some, ◌==◌, ltb, arith,
  str_eq, if◌then◌else◌, Bool-cases, inl, inr, ◌<◌, ◌≤◌, ==_sound,
}
use otsem_api.Documents.Validator.{clean_document}

unfoldable pub take_text : ℕ → String → String
take_text zero s = ""
take_text (suc n) String.[] = ""
take_text (suc n) (String.◌∷◌ c s) = String.◌∷◌ c (take_text n s)

unfoldable pub drop_text : ℕ → String → String
drop_text zero s = s
drop_text (suc n) String.[] = ""
drop_text (suc n) (String.◌∷◌ c s) = drop_text n s

-- `s.substring(start, stop)`, where start is at most stop
unfoldable pub substring : (start stop : ℕ) → String → String
substring start stop s = take_text (stop - start) (drop_text start s)

-- A masked text: stars around what is shown.
unfoldable pub between : String → String → String → String
between left shown right = String.◌++◌ left (String.◌++◌ shown right)

unfoldable pub mask_digits : String → String
mask_digits cleaned =
    let n = count cleaned in
    if n == 11
    then between "***" (substring 3 9 cleaned) "**"
    else if n == 14
    then between "**" (substring 2 12 cleaned) "**"
    else if ltb 4 n
    then between "***" (substring 3 (n - 2) cleaned) "**"
    else "***"

unfoldable pub mask_tax_number : Option String → Option String
mask_tax_number none = none
mask_tax_number (some t) = if str_eq t "" then none else some (mask_digits (clean_document t))

count-take_text : (n k : ℕ) (s : String) → count s ≡ n + k → count (take_text n s) ≡ n
unfolding take_text
count-take_text zero k s h = refl
count-take_text (suc n) k String.[] h = absurd (let e = length-nil in omega arith)
count-take_text (suc n) k (String.◌∷◌ c s) h =
    let e = length-cons c s in
    let rest : count s ≡ n + k = omega arith in
    length-cons c (take_text n s) ∙ ap suc (count-take_text n k s rest)

count-drop_text : (n k : ℕ) (s : String) → count s ≡ n + k → count (drop_text n s) ≡ k
unfolding drop_text
count-drop_text zero k s h = omega arith
count-drop_text (suc n) k String.[] h = absurd (let e = length-nil in omega arith)
count-drop_text (suc n) k (String.◌∷◌ c s) h =
    let e = length-cons c s in
    let rest : count s ≡ n + k = omega arith in count-drop_text n k s rest

-- A part of a text is as long as its bounds are apart.
count-substring :
    (start stop rest : ℕ) (s : String)
    → start ≤ stop
    → count s ≡ stop + rest
    → count (substring start stop s) ≡ stop - start
unfolding substring
count-substring start stop rest s le h =
    let whole : count s ≡ start + (stop - start + rest) = omega arith in
    count-take_text (stop - start) rest (drop_text start s)
      (count-drop_text start (stop - start + rest) s whole)

count-between : (l s r : String) → count (between l s r) ≡ count l + (count s + count r)
unfolding between
count-between l s r = length-append l (String.◌++◌ s r) ∙ ap (λ n. count l + n) (length-append s r)

-- The mask of a text of more than four digits is as long as the text, whatever kind it is.
pub mask_digits_length : (s : String) → 4 < count s → count (mask_digits s) ≡ count s
unfolding mask_digits
mask_digits_length s h = elim (Bool-cases (count s == 11)) [
  | inl cpf ↦
      let n = ==_sound (count s) 11 cpf in
      let m = count-substring 3 9 2 s (omega arith) n in
      rw cpf (let b = count-between "***" (substring 3 9 s) "**" in omega arith)
  | inr other ↦ elim (Bool-cases (count s == 14)) [
    | inl cnpj ↦
        let n = ==_sound (count s) 14 cnpj in
        let m = count-substring 2 12 2 s (omega arith) n in
        rw (other, cnpj) (let b = count-between "**" (substring 2 12 s) "**" in omega arith)
    | inr neither ↦
        let m = count-substring 3 (count s - 2) 2 s (omega arith) (omega arith) in
        let long : ltb 4 (count s) ≡ true = ground arith in
        rw (other, neither, long)
          (let b = count-between "***" (substring 3 (count s - 2) s) "**" in omega arith)
  ]
]
