-- ===== src/Documents/Cleaning.antt =====
-- Cleaned documents and the validators of src/auth/utils/document-validator.ts.
use otsem_api.Common.{
  ℕ, String, Bool, true, false, ◌||◌, ◌≡◌, refl, ap, ◌∙◌, inl, inr, List, ◌==◌, arith, length,
  if◌then◌else◌, Bool-cases,
}
use otsem_api.Documents.Validator.{
  is_digit, clean_document, digits_of, check_cpf, check_cnpj, validate_cpf, validate_cnpj,
  validate_document,
}

clean_document-clean : (s : String) → clean_document (clean_document s) ≡ clean_document s
unfolding clean_document
clean_document-clean String.[] = refl
clean_document-clean (String.◌∷◌ c s) = elim (Bool-cases (is_digit c)) [
  | inl digit ↦ rw (digit, digit, clean_document-clean s) refl
  | inr other ↦ rw other (clean_document-clean s)
]

-- Each validator answers a document and its bare digits alike.
pub validate-clean_document :
    (s : String)
    → (validate_cpf (clean_document s) ≡ validate_cpf s)
      × (validate_cnpj (clean_document s) ≡ validate_cnpj s)
      × (validate_document (clean_document s) ≡ validate_document s)
unfolding validate_cpf validate_cnpj validate_document
validate-clean_document s =
    let e = clean_document-clean s in
    (
      ap (λ t. check_cpf (digits_of t)) e,
      ap (λ t. check_cnpj (digits_of t)) e,
      ap
          (λ t.
            if length (digits_of t) == 11
            then check_cpf (digits_of (clean_document t))
            else if length (digits_of t) == 14
            then check_cnpj (digits_of (clean_document t))
            else false)
          e,
    )

not_cpf : (ds : List ℕ) → (length ds == 11) ≡ false → check_cpf ds ≡ false
unfolding check_cpf
not_cpf ds h = rw h refl

not_cnpj : (ds : List ℕ) → (length ds == 14) ≡ false → check_cnpj ds ≡ false
unfolding check_cnpj
not_cnpj ds h = rw h refl

one_length : (n : ℕ) → (n == 11) ≡ true → (n == 14) ≡ false
one_length n h = ground arith

or_false : (b : Bool) → b ≡ (b || false)
or_false true = refl
or_false false = refl

by_length :
    (ds : List ℕ)
    → (if length ds == 11 then check_cpf ds else if length ds == 14 then check_cnpj ds else false)
      ≡ (check_cpf ds || check_cnpj ds)
by_length ds = elim (Bool-cases (length ds == 11)) [
  | inl cpf ↦ rw (cpf, not_cnpj ds (one_length (length ds) cpf)) (or_false (check_cpf ds))
  | inr other ↦ elim (Bool-cases (length ds == 14)) [
    | inl cnpj ↦ rw (other, cnpj, not_cpf ds other) refl
    | inr neither ↦ rw (other, neither, not_cpf ds other, not_cnpj ds neither) refl
  ]
]

-- A document is valid exactly when it is a valid CPF or a valid CNPJ.
pub validate_document-validate_cpf :
    (s : String) → validate_document s ≡ (validate_cpf s || validate_cnpj s)
unfolding validate_document validate_cpf validate_cnpj
validate_document-validate_cpf s =
    ap
      (λ t.
        if length (digits_of (clean_document s)) == 11
        then check_cpf (digits_of t)
        else if length (digits_of (clean_document s)) == 14
        then check_cnpj (digits_of t)
        else false)
      (clean_document-clean s)
    ∙ by_length (digits_of (clean_document s))
