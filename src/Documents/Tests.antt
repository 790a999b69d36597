-- ===== src/Documents/Tests.antt =====
-- Valid and invalid documents, and the theorems at them.
use Prim.Native.String.{count}
use otsem_api.Common.{some, ◌<◌, arith, ◌≡◌, refl, ◌||◌, true, false, List, [], ◌∷◌, ◌++◌, ℕ}
use otsem_api.Documents.Validator.{
  clean_document, digits_of, cpf_check_digit, cnpj_check_digit, check_cpf, check_cnpj, validate_cpf,
  validate_cnpj, validate_document,
}
use otsem_api.Documents.Masking.{
  take_text, drop_text, substring, between, mask_digits, mask_tax_number, mask_digits_length,
}
use otsem_api.Documents.Cleaning.{validate-clean_document, validate_document-validate_cpf}
use otsem_api.Documents.CheckDigits.{is_cpf, is_cnpj, check_cpf-check_cnpj, check_cpf_unique}

documents : Unit {0}
unfolding clean_document digits_of cpf_check_digit cnpj_check_digit check_cpf check_cnpj
    validate_cpf validate_cnpj validate_document take_text drop_text substring between mask_digits
    mask_tax_number
documents = tt

valid_cpf : validate_cpf "529.982.247-25" ≡ true
unfolding documents
valid_cpf = refl

invalid_cpf : validate_cpf "529.982.247-26" ≡ false
unfolding documents
invalid_cpf = refl

repeated_cpf : validate_cpf "111.111.111-11" ≡ false
unfolding documents
repeated_cpf = refl

valid_cnpj : validate_document "11.222.333/0001-81" ≡ true
unfolding documents
valid_cnpj = refl

validate-clean_document_example :
    (validate_cpf (clean_document "529.982.247-25") ≡ validate_cpf "529.982.247-25")
    × (validate_cnpj (clean_document "529.982.247-25") ≡ validate_cnpj "529.982.247-25")
    × (validate_document (clean_document "529.982.247-25") ≡ validate_document "529.982.247-25")
validate-clean_document_example = validate-clean_document "529.982.247-25"

validate_document_example :
    validate_document "11.222.333/0001-81"
    ≡ (validate_cpf "11.222.333/0001-81" || validate_cnpj "11.222.333/0001-81")
validate_document_example = validate_document-validate_cpf "11.222.333/0001-81"

abbrev cnpj : List ℕ
cnpj = 1 ∷ 1 ∷ 2 ∷ 2 ∷ 2 ∷ 3 ∷ 3 ∷ 3 ∷ 0 ∷ 0 ∷ 0 ∷ 1 ∷ 8 ∷ 1 ∷ []

check_cpf-check_cnpj_example : (check_cpf cnpj ≡ is_cpf cnpj) × (check_cnpj cnpj ≡ is_cnpj cnpj)
check_cpf-check_cnpj_example = check_cpf-check_cnpj cnpj

abbrev nine : List ℕ
nine = 5 ∷ 2 ∷ 9 ∷ 9 ∷ 8 ∷ 2 ∷ 2 ∷ 4 ∷ 7 ∷ []

nine_valid : check_cpf (nine ++ 2 ∷ 5 ∷ []) ≡ true
unfolding documents
nine_valid = refl

check_cpf_unique_example : (◌≡◌ {A = ℕ} 2 2) × (◌≡◌ {A = ℕ} 5 5)
check_cpf_unique_example = check_cpf_unique nine 2 5 2 5 refl nine_valid nine_valid

-- A CPF shows its middle digits, a CNPJ all but two at each end.
masked_cpf : mask_tax_number (some "123.456.789-00") ≡ some "***456789**"
unfolding documents
masked_cpf = refl

masked_cnpj : mask_tax_number (some "12.345.678/0001-90") ≡ some "**3456780001**"
unfolding documents
masked_cnpj = refl

seven_digits : 4 < count "1234567"
seven_digits = omega arith

mask_digits_length_example : count (mask_digits "1234567") ≡ count "1234567"
mask_digits_length_example = mask_digits_length "1234567" seven_digits
