-- ===== src/Documents.antt =====
-- CPF and CNPJ numbers: src/auth/utils/document-validator.ts.
pub mod Validator
pub mod Cleaning
pub mod CheckDigits
pub mod Masking
mod Tests
