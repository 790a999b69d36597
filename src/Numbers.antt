-- ===== src/Numbers.antt =====
-- JavaScript's `number` where the services compute with fractions: rates, fees and crypto amounts.
-- The type and the operations are a parameter; no law is assumed here.
use otsem_api.Common.{ℕ, ℤ, Bool, String}

pub record Numbers : Type 1 where
  pub Number : Type 0
  -- the literal n / 10 ^ k
  pub literal : (n k : ℕ) → Number
  pub plus : Number → Number → Number
  pub minus : Number → Number → Number
  pub times : Number → Number → Number
  pub over : Number → Number → Number
  pub less : Number → Number → Bool
  -- `Math.round`
  pub round : Number → Number
  -- `Math.floor`
  pub floor : Number → Number
  -- `x.toFixed(k)`, read as an integer of units 10 ^ -k
  pub to_fixed : (k : ℕ) → Number → ℤ
  -- `d.toNumber()` of a Decimal of units 10 ^ -k
  pub to_number : (k : ℕ) → ℤ → Number
  -- A number written to a Decimal column of units 10 ^ -k, as the database rounds it.
  pub to_column : (k : ℕ) → Number → ℤ
  -- `${x}`
  pub to_text : Number → String
