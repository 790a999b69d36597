-- ===== src/Ledger/Amounts.antt =====
-- The amounts that the ledger's services take: numbers of up to seven decimals, held as integers of
-- ten-millionths of a real. The columns of the ledger, `@db.Decimal(15, 2)` in
-- src/prisma/schema.prisma, hold cents, and the database rounds what is written to them. A sum of a
-- balance and such an amount has at most the 20 digits that `Prisma.Decimal` keeps, so it is exact.
use otsem_api.Common.{
  ℕ, ◌+◌, ◌*◌, ◌/◌, ℤ, pos, negsuc, ltb_ℤ, false, ◌≡◌, ◌≢◌, ◌%◌, pos_part, neg_part, sub_ℕ, arith,
  ◌+ℤ◌, ◌-ℤ◌, ◌≤ℤ◌,
}

-- A column of cents as an amount.
unfoldable pub in_units : ℤ → ℤ
in_units b = sub_ℕ (100_000 * pos_part b) (100_000 * neg_part b)

abbrev rounded : ℕ → ℕ
rounded n = (n + 50_000) / 100_000

-- An amount as a column holds it: rounded to cents, halves away from zero.
unfoldable pub booked : ℤ → ℤ
booked x = sub_ℕ (rounded (pos_part x)) (rounded (neg_part x))

-- The amount is not halfway between two cents.
abbrev pub IsClear : ℤ → Type 0
IsClear x = (pos_part x + neg_part x) % 100_000 ≢ 50_000

pub booked_sum : (b x : ℤ) → IsClear x → booked (in_units b +ℤ x) ≡ b +ℤ booked x
unfolding booked in_units ◌+ℤ◌
booked_sum (pos b) (pos x) h = ground arith
booked_sum (pos b) (negsuc x) h = ground arith
booked_sum (negsuc b) (pos x) h = ground arith
booked_sum (negsuc b) (negsuc x) h = ground arith

pub booked_difference : (b x : ℤ) → IsClear x → booked (in_units b -ℤ x) ≡ b -ℤ booked x
unfolding booked in_units ◌-ℤ◌
booked_difference (pos b) (pos x) h = ground arith
booked_difference (pos b) (negsuc x) h = ground arith
booked_difference (negsuc b) (pos x) h = ground arith
booked_difference (negsuc b) (negsuc x) h = ground arith

pub booked_covered : (a x : ℤ) → ltb_ℤ (in_units a) x ≡ false → booked x ≤ℤ a
unfolding booked in_units
booked_covered (pos a) (pos x) h = ground arith
booked_covered (pos a) (negsuc x) h = ground arith
booked_covered (negsuc a) (pos x) h = ground arith
booked_covered (negsuc a) (negsuc x) h = ground arith
