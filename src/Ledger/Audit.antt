-- ===== src/Ledger/Audit.antt =====
-- What the ledger is held to: the log of transactions explains every balance. `net` is the balance
-- that the log gives an account; `audit` also follows the two balance columns row by row.
use otsem_api.Common.{
  ℕ, ◌+◌, ℤ, pos, ◌≡◌, refl, Bool, true, not, ◌&&◌, ◌||◌, List, [], ◌∷◌, arith, ◌==◌, ◌+ℤ◌, ◌-ℤ◌,
  if◌then◌else◌, pos_part, neg_part, eq_of_parts, inl, inr, Bool-cases,
}
use otsem_api.Database.Enums.{TransactionType}
use otsem_api.Database.Rows.{Transaction}
use otsem_api.Database.Tables.{update_where}

-- The balance after a row of a type, from the balance before it.
unfoldable pub added : TransactionType → ℤ → ℤ → ℤ
added TransactionType.withdraw b x = b -ℤ x
added TransactionType.transfer_out b x = b -ℤ x
added TransactionType.pix_out b x = b -ℤ x
added TransactionType.fee b x = b -ℤ x
added _ b x = b +ℤ x

unfoldable pub eq_ℤ : ℤ → ℤ → Bool
eq_ℤ a b = pos_part a + neg_part b == pos_part b + neg_part a

unfoldable pub net : ℕ → List Transaction → ℤ
net id [] = pos 0
net id (t ∷ log) =
    let before = net id log in if t.account_id == id then added t.kind before t.amount else before

abbrev row_adds : Transaction → Bool
row_adds t = eq_ℤ t.balance_after (added t.kind t.balance_before t.amount)

unfoldable pub audit : ℕ → List Transaction → ℤ → Bool
audit id [] b = eq_ℤ b (pos 0)
audit id (t ∷ log) b =
    (not (t.account_id == id) || (eq_ℤ b t.balance_after && row_adds t))
    && audit id log (if t.account_id == id then t.balance_before else b)

pub eq_ℤ_sound : (a b : ℤ) → eq_ℤ a b ≡ true → a ≡ b
unfolding eq_ℤ
eq_ℤ_sound a b h = eq_of_parts a b (ground arith)

pub eq_ℤ_refl : (a : ℤ) → eq_ℤ a a ≡ true
unfolding eq_ℤ
eq_ℤ_refl a = ground arith

-- A balance that passes the audit is the net of the log.
pub audit-net : (id : ℕ) (log : List Transaction) (b : ℤ) → audit id log b ≡ true → b ≡ net id log
unfolding audit net
audit-net id [] b h = eq_ℤ_sound b (pos 0) h
audit-net id (t ∷ log) b h = ground (
  arith,
  audit-net id log b,
  audit-net id log t.balance_before,
  eq_ℤ_sound b t.balance_after,
  eq_ℤ_sound t.balance_after (added t.kind t.balance_before t.amount),
)

-- A write that keeps the four columns that the audit reads keeps the audit.
module _ (p : Transaction → Bool) (f : Transaction → Transaction)
    (account_id : (t : Transaction) → (f t).account_id ≡ t.account_id)
    (kind : (t : Transaction) → (f t).kind ≡ t.kind)
    (amount : (t : Transaction) → (f t).amount ≡ t.amount)
    (before : (t : Transaction) → (f t).balance_before ≡ t.balance_before)
    (after : (t : Transaction) → (f t).balance_after ≡ t.balance_after) where
  pub audit-update_where :
      (id : ℕ) (log : List Transaction) (b : ℤ) → audit id (update_where p f log) b ≡ audit id log b
  unfolding audit update_where
  audit-update_where id [] b = refl
  audit-update_where id (t ∷ log) b = elim (Bool-cases (p t)) [
    | inl fits ↦
        rw (fits, account_id t, kind t, amount t, before t, after t)
          (simp (audit-update_where id log))
    | inr other ↦ rw other (simp (audit-update_where id log))
  ]
