-- ===== src/Boleto/Effects.antt =====
-- What one call on boleto payments may do to the database, and what that keeps.
use otsem_api.Common.{
  ℕ, ℤ, pos, true, false, ◌≡◌, refl, ap, ap₂, ◌∙◌, some, List, ◌∷◌, arith, ◌==◌, ◌+ℤ◌, ◌-ℤ◌,
  int_laws, str_eq, any, find, if◌then◌else◌, ==_refl, Bool-cases, inl, inr,
}
use otsem_api.Database.Rows.{Wallet, BoletoPayment, Database}
use otsem_api.Database.Tables.{
  by, HasDistinct, sum_of, find-by_of_any, find-update_where, update_where-HasDistinct,
}
use otsem_api.Boleto.Payments.{wallet_by_id, payment_by_id}
use otsem_api.Boleto.Admin.{is_open}
use otsem_api.Boleto.Custody.{
  kept_of, custody, wallet_balance, wallet_balance-repaid, repaid, rewritten, HasDistinctPayments,
  custody-rewritten, custody-repaid,
}
use otsem_api.Boleto.Refunds.{open_is_live}

-- What one call has done: nothing, a mark on an open payment with a refund or without, or a new
-- payment with a debit or without.
pub data Effect (db e : Database) : Type 0 where
  same : e ≡ db → Effect db e
  marked :
      (id : ℕ) (f : BoletoPayment → BoletoPayment) (b : BoletoPayment)
      → payment_by_id id db ≡ some b
      → ((b : BoletoPayment) → (f b).id ≡ b.id)
      → is_open b.status ≡ true
      → ((w : ℕ) → kept_of w (f b) ≡ kept_of w b)
      → e ≡ rewritten id f db
      → Effect db e
  repaid_to :
      (id : ℕ) (f : BoletoPayment → BoletoPayment) (b : BoletoPayment) (v : Wallet)
      → payment_by_id id db ≡ some b
      → ((b : BoletoPayment) → (f b).id ≡ b.id)
      → is_open b.status ≡ true
      → ((w : ℕ) → kept_of w (f b) ≡ pos 0)
      → str_eq b.crypto_currency "USDT" ≡ true
      → wallet_by_id b.wallet_id db ≡ some v
      → e ≡ rewritten id f (repaid b.wallet_id b.crypto_amount db)
      → Effect db e
  created :
      (b : BoletoPayment)
      → any (by (λ b. b.id) b.id) db.boleto_payments ≡ false
      → ((w : ℕ) → kept_of w b ≡ pos 0)
      → e ≡ record db { boleto_payments = b ∷ db.boleto_payments }
      → Effect db e
  charged :
      (b : BoletoPayment) (v : Wallet)
      → any (by (λ b. b.id) b.id) db.boleto_payments ≡ false
      → ((w : ℕ) → kept_of w b ≡ (if b.wallet_id == w then b.crypto_amount else pos 0))
      → wallet_by_id b.wallet_id db ≡ some v
      → e ≡ record (repaid b.wallet_id (pos 0 -ℤ b.crypto_amount) db) {
        boleto_payments = b ∷ db.boleto_payments;
      }
      → Effect db e

charged_back : (x s y : ℤ) → x +ℤ (pos 0 -ℤ y) +ℤ (y +ℤ s) ≡ x +ℤ s
charged_back x s y = omega int_laws

add_zero : (s : ℤ) → pos 0 +ℤ s ≡ s
add_zero s = omega int_laws

custody-charged :
    (w : ℕ) (db : Database) (b : BoletoPayment) {v : Wallet}
    → kept_of w b ≡ (if b.wallet_id == w then b.crypto_amount else pos 0)
    → wallet_by_id b.wallet_id db ≡ some v
    → custody w (record (repaid b.wallet_id (pos 0 -ℤ b.crypto_amount) db) {
      boleto_payments = b ∷ db.boleto_payments;
    })
      ≡ custody w db
unfolding wallet_by_id sum_of
custody-charged w db b kept hv =
    let paid = wallet_balance-repaid b.wallet_id w (pos 0 -ℤ b.crypto_amount) db hv in
    let after = repaid b.wallet_id (pos 0 -ℤ b.crypto_amount) db in
    elim (Bool-cases (b.wallet_id == w)) [
      | inl mine ↦
          let now : wallet_balance w after ≡ wallet_balance w db +ℤ (pos 0 -ℤ b.crypto_amount) =
            rw (paid, mine) refl in
          let mine_kept : kept_of w b ≡ b.crypto_amount = rw (kept, mine) refl in
          ap₂ ◌+ℤ◌ now (ap (λ k. k +ℤ sum_of (kept_of w) db.boleto_payments) mine_kept)
          ∙ charged_back _ _ _
      | inr other ↦
          let now : wallet_balance w after ≡ wallet_balance w db = rw (paid, other) refl in
          let none_kept : kept_of w b ≡ pos 0 = rw (kept, other) refl in
          ap₂ ◌+ℤ◌ now (ap (λ k. k +ℤ sum_of (kept_of w) db.boleto_payments) none_kept ∙ add_zero _)
    ]

pub Effect-custody :
    {db e : Database} (w : ℕ) → HasDistinctPayments db → Effect db e → custody w e ≡ custody w db
unfolding wallet_by_id sum_of
Effect-custody w d (same p) = ap (custody w) p
Effect-custody {db} w d (marked id f b known _ _ kept p) =
    ap (custody w) p ∙ custody-rewritten id w f db d known (kept w)
Effect-custody {db} w d (repaid_to id f b v known _ open_ gone usdt hv p) =
    ap (custody w) p
    ∙ custody-repaid id w f db d known hv usdt (open_is_live b.status open_) (gone w)
Effect-custody {db} w d (created b _ kept p) =
    ap (custody w) p
    ∙ ap (λ s. wallet_balance w db +ℤ s)
        (ap (λ k. k +ℤ sum_of (kept_of w) db.boleto_payments) (kept w) ∙ add_zero _)
Effect-custody {db} w d (charged b v _ kept hv p) =
    ap (custody w) p ∙ custody-charged w db b (kept w) hv

new-HasDistinct :
    (b : BoletoPayment) (bs : List BoletoPayment)
    → any (by (λ b. b.id) b.id) bs ≡ false
    → HasDistinct (λ b. b.id) bs
    → HasDistinct (λ b. b.id) (b ∷ bs)
new-HasDistinct b bs fresh d = (
  find-by_of_any (λ b. b.id) (λ b c. c.id == b.id) b (λ c same. rw same (==_refl b.id)) bs fresh,
  d,
)

pub Effect-HasDistinct :
    {db e : Database} → HasDistinctPayments db → Effect db e → HasDistinctPayments e
Effect-HasDistinct d (same p) = rw p d
Effect-HasDistinct {db} d (marked id f b _ keep _ _ p) =
    rw p (update_where-HasDistinct (λ b. b.id) f keep id db.boleto_payments d)
Effect-HasDistinct {db} d (repaid_to id f b v _ keep _ _ _ _ p) =
    rw p (update_where-HasDistinct (λ b. b.id) f keep id db.boleto_payments d)
Effect-HasDistinct {db} d (created b fresh _ p) =
    rw p (new-HasDistinct b db.boleto_payments fresh d)
Effect-HasDistinct {db} d (charged b v fresh _ _ p) =
    rw p (new-HasDistinct b db.boleto_payments fresh d)

-- A row that is closed stays as it is.
rewritten_closed :
    (id k : ℕ) (f : BoletoPayment → BoletoPayment) (db : Database) {b c : BoletoPayment}
    → ((b : BoletoPayment) → (f b).id ≡ b.id)
    → payment_by_id id db ≡ some b
    → is_open b.status ≡ true
    → payment_by_id k db ≡ some c
    → is_open c.status ≡ false
    → payment_by_id k (rewritten id f db) ≡ some c
unfolding payment_by_id
rewritten_closed id k f db {b} {c} keep hb open_ hc closed =
    ground (arith, find-update_where (λ b. b.id) f keep id k db.boleto_payments)

added_closed :
    (k : ℕ) (b : BoletoPayment) (bs : List BoletoPayment) {c : BoletoPayment}
    → any (by (λ b. b.id) b.id) bs ≡ false
    → find (by (λ b. b.id) k) bs ≡ some c
    → find (by (λ b. b.id) k) (b ∷ bs) ≡ some c
unfolding find
added_closed k b bs fresh hc = ground (
  arith,
  find-by_of_any (λ b. b.id) (λ b c. c.id == b.id) b (λ c same. rw same (==_refl b.id)) bs fresh,
)

pub Effect-closed :
    {db e : Database} (k : ℕ) {c : BoletoPayment}
    → Effect db e
    → payment_by_id k db ≡ some c
    → is_open c.status ≡ false
    → payment_by_id k e ≡ some c
unfolding payment_by_id
Effect-closed k (same p) hc closed = rw p hc
Effect-closed {db} k (marked id f b known keep open_ _ p) hc closed =
    rw p (rewritten_closed id k f db keep known open_ hc closed)
Effect-closed {db} k (repaid_to id f b v known keep open_ _ _ _ p) hc closed =
    rw p
      (rewritten_closed id k f (repaid b.wallet_id b.crypto_amount db) keep known open_ hc closed)
Effect-closed {db} k (created b fresh _ p) hc closed =
    rw p (added_closed k b db.boleto_payments fresh hc)
Effect-closed {db} k (charged b v fresh _ _ p) hc closed =
    rw p (added_closed k b db.boleto_payments fresh hc)
