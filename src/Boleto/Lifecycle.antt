-- ===== src/Boleto/Lifecycle.antt =====
-- The calls on boleto payments as steps, in any order, and what they keep.
use otsem_api.Common.{
  ℕ, pos, String, true, false, ◌≡◌, refl, ◌∙◌, sym, Option, some, arith, any, Option-cases, inl,
  inr,
}
use otsem_api.Numbers.{Numbers}
use otsem_api.Database.Enums.{BoletoPaymentStatus, boleto_status_is}
use otsem_api.Database.Rows.{BoletoPayment, Database}
use otsem_api.Database.Action.{Result, ok, err}
use otsem_api.Database.Tables.{by}
use otsem_api.Boleto.Quotes.{Market}
use otsem_api.Boleto.Payments.{
  wallet_by_id, payment_by_id, payment_of_customer, with_status, create_boleto_payment,
  cancel_boleto_payment,
}
use otsem_api.Boleto.Admin.{
  is_open, admin_mark_as_paid, admin_mark_as_processing, admin_reject_boleto_payment, marked_paid,
  marked_refunded,
}
use otsem_api.Boleto.Custody.{kept_of, kept_of_live, custody, is_given_back, HasDistinctPayments}
use otsem_api.Boleto.Refunds.{
  GivesBack, kept_of_foreign, kept_of-cancelled, kept_of_refunded, cancel-GivesBack,
  reject-GivesBack, Marks, admin_mark_as_paid-Marks, admin_mark_as_processing-Marks, cancel_unknown,
  reject_unknown, paid_unknown, processing_unknown, payment_of_customer_id,
}
use otsem_api.Boleto.Creation.{Creates, create_boleto_payment-Creates}
use otsem_api.Boleto.Effects.{Effect, Effect-custody, Effect-HasDistinct, Effect-closed}

-- A call of the service: any arguments, but a new payment has a new id.
pub data Step {N : Numbers} (market : Market N) (db : Database) : Database → Type 0 where
  create :
      (id now customer_id : ℕ) (barcode : String) (amount : N.Number) (wallet_id : ℕ)
      (currency : String) (description : Option String)
      → any (by (λ b. b.id) id) db.boleto_payments ≡ false
      → Step market db
          (create_boleto_payment market id now customer_id barcode amount wallet_id currency
            description db).1
  cancel : (id customer_id : ℕ) → Step market db (cancel_boleto_payment id customer_id db).1
  mark_paid :
      (now id admin_user_id : ℕ) (notes : Option String)
      → Step market db (admin_mark_as_paid now id admin_user_id notes db).1
  mark_processing : (id : ℕ) → Step market db (admin_mark_as_processing id db).1
  reject :
      (id : ℕ) (reason : Option String)
      → Step market db (admin_reject_boleto_payment id reason db).1

pub data Reach {N : Numbers} (market : Market N) (db : Database) : Database → Type 0 where
  here : Reach market db db
  next : {d e : Database} → Reach market db d → Step market d e → Reach market db e

pending_is_live :
    (s : BoletoPaymentStatus) → s ≡ BoletoPaymentStatus.pending_approval → is_given_back s ≡ false
unfolding is_given_back boleto_status_is
pending_is_live s h = rw h refl

kept_of_paid :
    (now admin : ℕ) (notes : Option String) (b : BoletoPayment)
    → is_open b.status ≡ true
    → (w : ℕ) → kept_of w (marked_paid now admin notes b) ≡ kept_of w b
unfolding kept_of is_given_back boleto_status_is is_open
kept_of_paid now admin notes b open_ w = ground arith

kept_of_processing :
    (b : BoletoPayment)
    → is_open b.status ≡ true
    → (w : ℕ) → kept_of w (with_status BoletoPaymentStatus.admin_paying b) ≡ kept_of w b
unfolding kept_of is_given_back boleto_status_is is_open
kept_of_processing b open_ w = ground arith

GivesBack-Effect :
    (id : ℕ) (f : BoletoPayment → BoletoPayment) (b : BoletoPayment) (db e : Database)
    → payment_by_id id db ≡ some b
    → ((b : BoletoPayment) → (f b).id ≡ b.id)
    → ((w : ℕ) → kept_of w (f b) ≡ pos 0)
    → GivesBack db id f b e
    → Effect db e
GivesBack-Effect id f b db e known keep gone (inl p) = Effect.same p
GivesBack-Effect id f b db e known keep gone (inr (inl (open_, usdt, found, p))) =
    elim (Option-cases (wallet_by_id b.wallet_id db)) [
      | inl missing ↦ absurd (found missing)
      | inr (v, hv) ↦ Effect.repaid_to id f b v known keep open_ gone usdt hv p
    ]
GivesBack-Effect id f b db e known keep gone (inr (inr (open_, foreign, p))) =
    Effect.marked id f b known keep open_ (λ w. gone w ∙ sym (kept_of_foreign w b foreign)) p

Marks-Effect :
    (id : ℕ) (f : BoletoPayment → BoletoPayment) (b : BoletoPayment) (db e : Database)
    → payment_by_id id db ≡ some b
    → ((b : BoletoPayment) → (f b).id ≡ b.id)
    → (is_open b.status ≡ true → (w : ℕ) → kept_of w (f b) ≡ kept_of w b)
    → Marks db id f b e
    → Effect db e
Marks-Effect id f b db e known keep kept (inl p) = Effect.same p
Marks-Effect id f b db e known keep kept (inr (open_, p)) =
    Effect.marked id f b known keep open_ (kept open_) p

Creates-Effect :
    (id wallet_id : ℕ) (currency : String) (db : Database) (x : Result BoletoPayment × Database)
    → any (by (λ b. b.id) id) db.boleto_payments ≡ false
    → Creates db id wallet_id currency x
    → Effect db x.1
Creates-Effect id wallet_id currency db (err _, e) fresh p = Effect.same p
Creates-Effect id wallet_id currency db (ok b, e) fresh (i, _, _, s, inl (usdt, found, p)) =
    elim (Option-cases (wallet_by_id b.wallet_id db)) [
      | inl missing ↦ absurd (found missing)
      | inr (v, hv) ↦
          Effect.charged b v (rw i fresh) (λ w. kept_of_live w b usdt (pending_is_live b.status s))
            hv p
    ]
Creates-Effect id wallet_id currency db (ok b, e) fresh (i, _, _, s, inr (foreign, p)) =
    Effect.created b (rw i fresh) (λ w. kept_of_foreign w b foreign) p

cancel_boleto_payment-Effect :
    (id customer_id : ℕ) (db : Database)
    → HasDistinctPayments db
    → Effect db (cancel_boleto_payment id customer_id db).1
cancel_boleto_payment-Effect id customer_id db d =
    elim (Option-cases (payment_of_customer id customer_id db)) [
      | inl missing ↦ Effect.same (cancel_unknown id db customer_id missing)
      | inr (b, found) ↦
          let known = payment_of_customer_id id customer_id db d found in
          GivesBack-Effect id (with_status BoletoPaymentStatus.cancelled) b db _ known (λ _. refl)
            (λ w. kept_of-cancelled w b) (cancel-GivesBack id customer_id db found known)
    ]

reject-Effect :
    (id : ℕ) (reason : Option String) (db : Database)
    → Effect db (admin_reject_boleto_payment id reason db).1
reject-Effect id reason db = elim (Option-cases (payment_by_id id db)) [
  | inl missing ↦ Effect.same (reject_unknown id db reason missing)
  | inr (b, known) ↦
      GivesBack-Effect id (marked_refunded reason) b db _ known (λ _. refl)
        (λ w. kept_of_refunded w b reason) (reject-GivesBack id reason db known)
]

mark_paid-Effect :
    (now id admin_user_id : ℕ) (notes : Option String) (db : Database)
    → Effect db (admin_mark_as_paid now id admin_user_id notes db).1
mark_paid-Effect now id admin notes db = elim (Option-cases (payment_by_id id db)) [
  | inl missing ↦ Effect.same (paid_unknown id db now admin notes missing)
  | inr (b, known) ↦
      Marks-Effect id (marked_paid now admin notes) b db _ known (λ _. refl)
        (kept_of_paid now admin notes b) (admin_mark_as_paid-Marks now id admin notes db known)
]

mark_processing-Effect : (id : ℕ) (db : Database) → Effect db (admin_mark_as_processing id db).1
mark_processing-Effect id db = elim (Option-cases (payment_by_id id db)) [
  | inl missing ↦ Effect.same (processing_unknown id db missing)
  | inr (b, known) ↦
      Marks-Effect id (with_status BoletoPaymentStatus.admin_paying) b db _ known (λ _. refl)
        (kept_of_processing b) (admin_mark_as_processing-Marks id db known)
]

module _ {N : Numbers} {market : Market N} where
  Step-Effect : {d e : Database} → HasDistinctPayments d → Step market d e → Effect d e
  Step-Effect {d} dist (create id now u barcode amount wallet currency text fresh) =
      Creates-Effect id wallet currency d _ fresh
        (create_boleto_payment-Creates market id now u barcode amount wallet currency text d fresh)
  Step-Effect {d} dist (cancel id u) = cancel_boleto_payment-Effect id u d dist
  Step-Effect {d} dist (mark_paid now id admin notes) = mark_paid-Effect now id admin notes d
  Step-Effect {d} dist (mark_processing id) = mark_processing-Effect id d
  Step-Effect {d} dist (reject id reason) = reject-Effect id reason d

  Reach-HasDistinct :
      {s d : Database} → HasDistinctPayments s → Reach market s d → HasDistinctPayments d
  Reach-HasDistinct c here = c
  Reach-HasDistinct c (next r st) =
      let d = Reach-HasDistinct c r in Effect-HasDistinct d (Step-Effect d st)

  -- No sequence of calls makes or loses the USDT of a wallet: its balance and what its payments
  -- that were not given back keep add up to the same, from a database with unique payment ids, where
  -- every new payment has a new id.
  pub Reach-custody :
      {s d : Database} (w : ℕ)
      → HasDistinctPayments s
      → Reach market s d
      → custody w d ≡ custody w s
  Reach-custody w c here = refl
  Reach-custody w c (next r st) =
      let d = Reach-HasDistinct c r in Effect-custody w d (Step-Effect d st) ∙ Reach-custody w c r

  -- A payment that is neither pending nor being paid keeps its whole row through any sequence of
  -- calls, from a database with unique payment ids, where every new payment has a new id: it is
  -- never paid, refunded or cancelled again.
  pub Reach-closed :
      {s d : Database} (id : ℕ) {b : BoletoPayment}
      → HasDistinctPayments s
      → payment_by_id id s ≡ some b
      → is_open b.status ≡ false
      → Reach market s d
      → payment_by_id id d ≡ some b
  Reach-closed id c known closed here = known
  Reach-closed id c known closed (next r st) =
      Effect-closed id (Step-Effect (Reach-HasDistinct c r) st) (Reach-closed id c known closed r)
        closed
