-- ===== src/Boleto/Admin.antt =====
-- The admin's calls of src/boleto-payments/boleto-payments.service.ts.
use otsem_api.Common.{
  or_kept, ℕ, ℤ, String, Bool, true, not, ◌&&◌, ◌||◌, Option, none, some, [], ◌∷◌, template, ◌==◌,
  select, length, or_text,
}
use otsem_api.Database.Enums.{BoletoPaymentStatus, boleto_status_is}
use otsem_api.Database.Rows.{BoletoPayment}
use otsem_api.Database.Tables.{sum_of}
use otsem_api.Database.Paging.{Page, page_of}
use otsem_api.Database.Action.{
  Action, Error, bad_request, not_found, throw_if, gets, or_throw, ◌>>=◌, ◌>>◌,
}
use otsem_api.Boleto.Payments.{payment_by_id, update_payment, with_status, refund, status_fits}

-- Pending or being paid: the admin may still pay or reject.
unfoldable pub is_open : BoletoPaymentStatus → Bool
is_open s =
    boleto_status_is s BoletoPaymentStatus.pending_approval
    || boleto_status_is s BoletoPaymentStatus.admin_paying

abbrev pub marked_paid : (now : ℕ) → ℕ → Option String → BoletoPayment → BoletoPayment
marked_paid now admin_user_id admin_notes b = record b {
  status = BoletoPaymentStatus.paid;
  admin_notes = or_kept admin_notes b.admin_notes;
  paid_by_admin_at = some now;
  paid_by_admin_id = some admin_user_id;
}

-- A status as the database spells it.
pub status_text : BoletoPaymentStatus → String
status_text BoletoPaymentStatus.pending_approval = "PENDING_APPROVAL"
status_text BoletoPaymentStatus.admin_paying = "ADMIN_PAYING"
status_text BoletoPaymentStatus.paid = "PAID"
status_text BoletoPaymentStatus.failed = "FAILED"
status_text BoletoPaymentStatus.refunded = "REFUNDED"
status_text BoletoPaymentStatus.cancelled = "CANCELLED"

pub refusal : String → BoletoPaymentStatus → Error
refusal text s = bad_request (template (text ∷ " Status atual: " ∷ status_text s ∷ []))

unfoldable pub admin_mark_as_paid : (now : ℕ) → ℕ → ℕ → Option String → Action BoletoPayment
admin_mark_as_paid now id admin_user_id admin_notes = do
  payment ← or_throw (← gets (payment_by_id id)) (not_found "Pagamento de boleto não encontrado")
  throw_if (not (is_open payment.status))
      (refusal "Não é possível marcar como pago." payment.status)
  update_payment id (marked_paid now admin_user_id admin_notes)

unfoldable pub admin_mark_as_processing : ℕ → Action BoletoPayment
admin_mark_as_processing id = do
  payment ← or_throw (← gets (payment_by_id id)) (not_found "Pagamento de boleto não encontrado")
  throw_if (not (boleto_status_is payment.status BoletoPaymentStatus.pending_approval))
      (refusal "Não é possível iniciar processamento." payment.status)
  update_payment id (with_status BoletoPaymentStatus.admin_paying)

abbrev pub marked_refunded : Option String → BoletoPayment → BoletoPayment
marked_refunded reason b = record b {
  status = BoletoPaymentStatus.refunded;
  error_message = some (or_text reason "Rejeitado pelo administrador");
}

unfoldable pub admin_reject_boleto_payment : ℕ → Option String → Action BoletoPayment
admin_reject_boleto_payment id reason = do
  payment ← or_throw (← gets (payment_by_id id)) (not_found "Pagamento de boleto não encontrado")
  throw_if (not (is_open payment.status)) (refusal "Não é possível rejeitar." payment.status)
  refund payment
  update_payment id (marked_refunded reason)

abbrev customer_fits : Option ℕ → BoletoPayment → Bool
customer_fits none b = true
customer_fits (some id) b = b.customer_id == id

unfoldable pub admin_list_boleto_payments :
    Option BoletoPaymentStatus → Option ℕ → (page limit : ℕ) → Action (Page BoletoPayment)
admin_list_boleto_payments status customer_id page limit = gets λ db.
    page_of (λ b. b.created_at) (λ b. status_fits status b && customer_fits customer_id b) page
      limit db.boleto_payments

pub record Stats : Type 0 where
  pub total_count : ℕ
  pub pending_count : ℕ
  pub paid_count : ℕ
  pub total_brl_paid : ℤ
  pub total_fees_collected : ℤ

abbrev is_paid : BoletoPayment → Bool
is_paid b = boleto_status_is b.status BoletoPaymentStatus.paid

unfoldable pub admin_get_stats : Action Stats
unfolding is_open
admin_get_stats = gets λ db. record {
  total_count = length db.boleto_payments;
  pending_count = length (select (λ b. is_open b.status) db.boleto_payments);
  paid_count = length (select is_paid db.boleto_payments);
  total_brl_paid = sum_of (λ b. b.total_brl) (select is_paid db.boleto_payments);
  total_fees_collected = sum_of (λ b. b.service_fee) (select is_paid db.boleto_payments);
}
