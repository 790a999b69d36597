-- ===== src/Kyc/Upgrades.antt =====
-- The requests for a higher KYC level: src/customers/kyc-upgrade.service.ts. The ids that the
-- database draws and the clock are arguments.
use otsem_api.Common.{
  ℕ, or_else, String, Bool, true, not, ◌&&◌, ◌||◌, Option, none, some, List, [], ◌∷◌, ◌==◌, leb,
  find, any, select, str_eq, template, trim, if◌then◌else◌,
}
use otsem_api.Database.Enums.{KycLevel, KycUpgradeRequestStatus, CustomerType, request_status_is}
use otsem_api.Database.Rows.{Customer, KycUpgradeRequest, Database}
use otsem_api.Database.Tables.{by, update_where}
use otsem_api.Database.Paging.{order_desc}
use otsem_api.Database.Queries.{customer_by_id}
use otsem_api.Database.Action.{
  Action, Error, bad_request, not_found, record_missing, unique_violation, foreign_key, pure,
  throw_if, gets, or_throw, modify, transaction, ◌>>=◌, ◌>>◌,
}

-- `levelOrder`
unfoldable pub level_order : KycLevel → ℕ
level_order KycLevel.level_1 = 1
level_order KycLevel.level_2 = 2
level_order KycLevel.level_3 = 3

abbrev pub level_text : KycLevel → String
level_text KycLevel.level_1 = "LEVEL_1"
level_text KycLevel.level_2 = "LEVEL_2"
level_text KycLevel.level_3 = "LEVEL_3"

unfoldable pub request_by_id : ℕ → Database → Option KycUpgradeRequest
request_by_id id db = find (by (λ r. r.id) id) db.kyc_upgrade_requests

-- `where: { customerId, status: 'PENDING' }`
abbrev pub is_pending_of : ℕ → KycUpgradeRequest → Bool
is_pending_of customer_id r =
    r.customer_id == customer_id && request_status_is r.status KycUpgradeRequestStatus.pending

-- `kycUpgradeRequest.create`
unfoldable pub insert_request : KycUpgradeRequest → Action KycUpgradeRequest
insert_request r = do
  throw_if (any (by (λ s. s.id) r.id) (← gets (λ db. db.kyc_upgrade_requests))) unique_violation
  modify λ db. record db { kyc_upgrade_requests = r ∷ db.kyc_upgrade_requests }
  pure r

-- The row that `createRequest` writes; a column left out of `data` is null.
abbrev pub draft_request :
    (id now customer_id : ℕ)
    → (current target : KycLevel) → List (String × String)
    → KycUpgradeRequest
draft_request id now customer_id current target documents = record {
  id = id;
  customer_id = customer_id;
  current_level = current;
  target_level = target;
  status = KycUpgradeRequestStatus.pending;
  documents = documents;
  admin_notes = none;
  reviewed_by = none;
  reviewed_at = none;
  created_at = now;
}

-- `createRequest`; its answer picks fields of the row.
unfoldable pub create_request :
    (id now : ℕ) → ℕ → KycLevel → List (String × String) → Action KycUpgradeRequest
create_request id now customer_id target_level documents = do
  customer ← or_throw (← gets (customer_by_id customer_id)) (not_found "Cliente não encontrado")
  let current_level = customer.kyc_level
  throw_if (leb (level_order target_level) (level_order current_level)) (
      bad_request (
        template (
          "Nível solicitado ("
          ∷ level_text target_level
          ∷ ") deve ser maior que o nível atual ("
          ∷ level_text current_level
          ∷ ")"
          ∷ [])))
  throw_if (any (is_pending_of customer_id) (← gets (λ db. db.kyc_upgrade_requests)))
      (bad_request "Já existe uma solicitação de upgrade pendente. Aguarde a análise.")
  insert_request (draft_request id now customer_id current_level target_level documents)

unfoldable pub get_my_requests : ℕ → Action (List KycUpgradeRequest)
get_my_requests customer_id = gets λ db.
    order_desc (λ r. r.created_at)
      (select (by (λ r. r.customer_id) customer_id) db.kyc_upgrade_requests)

abbrev pub request_fits : Option KycUpgradeRequestStatus → KycUpgradeRequest → Bool
request_fits none r = true
request_fits (some s) r = request_status_is r.status s

-- A request with the columns of its customer that the admin's lists show.
pub record RequestView : Type 0 where
  pub request : KycUpgradeRequest
  pub customer_name : String
  pub customer_email : String
  pub customer_document : Option String
  pub customer_type : CustomerType

abbrev request_view : KycUpgradeRequest → Customer → RequestView
request_view r c = record {
  request = r;
  customer_name = c.name;
  customer_email = c.email;
  customer_document = or_else c.cpf c.cnpj;
  customer_type = c.kind;
}

with_customers : List KycUpgradeRequest → Action (List RequestView)
with_customers [] = pure []
with_customers (r ∷ rs) = do
  c ← or_throw (← gets (customer_by_id r.customer_id)) foreign_key
  views ← with_customers rs
  pure (request_view r c ∷ views)

unfoldable pub list_requests : Option KycUpgradeRequestStatus → Action (List RequestView)
unfolding with_customers
list_requests status = do
  rows ←
      gets
        λ db. order_desc (λ r. r.created_at) (select (request_fits status) db.kyc_upgrade_requests)
  with_customers rows

unfoldable pub get_request_details : ℕ → Action RequestView
get_request_details request_id = do
  r ← or_throw (← gets (request_by_id request_id)) (not_found "Solicitação não encontrada")
  c ← or_throw (← gets (customer_by_id r.customer_id)) foreign_key
  pure (request_view r c)

-- `kycUpgradeRequest.update({ where: { id }, data })`
unfoldable pub update_request : ℕ → (KycUpgradeRequest → KycUpgradeRequest) → Action (Unit {0})
update_request id f = do
  or_throw (← gets (request_by_id id)) record_missing
  modify λ db. record db {
    kyc_upgrade_requests = update_where (by (λ r. r.id) id) f db.kyc_upgrade_requests;
  }

abbrev pub with_level : KycLevel → Customer → Customer
with_level l c = record c { kyc_level = l }

-- `customer.update({ where: { id }, data: { kycLevel } })`
unfoldable pub set_level : ℕ → KycLevel → Action (Unit {0})
set_level id l = do
  or_throw (← gets (customer_by_id id)) record_missing
  modify
      λ db. record db { customers = update_where (by (λ c. c.id) id) (with_level l) db.customers }

-- The refusal of a request that was reviewed before.
abbrev pub reviewed_error : KycUpgradeRequestStatus → Error
reviewed_error s = bad_request (
    template (
      "Solicitação já foi "
      ∷ (if request_status_is s KycUpgradeRequestStatus.approved then "aprovada" else "rejeitada")
      ∷ []))

abbrev pub approved_by : (now : ℕ) → String → KycUpgradeRequest → KycUpgradeRequest
approved_by now admin_email r = record r {
  status = KycUpgradeRequestStatus.approved;
  reviewed_by = some admin_email;
  reviewed_at = some now;
}

abbrev pub rejected_by : (now : ℕ) → String → String → KycUpgradeRequest → KycUpgradeRequest
rejected_by now admin_email reason r = record r {
  status = KycUpgradeRequestStatus.rejected;
  admin_notes = some reason;
  reviewed_by = some admin_email;
  reviewed_at = some now;
}

-- The two writes of `approveRequest`, in one `$transaction`.
unfoldable pub grant_level : (now : ℕ) → ℕ → String → KycUpgradeRequest → Action (Unit {0})
grant_level now request_id admin_email request = transaction (do
  update_request request_id (approved_by now admin_email)
  set_level request.customer_id request.target_level)

unfoldable pub approve_request : (now : ℕ) → ℕ → String → Action (Unit {0})
approve_request now request_id admin_email = do
  request ← or_throw (← gets (request_by_id request_id)) (not_found "Solicitação não encontrada")
  throw_if (not (request_status_is request.status KycUpgradeRequestStatus.pending))
      (reviewed_error request.status)
  grant_level now request_id admin_email request

unfoldable pub reject_request : (now : ℕ) → ℕ → String → String → Action (Unit {0})
reject_request now request_id admin_email reason = do
  throw_if (str_eq reason "" || str_eq (trim reason) "")
      (bad_request "Motivo da rejeição é obrigatório")
  request ← or_throw (← gets (request_by_id request_id)) (not_found "Solicitação não encontrada")
  throw_if (not (request_status_is request.status KycUpgradeRequestStatus.pending))
      (reviewed_error request.status)
  update_request request_id (rejected_by now admin_email reason)
