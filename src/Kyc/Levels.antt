-- ===== src/Kyc/Levels.antt =====
-- Every sequence of calls of src/customers/kyc-upgrade.service.ts. `upgradeKycLevel` of
-- src/customers/kyc-limits.service.ts, by which an admin sets any level, is not one of them.
use otsem_api.Common.{
  ℕ, String, ◌≡◌, refl, ap, ◌∙◌, ◌⊎◌, inl, inr, false, ◌||◌, some, List, [], arith, ◌≤◌, length,
  ==_refl, str_eq, trim,
}
use otsem_api.Database.Enums.{KycLevel, KycUpgradeRequestStatus, request_status_is}
use otsem_api.Database.Rows.{KycUpgradeRequest, Database}
use otsem_api.Database.Action.{ok, err}
use otsem_api.Kyc.Upgrades.{
  request_by_id, approved_by, create_request, approve_request, reject_request, update_request,
  set_level, grant_level, reviewed_error,
}
use otsem_api.Kyc.Orderly.{pending, Awaits, IsOrderly, level_at, closed, leveled}
use otsem_api.Kyc.Advances.{
  Advances, create_request-Advances, approve_request-Advances, reject_request-Advances,
}
use otsem_api.Database.Tables.{find-update_where}

-- One call of the service.
pub data Step (db : Database) : Database → Type 0 where
  create :
      (id now customer_id : ℕ) (target : KycLevel) (documents : List (String × String))
      → Step db (create_request id now customer_id target documents db).1
  approve : (now id : ℕ) (email : String) → Step db (approve_request now id email db).1
  reject : (now id : ℕ) (email reason : String) → Step db (reject_request now id email reason db).1

pub data Reach (db : Database) : Database → Type 0 where
  here : Reach db db
  next : {d e : Database} → Reach db d → Step d e → Reach db e

Step-Advances : {d e : Database} → IsOrderly d → Step d e → Advances d e
Step-Advances {d} o (create id now u target documents) =
    create_request-Advances id now u target documents d o
Step-Advances {d} o (approve now id email) = approve_request-Advances now id email d o
Step-Advances {d} o (reject now id email reason) = reject_request-Advances now id email reason d o

Reach-Advances : {s d : Database} → IsOrderly s → Reach s d → Advances s d
Reach-Advances o here = (o, λ k. omega arith)
Reach-Advances {s} o (next {d} {e} r st) =
    let before = Reach-Advances o r in
    let after = Step-Advances before.0 st in
    (after.0, λ k. let a = before.1 k in let b = after.1 k in omega arith)

approved_row :
    (now id : ℕ) (email : String) (db : Database) {r : KycUpgradeRequest}
    → request_by_id id db ≡ some r
    → request_by_id id (closed id (approved_by now email) db) ≡ some (approved_by now email r)
unfolding request_by_id
approved_row now id email db {r} e =
    find-update_where (λ s. s.id) (approved_by now email) (λ s. refl) id id db.kyc_upgrade_requests
    ∙ rw (==_refl id, e) refl

refused :
    (now id : ℕ) (email reason : String) (db : Database) (r : KycUpgradeRequest)
    → request_by_id id db ≡ some r
    → r.status ≡ KycUpgradeRequestStatus.approved
    → (str_eq reason "" || str_eq (trim reason) "") ≡ false
    → (approve_request now id email db
        ≡ (err (reviewed_error KycUpgradeRequestStatus.approved), db))
      × (reject_request now id email reason db
          ≡ (err (reviewed_error KycUpgradeRequestStatus.approved), db))
unfolding approve_request reject_request request_status_is
refused now id email reason db r e s h = ground arith

at_most_one :
    (k : ℕ) (db : Database)
    → (pending k db ≡ []) ⊎ ((r : KycUpgradeRequest) × Awaits k db r)
    → length (pending k db) ≤ 1
at_most_one k db (inl e) = rw e (omega arith)
at_most_one k db (inr (r, (e, _, _, _, _))) = rw e (omega arith)

-- No sequence of calls gives a customer a second pending request, from a database where each
-- customer has at most one, which fits the customer's level.
pub Reach-one_pending :
    {s d : Database} (k : ℕ) → IsOrderly s → Reach s d → length (pending k d) ≤ 1
Reach-one_pending {s} {d} k o r = at_most_one k d ((Reach-Advances o r).0 k)

-- No sequence of calls lowers the KYC level of a customer, from a database where each customer has
-- at most one pending request, which fits the customer's level.
pub Reach-levels_rise :
    {s d : Database} (k : ℕ) → IsOrderly s → Reach s d → level_at k s ≤ level_at k d
Reach-levels_rise k o r = (Reach-Advances o r).1 k

granted :
    (now id : ℕ) (email : String) (db : Database) {r : KycUpgradeRequest} {db' : Database}
    → request_by_id id db ≡ some r
    → approve_request now id email db ≡ (ok tt, db')
    → db' ≡ leveled r.customer_id r.target_level (closed id (approved_by now email) db)
unfolding approve_request grant_level update_request set_level
granted now id email db {r} {db'} e h = ground arith

leveled_row :
    (id u : ℕ) (l : KycLevel) (db : Database)
    → request_by_id id (leveled u l db) ≡ request_by_id id db
unfolding request_by_id
leveled_row id u l db = refl

-- Once a request has been approved, approving it again and rejecting it with a reason both raise
-- "já foi aprovada" and write nothing.
pub approve_request_once :
    (now later id : ℕ) (email other reason : String) (db : Database) {r : KycUpgradeRequest}
    {db' : Database}
    → request_by_id id db ≡ some r
    → approve_request now id email db ≡ (ok tt, db')
    → (str_eq reason "" || str_eq (trim reason) "") ≡ false
    → (approve_request later id other db'
        ≡ (err (reviewed_error KycUpgradeRequestStatus.approved), db'))
      × (reject_request later id other reason db'
          ≡ (err (reviewed_error KycUpgradeRequestStatus.approved), db'))
approve_request_once now later id email other reason db {r} {db'} e h given =
    let found : request_by_id id db' ≡ some (approved_by now email r) =
      ap (request_by_id id) (granted now id email db e h)
      ∙ leveled_row id r.customer_id r.target_level (closed id (approved_by now email) db)
      ∙ approved_row now id email db e in
    refused later id other reason db' (approved_by now email r) found refl given
