-- ===== src/Kyc/Advances.antt =====
-- What the calls of src/customers/kyc-upgrade.service.ts do to requests and levels.
use otsem_api.Common.{
  ℕ, String, ◌≡◌, refl, ap, subst, ◌∙◌, ◌⊎◌, inl, inr, true, false, none, some, List, [], ◌∷◌,
  arith, ◌≤◌, ltb, ◌==◌, any, select, Option-cases, Bool-cases, ==_sound, ==_refl,
}
use otsem_api.Database.Enums.{KycLevel, KycUpgradeRequestStatus, request_status_is}
use otsem_api.Database.Rows.{Customer, KycUpgradeRequest, Database}
use otsem_api.Database.Queries.{customer_by_id}
use otsem_api.Kyc.Upgrades.{
  level_order, is_pending_of, request_by_id, draft_request, approved_by, rejected_by,
  create_request, insert_request, approve_request, reject_request, update_request, set_level,
  grant_level,
}
use otsem_api.Kyc.Pending.{select_none}
use otsem_api.Kyc.Orderly.{
  pending, Awaits, IsOrderly, level_at, asked, closed, leveled, closed-IsOrderly, granted-IsOrderly,
  granted-level_at, closed_customer,
}

-- What a call may do to the requests and levels.
abbrev pub Advances : Database → Database → Type 0
Advances db db' = IsOrderly db' × ((k : ℕ) → level_at k db ≤ level_at k db')

stays : {db db' : Database} → IsOrderly db → db' ≡ db → Advances db db'
stays {db} o e = rw e (o, λ k. omega arith)

module _ (id now u : ℕ) (target : KycLevel) (documents : List (String × String)) (db : Database)
    (c : Customer) where
  abbrev drafted : Database
  drafted = asked (draft_request id now u c.kyc_level target documents) db

  asked_customer : (k : ℕ) → customer_by_id k drafted ≡ customer_by_id k db
  unfolding customer_by_id
  asked_customer k = refl

  asked_self :
      pending u db ≡ []
      → pending u drafted ≡ draft_request id now u c.kyc_level target documents ∷ []
  unfolding select request_status_is
  asked_self h =
      rw (==_refl u) (ap (λ l. draft_request id now u c.kyc_level target documents ∷ l) h)

  asked_other : (k : ℕ) → (u == k) ≡ false → pending k drafted ≡ pending k db
  unfolding select
  asked_other k h = rw h refl

  asked-level_at : (k : ℕ) → level_at k db ≤ level_at k drafted
  asked-level_at k = rw (asked_customer k) (omega arith)

  asked-IsOrderly :
      customer_by_id u db ≡ some c
      → ltb (level_order c.kyc_level) (level_order target) ≡ true
      → any (is_pending_of u) db.kyc_upgrade_requests ≡ false
      → IsOrderly db
      → IsOrderly drafted
  asked-IsOrderly known less free o k = elim (Bool-cases (u == k)) [
    | inl same ↦
        subst (λ j. (pending j drafted ≡ []) ⊎ ((r : KycUpgradeRequest) × Awaits j drafted r))
          (==_sound u k same)
          (inr (
            draft_request id now u c.kyc_level target documents,
            (
              asked_self (select_none (is_pending_of u) db.kyc_upgrade_requests free),
              c,
              asked_customer u ∙ known,
              refl,
              less,
            ),
          ))
    | inr other ↦ elim (o k) [
      | inl none_left ↦ inl (asked_other k other ∙ none_left)
      | inr (r, (p, d, e, l, m)) ↦ inr (r, (asked_other k other ∙ p, d, asked_customer k ∙ e, l, m))
    ]
  ]

create_request-cases :
    (id now u : ℕ) (target : KycLevel) (documents : List (String × String)) (db : Database)
    {c : Customer}
    → customer_by_id u db ≡ some c
    → ((create_request id now u target documents db).1 ≡ db)
      ⊎ ((ltb (level_order c.kyc_level) (level_order target) ≡ true)
          × (any (is_pending_of u) db.kyc_upgrade_requests ≡ false)
          × ((create_request id now u target documents db).1
              ≡ asked (draft_request id now u c.kyc_level target documents) db))
unfolding create_request insert_request
create_request-cases id now u target documents db {c} known = ground arith

create_request_unknown :
    (id now u : ℕ) (target : KycLevel) (documents : List (String × String)) (db : Database)
    → customer_by_id u db ≡ none
    → (create_request id now u target documents db).1 ≡ db
unfolding create_request
create_request_unknown id now u target documents db e = ground arith

-- A reviewed request stays reviewed.
pub approve_request-cases :
    (now id : ℕ) (email : String) (db : Database) {r : KycUpgradeRequest}
    → request_by_id id db ≡ some r
    → ((approve_request now id email db).1 ≡ db)
      ⊎ ((request_status_is r.status KycUpgradeRequestStatus.pending ≡ true)
          × ((approve_request now id email db).1
              ≡ leveled r.customer_id r.target_level (closed id (approved_by now email) db)))
unfolding approve_request grant_level update_request set_level
approve_request-cases now id email db {r} known = ground arith

approve_request_unknown :
    (now id : ℕ) (email : String) (db : Database)
    → request_by_id id db ≡ none
    → (approve_request now id email db).1 ≡ db
unfolding approve_request
approve_request_unknown now id email db e = ground arith

reject_request-cases :
    (now id : ℕ) (email reason : String) (db : Database)
    → ((reject_request now id email reason db).1 ≡ db)
      ⊎ ((reject_request now id email reason db).1 ≡ closed id (rejected_by now email reason) db)
unfolding reject_request update_request
reject_request-cases now id email reason db = ground arith

pub approved_closes :
    (now : ℕ) (email : String) (k : ℕ) (r : KycUpgradeRequest)
    → is_pending_of k (approved_by now email r) ≡ false
unfolding request_status_is
approved_closes now email k r = ground arith

rejected_closes :
    (now : ℕ) (email reason : String) (k : ℕ) (r : KycUpgradeRequest)
    → is_pending_of k (rejected_by now email reason r) ≡ false
unfolding request_status_is
rejected_closes now email reason k r = ground arith

closed-level_at :
    (id : ℕ) (f : KycUpgradeRequest → KycUpgradeRequest) (k : ℕ) (db : Database)
    → level_at k db ≤ level_at k (closed id f db)
closed-level_at id f k db = rw (closed_customer id f k db) (omega arith)

pub create_request-Advances :
    (id now u : ℕ) (target : KycLevel) (documents : List (String × String)) (db : Database)
    → IsOrderly db
    → Advances db (create_request id now u target documents db).1
create_request-Advances id now u target documents db o = elim (Option-cases (customer_by_id u db)) [
  | inl e ↦ stays o (create_request_unknown id now u target documents db e)
  | inr (c, known) ↦ elim (create_request-cases id now u target documents db known) [
    | inl same ↦ stays o same
    | inr (less, free, e) ↦ rw e (
      asked-IsOrderly id now u target documents db c known less free o,
      asked-level_at id now u target documents db c,
    )
  ]
]

pub approve_request-Advances :
    (now id : ℕ) (email : String) (db : Database)
    → IsOrderly db
    → Advances db (approve_request now id email db).1
approve_request-Advances now id email db o = elim (Option-cases (request_by_id id db)) [
  | inl e ↦ stays o (approve_request_unknown now id email db e)
  | inr (r, known) ↦ elim (approve_request-cases now id email db known) [
    | inl same ↦ stays o same
    | inr (waits, e) ↦
        let closes = approved_closes now email in
        rw e (
          granted-IsOrderly id (approved_by now email) closes db known waits o,
          λ k. granted-level_at id (approved_by now email) db k known waits o,
        )
  ]
]

pub reject_request-Advances :
    (now id : ℕ) (email reason : String) (db : Database)
    → IsOrderly db
    → Advances db (reject_request now id email reason db).1
reject_request-Advances now id email reason db o =
    elim (reject_request-cases now id email reason db) [
      | inl same ↦ stays o same
      | inr e ↦
          let f = rejected_by now email reason in
          rw e (
            closed-IsOrderly id f (rejected_closes now email reason) db o,
            λ k. closed-level_at id f k db,
          )
    ]
