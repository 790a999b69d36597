-- ===== src/Kyc/Orderly.antt =====
-- A well-formed set of upgrade requests, and what closing one of them does to it.
use otsem_api.Common.{
  ℕ, ◌≡◌, ◌≢◌, refl, sym, subst, ap, ◌∙◌, ◌⊎◌, inl, inr, true, false, not, Option, none, some, List,
  [], ◌∷◌, arith, ◌==◌, ltb, find, select, if◌then◌else◌, Bool-cases, ◌≤◌, ==_sound, ==_refl,
}
use otsem_api.Database.Enums.{KycLevel, KycUpgradeRequestStatus, request_status_is}
use otsem_api.Database.Rows.{Customer, KycUpgradeRequest, Database}
use otsem_api.Database.Tables.{by, update_where, find-update_where}
use otsem_api.Database.Queries.{customer_by_id}
use otsem_api.Kyc.Upgrades.{level_order, is_pending_of, request_by_id, with_level}
use otsem_api.Kyc.Pending.{select-update_where, find-select}

abbrev pub pending : ℕ → Database → List KycUpgradeRequest
pending k db = select (is_pending_of k) db.kyc_upgrade_requests

-- `r` is the only pending request of its customer, asks for more than the customer has, and says
-- which level the customer has.
abbrev pub Awaits : ℕ → Database → KycUpgradeRequest → Type 0
Awaits k db r =
    (pending k db ≡ r ∷ [])
    × (c : Customer) × (customer_by_id k db ≡ some c)
    × (c.kyc_level ≡ r.current_level)
    × (ltb (level_order r.current_level) (level_order r.target_level) ≡ true)

-- No customer has two pending requests, and a pending one fits its customer.
abbrev pub IsOrderly : Database → Type 0
IsOrderly db = (k : ℕ) → (pending k db ≡ []) ⊎ ((r : KycUpgradeRequest) × Awaits k db r)

abbrev pub level_or_zero : Option Customer → ℕ
level_or_zero none = 0
level_or_zero (some c) = level_order c.kyc_level

-- The rank of a customer's level; 0 where there is no such customer.
abbrev pub level_at : ℕ → Database → ℕ
level_at k db = level_or_zero (customer_by_id k db)

abbrev pub asked : KycUpgradeRequest → Database → Database
asked r db = record db { kyc_upgrade_requests = r ∷ db.kyc_upgrade_requests }

abbrev pub closed : ℕ → (KycUpgradeRequest → KycUpgradeRequest) → Database → Database
closed id f db = record db {
  kyc_upgrade_requests = update_where (by (λ r. r.id) id) f db.kyc_upgrade_requests;
}

abbrev pub leveled : ℕ → KycLevel → Database → Database
leveled u l db = record db {
  customers = update_where (by (λ c. c.id) u) (with_level l) db.customers;
}

module _ (id : ℕ) (f : KycUpgradeRequest → KycUpgradeRequest) where
  module _ (closes : (k : ℕ) (r : KycUpgradeRequest) → is_pending_of k (f r) ≡ false) where
    pending-closed :
        (k : ℕ) (db : Database)
        → pending k (closed id f db) ≡ select (λ r. not (r.id == id)) (pending k db)
    pending-closed k db =
        select-update_where (is_pending_of k) (by (λ r. r.id) id) f (closes k)
          db.kyc_upgrade_requests

    closed_none : (k : ℕ) (db : Database) → pending k db ≡ [] → pending k (closed id f db) ≡ []
    unfolding select
    closed_none k db h = pending-closed k db ∙ ap (select (λ r. not (r.id == id))) h

    closed_one :
        (k : ℕ) (db : Database) (r : KycUpgradeRequest)
        → pending k db ≡ r ∷ []
        → pending k (closed id f db) ≡ (if not (r.id == id) then r ∷ [] else [])
    unfolding select
    closed_one k db r h = pending-closed k db ∙ ap (select (λ r. not (r.id == id))) h

-- A pending request that is found is the one its customer waits for.
pub pending_found :
    (id : ℕ) (db : Database) {r : KycUpgradeRequest}
    → request_by_id id db ≡ some r
    → request_status_is r.status KycUpgradeRequestStatus.pending ≡ true
    → find (by (λ s. s.id) id) (pending r.customer_id db) ≡ some r
unfolding request_by_id
pending_found id db {r} e h =
    find-select (is_pending_of r.customer_id) (by (λ s. s.id) id) db.kyc_upgrade_requests e
      (rw (==_refl r.customer_id, h) refl)

module _ (id : ℕ) (f : KycUpgradeRequest → KycUpgradeRequest) where
  module _ (closes : (k : ℕ) (r : KycUpgradeRequest) → is_pending_of k (f r) ≡ false) where
    other_request :
        (k : ℕ) (db : Database) (s : KycUpgradeRequest)
        → (s.id == id) ≡ false
        → Awaits k db s
        → Awaits k (closed id f db) s
    unfolding customer_by_id
    other_request k db s h (p, c, e, same, less) =
        (closed_one id f closes k db s p ∙ rw h refl, c, e, same, less)

    pub closed-IsOrderly : (db : Database) → IsOrderly db → IsOrderly (closed id f db)
    closed-IsOrderly db o k = elim (o k) [
      | inl none_left ↦ inl (closed_none id f closes k db none_left)
      | inr (s, a) ↦ elim (Bool-cases (s.id == id)) [
        | inl same ↦ inl (closed_one id f closes k db s a.0 ∙ rw same refl)
        | inr other ↦ inr (s, other_request k db s other a)
      ]
    ]

lone_absent :
    (id : ℕ) (s r : KycUpgradeRequest)
    → (s.id == id) ≡ false
    → find (by (λ t. t.id) id) (s ∷ []) ≢ some r
unfolding find
lone_absent id s r other e = absurd (grind arith)

pending_gone :
    (id : ℕ) (db : Database) {r : KycUpgradeRequest}
    → request_by_id id db ≡ some r
    → request_status_is r.status KycUpgradeRequestStatus.pending ≡ true
    → pending r.customer_id db ≢ []
unfolding find
pending_gone id db {r} e h p =
    absurd (let x = ap (find (by (λ t. t.id) id)) (sym p) ∙ pending_found id db e h in cc)

lone_found : (id : ℕ) (s r : KycUpgradeRequest) → find (by (λ t. t.id) id) (s ∷ []) ≡ some r → s ≡ r
unfolding find
lone_found id s r e = ground arith

-- The customer of a pending request does not wait for another one.
only_one :
    (id k : ℕ) (db : Database) {r : KycUpgradeRequest} (s : KycUpgradeRequest)
    → request_by_id id db ≡ some r
    → request_status_is r.status KycUpgradeRequestStatus.pending ≡ true
    → pending k db ≡ s ∷ []
    → (s.id == id) ≡ false
    → (r.customer_id == k) ≡ false
unfolding find
only_one id k db {r} s e h p other = elim (Bool-cases (r.customer_id == k)) [
  | inl same ↦
      let here : find (by (λ t. t.id) id) (pending k db) ≡ some r =
        subst (λ j. find (by (λ t. t.id) id) (pending j db) ≡ some r)
          (==_sound r.customer_id k same) (pending_found id db e h) in
      absurd (lone_absent id s r other (ap (find (by (λ t. t.id) id)) (sym p) ∙ here))
  | inr different ↦ different
]

pub closed_customer :
    (id : ℕ) (f : KycUpgradeRequest → KycUpgradeRequest) (k : ℕ) (db : Database)
    → customer_by_id k (closed id f db) ≡ customer_by_id k db
unfolding customer_by_id
closed_customer id f k db = refl

leveled_other :
    (u k : ℕ) (l : KycLevel) (db : Database)
    → (u == k) ≡ false
    → customer_by_id k (leveled u l db) ≡ customer_by_id k db
unfolding customer_by_id
leveled_other u k l db h =
    find-update_where (λ c. c.id) (with_level l) (λ c. refl) u k db.customers ∙ rw h refl

module _ (id : ℕ) (f : KycUpgradeRequest → KycUpgradeRequest) where
  module _ (closes : (k : ℕ) (r : KycUpgradeRequest) → is_pending_of k (f r) ≡ false) where
    pub granted-IsOrderly :
        (db : Database) {r : KycUpgradeRequest}
        → request_by_id id db ≡ some r
        → request_status_is r.status KycUpgradeRequestStatus.pending ≡ true
        → IsOrderly db
        → IsOrderly (leveled r.customer_id r.target_level (closed id f db))
    granted-IsOrderly db {r} e h o k = elim (o k) [
      | inl none_left ↦ inl (closed_none id f closes k db none_left)
      | inr (s, (p, c, known, same, less)) ↦ elim (Bool-cases (s.id == id)) [
        | inl this ↦ inl (closed_one id f closes k db s p ∙ rw this refl)
        | inr other ↦
            let elsewhere =
              leveled_other r.customer_id k r.target_level (closed id f db)
                (only_one id k db s e h p other) in
            let stays = other_request id f closes k db s other (p, c, known, same, less) in
            inr (s, (stays.0, c, elsewhere ∙ closed_customer id f k db ∙ known, same, less))
      ]
    ]

leveled_this :
    (u : ℕ) (l : KycLevel) (db : Database) (c : Customer)
    → customer_by_id u db ≡ some c
    → customer_by_id u (leveled u l db) ≡ some (with_level l c)
unfolding customer_by_id
leveled_this u l db c e =
    find-update_where (λ c. c.id) (with_level l) (λ c. refl) u u db.customers
    ∙ rw (==_refl u, e) refl

rises :
    (before after : Option Customer) (c : Customer) (current target : KycLevel)
    → before ≡ some c
    → after ≡ some (with_level target c)
    → c.kyc_level ≡ current
    → ltb (level_order current) (level_order target) ≡ true
    → level_or_zero before ≤ level_or_zero after
rises before after c current target b a same less = rw (b, a, same) (ground arith)

module _ (id : ℕ) (f : KycUpgradeRequest → KycUpgradeRequest) where
  -- Granting a pending request raises the level of its customer and no other.
  pub granted-level_at :
      (db : Database) {r : KycUpgradeRequest} (k : ℕ)
      → request_by_id id db ≡ some r
      → request_status_is r.status KycUpgradeRequestStatus.pending ≡ true
      → IsOrderly db
      → level_at k db ≤ level_at k (leveled r.customer_id r.target_level (closed id f db))
  granted-level_at db {r} k e h o = elim (Bool-cases (r.customer_id == k)) [
    | inr different ↦
        let same =
          leveled_other r.customer_id k r.target_level (closed id f db) different
          ∙ closed_customer id f k db in
        rw same (omega arith)
    | inl this ↦ rw (← ==_sound r.customer_id k this) (elim (o r.customer_id) [
      | inl none_left ↦ absurd (pending_gone id db e h none_left)
      | inr (s, (p, c, known, same, less)) ↦
          let s_is_r =
            lone_found id s r (ap (find (by (λ t. t.id) id)) (sym p) ∙ pending_found id db e h) in
          let after =
            leveled_this r.customer_id r.target_level (closed id f db) c
              (closed_customer id f r.customer_id db ∙ known) in
          rises _ _ c r.current_level r.target_level known after
            (same ∙ ap (λ t. t.current_level) s_is_r)
            (subst (λ t. ltb (level_order t.current_level) (level_order t.target_level) ≡ true)
              s_is_r less)
    ])
  ]
