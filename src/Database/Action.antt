-- ===== src/Database/Action.antt =====
-- A call of a service: state and exceptions. What was written before a throw stays, unless the
-- call runs inside `$transaction`, which rolls back.
use otsem_api.Common.{
  String, Bool, true, false, Option, none, some, ◌≡◌, refl, ap, sym, subst, arith, ◌⊎◌, inl, inr,
  if◌then◌else◌,
}
use otsem_api.Database.Rows.{Database}

-- The exceptions: those of NestJS with their message, and those of Prisma (P2025, P2002, P2003).
pub data Error : Type 0 where
  bad_request not_found forbidden conflict failure : String → Error
  record_missing unique_violation foreign_key : Error

pub data Result {ℓ} (A : Type ℓ) : Type ℓ where
  ok : A → Result A
  err : Error → Result A

abbrev pub Action : Type 0 → Type 0
Action A = Database → Result A × Database

module _ {A : Type 0} where
  abbrev pub pure : A → Action A
  pure a db = (ok a, db)

  abbrev pub throw : Error → Action A
  throw e db = (err e, db)

  abbrev pub gets : (Database → A) → Action A
  gets f db = (ok (f db), db)

  abbrev pub or_throw : Option A → Error → Action A
  or_throw none e db = (err e, db)
  or_throw (some a) e db = (ok a, db)

  -- `prisma.$transaction(async (tx) => …)`
  abbrev pub transaction : Action A → Action A
  transaction m db = let (r, db') = m db in elim r [ ok a ↦ (ok a, db') | err e ↦ (err e, db) ]

infixl 5 ◌>>=◌ ◌>>◌
abbrev pub ◌>>=◌ : {A B : Type 0} → Action A → (A → Action B) → Action B
◌>>=◌ m f db = let (r, db') = m db in elim r [ ok a ↦ f a db' | err e ↦ (err e, db') ]

abbrev pub ◌>>◌ : {A B : Type 0} → Action A → Action B → Action B
m >> k = m >>= λ _. k

abbrev pub throw_if : Bool → Error → Action (Unit {0})
throw_if c e db = (if c then err e else ok tt, db)

abbrev pub modify : (Database → Database) → Action (Unit {0})
modify f db = (ok tt, f db)

-- A call that has read only has answered or thrown at the same database.
pub Reads-cases :
    {A : Type 0} (x : Result A × Database) (db : Database)
    → x.1 ≡ db
    → ((a : A) × (x ≡ (ok a, db))) ⊎ ((e : Error) × (x ≡ (err e, db)))
Reads-cases (ok a, d) db h = inl (a, rw h refl)
Reads-cases (err e, d) db h = inr (e, rw h refl)

pub Result-cases :
    {A : Type 0} (r : Result A) → ((e : Error) × (r ≡ err e)) ⊎ ((a : A) × (r ≡ ok a))
Result-cases (ok a) = inr (a, refl)
Result-cases (err e) = inl (e, refl)

answer_or : {A : Type 0} → A → Result A → A
answer_or a (ok b) = b
answer_or a (err _) = a

pub ok-injective : {A : Type 0} {a b : A} → ok a ≡ ok b → a ≡ b
unfolding answer_or
ok-injective {A} {a} {b} e = ap (answer_or a) e

pub bound :
    {A B : Type 0} (m : Action A) (k : A → Action B) {a : A} {db d : Database}
    → m db ≡ (ok a, d)
    → ((m >>= k) db).1 ≡ (k a d).1
bound m k {a} {db} {d} e = ground arith

pub stopped :
    {A B : Type 0} (m : Action A) (k : A → Action B) {x : Error} {db d : Database}
    → m db ≡ (err x, d)
    → ((m >>= k) db).1 ≡ d
stopped m k {x} {db} {d} e = ground arith

pub answered : {A : Type 0} (x : Result A × Database) {r : Result A} → x.0 ≡ r → x ≡ (r, x.1)
answered (r, d) e = rw e refl

-- A chain ends where its first call stopped, or where its second one ends after it.
pub then-cases :
    {A B : Type 0} (m : Action A) (k : Action B) (db : Database)
    → (((m >> k) db).1 ≡ (m db).1) ⊎ (((m >> k) db).1 ≡ (k (m db).1).1)
then-cases m k db = elim (Result-cases (m db).0) [
  | inl (e, h) ↦ inl (stopped m (λ _. k) (answered (m db) h))
  | inr (a, h) ↦ inr (bound m (λ _. k) (answered (m db) h))
]

-- The same with the answers.
pub bound_to :
    {A B : Type 0} (m : Action A) (k : A → Action B) {a : A} {db d : Database}
    → m db ≡ (ok a, d)
    → (m >>= k) db ≡ k a d
bound_to m k {a} {db} {d} e = ground arith

pub stopped_by :
    {A B : Type 0} (m : Action A) (k : A → Action B) {x : Error} {db d : Database}
    → m db ≡ (err x, d)
    → (m >>= k) db ≡ (err x, d)
stopped_by m k {x} {db} {d} e = ground arith

abbrev pub is_ok : {A : Type 0} → Result A → Bool
is_ok (ok _) = true
is_ok (err _) = false

-- What a call and its continuation both keep, the chain of them keeps.
module _ (R : Database → Database → Type 0)
    (trans : (a b c : Database) → R a b → R b c → R a c) where
  ended-keeps :
      {A B : Type 0} (m : Action A) (k : A → Action B) (db : Database) (r : Result A × Database)
      → m db ≡ r
      → R db r.1
      → ((a : A) (d : Database) → R d (k a d).1)
      → R db ((m >>= k) db).1
  ended-keeps m k db (ok a, d) e first rest =
      subst (R db) (sym (bound m k e)) (trans db d (k a d).1 first (rest a d))
  ended-keeps m k db (err x, d) e first rest = subst (R db) (sym (stopped m k e)) first

  pub bind-keeps :
      {A B : Type 0} (m : Action A) (k : A → Action B) (db : Database)
      → R db (m db).1
      → ((a : A) (d : Database) → R d (k a d).1)
      → R db ((m >>= k) db).1
  bind-keeps m k db first rest = ended-keeps m k db (m db) refl first rest

-- A chain throws where its first call throws, or where the second does on what the first leaves.
pub bind-stops :
    {A B : Type 0} (m : Action A) (k : A → Action B) (db : Database)
    → is_ok (m db).0 ≡ false
    → is_ok ((m >>= k) db).0 ≡ false
bind-stops m k db h = elim (Result-cases (m db).0) [
  | inl (e, r) ↦ rw (stopped_by m k (answered (m db) r)) refl
  | inr (a, r) ↦ absurd (ground (arith, h, r))
]

pub bind-fails :
    (I : Database → Type 0) {A B : Type 0} (m : Action A) (k : A → Action B) (db : Database)
    → I (m db).1
    → ((a : A) (d : Database) → I d → is_ok (k a d).0 ≡ false)
    → is_ok ((m >>= k) db).0 ≡ false
bind-fails I m k db kept fails = elim (Result-cases (m db).0) [
  | inl (e, r) ↦ rw (stopped_by m k (answered (m db) r)) refl
  | inr (a, r) ↦ rw (bound_to m k (answered (m db) r)) (fails a (m db).1 kept)
]
