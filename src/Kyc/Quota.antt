-- ===== src/Kyc/Quota.antt =====
-- What src/customers/kyc-limits.service.ts makes of its configs.
use otsem_api.Common.{
  ℤ, pos, Bool, true, false, ◌&&◌, ◌≡◌, refl, ap, ◌∙◌, Option, none, some, List, [], ◌∷◌, arith,
  find, if◌then◌else◌, Bool-cases, inl, inr, is_some,
}
use mathlib.Core.Option
use otsem_api.Database.Enums.{KycLevel, CustomerType, level_is, customer_type_is}
use otsem_api.Database.Rows.{KycLevelConfig, Database}
use otsem_api.Database.Tables.{update_where, find_sound}
use otsem_api.Database.Action.{ok}
use otsem_api.Kyc.Limits.{
  is_config, config_by, limit_or_zero, get_monthly_limit, standard_configs, upsert_into,
  upsert_config, upsert_all, seed_kyc_level_configs, reset_config,
}

abbrev limit_in : KycLevel → CustomerType → List KycLevelConfig → ℤ
limit_in l t xs = limit_or_zero (find (is_config l t) xs)

module _ {A : Type 0} (p q : A → Bool) (f : A → A) (keep : (x : A) → p (f x) ≡ p x) where
  find-rewritten :
      (xs : List A)
      → find p (update_where q f xs) ≡ Option.map (λ x. if q x then f x else x) (find p xs)
  unfolding find update_where
  find-rewritten [] = refl
  find-rewritten (x ∷ xs) = ground (arith, find-rewritten xs, keep x)

level_is_sound : (a b : KycLevel) → level_is a b ≡ true → a ≡ b
unfolding level_is
level_is_sound a b h = ground arith

customer_type_is_sound : (a b : CustomerType) → customer_type_is a b ≡ true → a ≡ b
unfolding customer_type_is
customer_type_is_sound a b h = ground arith

level_is_sym : (a b : KycLevel) → level_is a b ≡ level_is b a
unfolding level_is
level_is_sym a b = ground arith

customer_type_is_sym : (a b : CustomerType) → customer_type_is a b ≡ customer_type_is b a
unfolding customer_type_is
customer_type_is_sym a b = ground arith

-- A config that one key finds has the other key when a third config has both.
found_key :
    (l : KycLevel) (t : CustomerType) (c x : KycLevelConfig)
    → is_config l t x ≡ true
    → is_config c.level c.customer_type x ≡ is_config l t c
found_key l t c x h =
    let same_level = level_is_sound x.level l (ground arith) in
    let same_type = customer_type_is_sound x.customer_type t (ground arith) in
    rw (same_level, same_type, level_is_sym l c.level, customer_type_is_sym t c.customer_type) refl

-- The limit that a written table has under one key, from the config that was found before.
rewritten_limit :
    (l : KycLevel) (t : CustomerType) (c : KycLevelConfig) (o : Option KycLevelConfig)
    → ((x : KycLevelConfig) → o ≡ some x → is_config l t x ≡ true)
    → limit_or_zero
        (Option.map (λ x. if is_config c.level c.customer_type x then reset_config c x else x) o)
      ≡ (if is_config l t c && is_some o then c.monthly_limit else limit_or_zero o)
rewritten_limit l t c none h = ground arith
rewritten_limit l t c (some x) h = rw (found_key l t c x (h x refl)) (pick (is_config l t c))
  where
    pick :
        (b : Bool)
        → limit_or_zero (some (if b then reset_config c x else x))
          ≡ (if b && true then c.monthly_limit else x.monthly_limit)
    pick true = refl
    pick false = refl

present :
    (l : KycLevel) (t : CustomerType) (c d : KycLevelConfig) (xs : List KycLevelConfig)
    → find (is_config c.level c.customer_type) xs ≡ some d
    → (if is_config l t c && is_some (find (is_config l t) xs)
        then c.monthly_limit
        else limit_in l t xs)
      ≡ (if is_config l t c then c.monthly_limit else limit_in l t xs)
present l t c d xs e = elim (Bool-cases (is_config l t c)) [
  | inr other ↦ rw other refl
  | inl same ↦
      let same_level = level_is_sound c.level l (ground arith) in
      let same_type = customer_type_is_sound c.customer_type t (ground arith) in
      let found : find (is_config l t) xs ≡ some d = rw (← same_level, ← same_type) e in
      rw (same, found) refl
]

limit_in-upsert_into :
    (l : KycLevel) (t : CustomerType) (c : KycLevelConfig) (xs : List KycLevelConfig)
    (o : Option KycLevelConfig)
    → find (is_config c.level c.customer_type) xs ≡ o
    → limit_in l t (upsert_into o c xs)
      ≡ (if is_config l t c then c.monthly_limit else limit_in l t xs)
unfolding find
limit_in-upsert_into l t c xs none e = if_limit (is_config l t c)
  where
    if_limit :
        (b : Bool)
        → limit_or_zero (if b then some c else find (is_config l t) xs)
          ≡ (if b then c.monthly_limit else limit_in l t xs)
    if_limit true = refl
    if_limit false = refl
limit_in-upsert_into l t c xs (some d) e =
    ap limit_or_zero (
      find-rewritten (is_config l t) (is_config c.level c.customer_type) (reset_config c)
        (λ x. refl) xs)
    ∙ rewritten_limit l t c (find (is_config l t) xs) (λ x. find_sound (is_config l t) xs)
    ∙ present l t c d xs e

limit_in-upsert_config :
    (l : KycLevel) (t : CustomerType) (c : KycLevelConfig) (xs : List KycLevelConfig)
    → limit_in l t (upsert_config c xs)
      ≡ (if is_config l t c then c.monthly_limit else limit_in l t xs)
unfolding upsert_config
limit_in-upsert_config l t c xs = limit_in-upsert_into l t c xs _ refl

-- The limit that the last config with the key writes, or the old one.
abbrev last_limit : KycLevel → CustomerType → List KycLevelConfig → ℤ → ℤ
last_limit l t [] old = old
last_limit l t (c ∷ cs) old = last_limit l t cs (if is_config l t c then c.monthly_limit else old)

limit_in-upsert_all :
    (l : KycLevel) (t : CustomerType) (cs xs : List KycLevelConfig)
    → limit_in l t (upsert_all cs xs) ≡ last_limit l t cs (limit_in l t xs)
unfolding upsert_all
limit_in-upsert_all l t [] xs = refl
limit_in-upsert_all l t (c ∷ cs) xs =
    limit_in-upsert_all l t cs (upsert_config c xs)
    ∙ ap (last_limit l t cs) (limit_in-upsert_config l t c xs)

-- The limits of `seedKycLevelConfigs` in cents; 0 stands for no limit.
abbrev pub standard_limit : CustomerType → KycLevel → ℤ
standard_limit _ KycLevel.level_3 = pos 0
standard_limit CustomerType.pf KycLevel.level_1 = pos 3_000_000
standard_limit CustomerType.pf KycLevel.level_2 = pos 10_000_000
standard_limit CustomerType.pj KycLevel.level_1 = pos 5_000_000
standard_limit CustomerType.pj KycLevel.level_2 = pos 20_000_000

standard_last :
    (t : CustomerType) (l : KycLevel) (old : ℤ)
    → last_limit l t standard_configs old ≡ standard_limit t l
unfolding level_is customer_type_is
standard_last CustomerType.pf KycLevel.level_1 old = refl
standard_last CustomerType.pf KycLevel.level_2 old = refl
standard_last CustomerType.pf KycLevel.level_3 old = refl
standard_last CustomerType.pj KycLevel.level_1 old = refl
standard_last CustomerType.pj KycLevel.level_2 old = refl
standard_last CustomerType.pj KycLevel.level_3 old = refl

-- After the start of the module every limit is the standard one, whatever the table held: a limit
-- that an admin had changed is set back.
pub seed-get_monthly_limit :
    (t : CustomerType) (l : KycLevel) (db : Database)
    → (get_monthly_limit t l (seed_kyc_level_configs db).1).0 ≡ ok (standard_limit t l)
unfolding get_monthly_limit config_by seed_kyc_level_configs
seed-get_monthly_limit t l db =
    ap ok (limit_in-upsert_all l t standard_configs db.kyc_level_configs ∙ standard_last t l _)
