-- ===== src/Kyc/Limits.antt =====
-- Monthly limits: src/customers/kyc-limits.service.ts. The clock is an argument: `month` runs from
-- the first day of the current month to the first of the next. Limits are in cents.
use otsem_api.Common.{
  ℕ, ℤ, pos, pos_part, neg_part, is_zero, ◌+◌, String, Bool, true, false, ◌&&◌, ◌||◌, Option, none,
  some, List, [], ◌∷◌, leb, ltb, find, select, template, fixed_text, if◌then◌else◌,
}
use otsem_api.Numbers.{Numbers}
use otsem_api.Database.Enums.{
  KycLevel, CustomerType, ConversionStatus, TransactionType, TransactionStatus, level_is,
  customer_type_is, conversion_status_is, type_is, status_is,
}
use otsem_api.Database.Rows.{Customer, Account, Transaction, KycLevelConfig, Conversion, Database}
use otsem_api.Database.Tables.{by, update_where, sum_of}
use otsem_api.Database.Queries.{customer_by_id, account_by_customer}
use otsem_api.Database.Action.{
  Action, bad_request, record_missing, pure, gets, or_throw, modify, ◌>>=◌, ◌>>◌,
}
use otsem_api.Kyc.Upgrades.{set_level}

-- `where: { level_customerType: { level, customerType } }`
abbrev pub is_config : KycLevel → CustomerType → KycLevelConfig → Bool
is_config l t c = level_is c.level l && customer_type_is c.customer_type t

unfoldable pub config_by : KycLevel → CustomerType → Database → Option KycLevelConfig
config_by l t db = find (is_config l t) db.kyc_level_configs

abbrev pub limit_or_zero : Option KycLevelConfig → ℤ
limit_or_zero none = pos 0
limit_or_zero (some c) = c.monthly_limit

unfoldable pub get_monthly_limit : CustomerType → KycLevel → Action ℤ
get_monthly_limit t l = gets λ db. limit_or_zero (config_by l t db)

abbrev pub config : KycLevel → CustomerType → ℕ → String → KycLevelConfig
config l t cents text = record {
  level = l;
  customer_type = t;
  monthly_limit = pos cents;
  description = some text;
}

-- `configs` of `seedKycLevelConfigs`
abbrev pub standard_configs : List KycLevelConfig
standard_configs =
    config KycLevel.level_1 CustomerType.pf 3_000_000 "PF Nível 1: até R$ 30.000/mês"
    ∷ config KycLevel.level_2 CustomerType.pf 10_000_000 "PF Nível 2: até R$ 100.000/mês"
    ∷ config KycLevel.level_3 CustomerType.pf 0 "PF Nível 3: Ilimitado"
    ∷ config KycLevel.level_1 CustomerType.pj 5_000_000 "PJ Nível 1: até R$ 50.000/mês"
    ∷ config KycLevel.level_2 CustomerType.pj 20_000_000 "PJ Nível 2: até R$ 200.000/mês"
    ∷ config KycLevel.level_3 CustomerType.pj 0 "PJ Nível 3: Ilimitado"
    ∷ []

abbrev pub reset_config : KycLevelConfig → KycLevelConfig → KycLevelConfig
reset_config c old = record old { monthly_limit = c.monthly_limit; description = c.description }

-- `kycLevelConfig.upsert`: the first clause creates, the second updates.
abbrev pub upsert_into :
    Option KycLevelConfig → KycLevelConfig → List KycLevelConfig → List KycLevelConfig
upsert_into none c xs = c ∷ xs
upsert_into (some _) c xs = update_where (is_config c.level c.customer_type) (reset_config c) xs

unfoldable pub upsert_config : KycLevelConfig → List KycLevelConfig → List KycLevelConfig
upsert_config c xs = upsert_into (find (is_config c.level c.customer_type) xs) c xs

unfoldable pub upsert_all : List KycLevelConfig → List KycLevelConfig → List KycLevelConfig
upsert_all [] xs = xs
upsert_all (c ∷ cs) xs = upsert_all cs (upsert_config c xs)

unfoldable pub seed_kyc_level_configs : Action (Unit {0})
seed_kyc_level_configs =
    modify λ db. record db { kyc_level_configs = upsert_all standard_configs db.kyc_level_configs }

unfoldable pub update_config : KycLevel → CustomerType → ℤ → Action (Unit {0})
update_config l t monthly_limit = do
  or_throw (← gets (config_by l t)) record_missing
  modify λ db. record db {
    kyc_level_configs =
        update_where (is_config l t) (λ c. record c { monthly_limit = monthly_limit })
          db.kyc_level_configs;
  }

unfoldable pub upgrade_kyc_level : ℕ → KycLevel → Action (Unit {0})
upgrade_kyc_level customer_id new_level = set_level customer_id new_level

pub record Month : Type 0 where
  pub start : ℕ
  pub stop : ℕ

abbrev pub in_month : Month → ℕ → Bool
in_month m at = leb m.start at && ltb at m.stop

-- `status: { in: [...] }`
unfoldable pub is_used : ConversionStatus → Bool
is_used s =
    conversion_status_is s ConversionStatus.completed
    || conversion_status_is s ConversionStatus.usdt_bought
    || conversion_status_is s ConversionStatus.usdt_withdrawn
    || conversion_status_is s ConversionStatus.usdt_received
    || conversion_status_is s ConversionStatus.usdt_sold
    || conversion_status_is s ConversionStatus.pix_sent

unfoldable pub conversions_total : Month → ℕ → List Conversion → ℤ
conversions_total m customer_id rows =
    sum_of (λ c. c.brl_charged)
      (select
        (λ c. by (λ c. c.customer_id) customer_id c && is_used c.status && in_month m c.created_at)
        rows)

abbrev pub is_pix_out : Month → ℕ → Transaction → Bool
is_pix_out m account_id t =
    by (λ t. t.account_id) account_id t
    && type_is t.kind TransactionType.pix_out
    && status_is t.status TransactionStatus.completed
    && in_month m t.created_at

-- `Math.abs(Number(pixOuts._sum.amount || 0))`, or 0 without an account
unfoldable pub pix_out_total : Month → Option ℕ → List Transaction → ℤ
pix_out_total m none rows = pos 0
pix_out_total m (some account_id) rows =
    let sum = sum_of (λ t. t.amount) (select (is_pix_out m account_id) rows) in
    pos (pos_part sum + neg_part sum)

abbrev pub id_of : Option Account → Option ℕ
id_of none = none
id_of (some a) = some a.id

module _ (N : Numbers) where
  open N use {Number, literal, plus, minus, times, over, less, to_fixed, to_number}

  -- `available_this_month` is none where it is `Infinity`.
  pub record MonthlyUsage : Type 0 where
    pub customer_id : ℕ
    pub customer_type : CustomerType
    pub kyc_level : KycLevel
    pub monthly_limit : ℤ
    pub used_this_month : Number
    pub available_this_month : Option Number
    pub is_unlimited : Bool
    pub percent_used : Number

  -- `Math.max(0, x)`
  abbrev pub at_least_zero : Number → Number
  at_least_zero x = if less (literal 0 0) x then x else literal 0 0

  unfoldable pub used_this_month : Month → ℕ → Database → Number
  used_this_month m customer_id db =
      plus (to_number 2 (conversions_total m customer_id db.conversions))
        (to_number 2 (pix_out_total m (id_of (account_by_customer customer_id db)) db.transactions))

  abbrev pub usage : Customer → ℤ → Number → ℕ → MonthlyUsage
  usage customer limit used customer_id = record {
    customer_id = customer_id;
    customer_type = customer.kind;
    kyc_level = customer.kyc_level;
    monthly_limit = limit;
    used_this_month = used;
    available_this_month =
        if is_zero limit then none else some (at_least_zero (minus (to_number 2 limit) used));
    is_unlimited = is_zero limit;
    percent_used =
        if is_zero limit
        then literal 0 0
        else times (over used (to_number 2 limit)) (literal 100 0);
  }

  unfoldable pub get_monthly_usage : Month → ℕ → Action MonthlyUsage
  get_monthly_usage m customer_id = do
    customer ← or_throw (← gets (customer_by_id customer_id)) (bad_request "Cliente não encontrado")
    limit ← get_monthly_limit customer.kind customer.kyc_level
    used ← gets (used_this_month m customer_id)
    pure (usage customer limit used customer_id)

  abbrev get_next_level : KycLevel → String
  get_next_level KycLevel.level_1 = "2"
  get_next_level KycLevel.level_2 = "3"
  get_next_level KycLevel.level_3 = "3"

  pub exceeded_message : KycLevel → Number → Number → String
  exceeded_message l available amount = template (
      "Limite mensal excedido. Disponível: R$ "
      ∷ fixed_text 2 (to_fixed 2 available)
      ∷ ". Solicitado: R$ "
      ∷ fixed_text 2 (to_fixed 2 amount)
      ∷ ". Upgrade para Nível "
      ∷ get_next_level l
      ∷ " para aumentar seu limite."
      ∷ [])

  abbrev pub verdict : KycLevel → Option Number → Number → Bool × Option String
  verdict l none amount = (true, none)
  verdict l (some available) amount =
      if less available amount
      then (false, some (exceeded_message l available amount))
      else (true, none)

  -- `{ allowed, message? }`; an unlimited usage has no available amount.
  unfoldable pub validate_transaction_limit : Month → ℕ → Number → Action (Bool × Option String)
  validate_transaction_limit m customer_id amount = do
    usage ← get_monthly_usage m customer_id
    pure (verdict usage.kyc_level usage.available_this_month amount)
