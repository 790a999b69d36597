-- ===== src/Samples.antt =====
-- Data that the tests share: numbers as scaled integers, and a bank of two empty accounts.
use otsem_api.Common.{
  fixed_text, ℕ, ◌*◌, ◌/◌, ◌+◌, ◌-◌, ◌^◌, pos, pos_part, String, refl, none, some, [], ◌∷◌, arith,
  ltb, find, ◌+ℤ◌, true, false,
}
use otsem_api.Numbers.{Numbers}
use otsem_api.Database.Enums.{
  CustomerType, KycLevel, WalletNetwork, ConversionType, ConversionStatus,
}
use otsem_api.Database.Rows.{Affiliate, Customer, Account, Database, Wallet, Conversion}
use otsem_api.Database.Tables.{update_where}
use otsem_api.Database.Queries.{account_by_id}
use otsem_api.Ledger.Audit.{audit, eq_ℤ}
use otsem_api.Ledger.Posting.{IsConsistent}

-- Numbers in units of 1e-8, cut below.
abbrev pub scale : ℕ
scale = 100_000_000

abbrev pub scaled : Numbers
scaled = record {
  Number = ℕ;
  literal = λ n k. n * scale / 10 ^ k;
  plus = λ a b. a + b;
  minus = λ a b. a - b;
  times = λ a b. a * b / scale;
  over = λ a b. a * scale / b;
  less = ltb;
  round = λ a. (a + 50_000_000) / scale * scale;
  floor = λ a. a / scale * scale;
  to_fixed = λ k a. pos (a / 10 ^ (8 - k));
  to_number = λ k d. pos_part d * 10 ^ (8 - k);
  to_column = λ k a. pos (a / 10 ^ (8 - k));
  to_text = λ a. fixed_text 8 (pos a);
}

abbrev pub customer : ℕ → String → String → Customer
customer id name username = record {
  id = id;
  kind = CustomerType.pf;
  name = name;
  email = username;
  username = some username;
  cpf = none;
  cnpj = none;
  kyc_level = KycLevel.level_1;
  affiliate_id = none;
  user_spread_value = none;
}

abbrev pub account : ℕ → ℕ → String → Account
account id customer_id key = record {
  id = id;
  customer_id = customer_id;
  balance = pos 0;
  pix_key = some key;
  pix_key_type = none;
  daily_limit = pos 500_000;
  monthly_limit = pos 2_000_000;
  status = "active";
  blocked_amount = pos 0;
}

abbrev pub empty_database : Database
empty_database = record {
  customers = [];
  accounts = [];
  transactions = [];
  wallets = [];
  boleto_payments = [];
  kyc_level_configs = [];
  kyc_upgrade_requests = [];
  affiliates = [];
  affiliate_commissions = [];
  conversions = [];
}

abbrev pub bank : Database
bank = record empty_database {
  customers = customer 10 "Ana" "ana" ∷ customer 20 "Bia" "bia" ∷ [];
  accounts = account 1 10 "k1" ∷ account 2 20 "k2" ∷ [];
}

bank_explained : Unit {0}
unfolding account_by_id update_where find audit eq_ℤ ◌+ℤ◌
bank_explained = tt

pub bank-IsConsistent : IsConsistent bank
unfolding bank_explained
bank-IsConsistent = record { distinct = (refl, (refl, tt)); explained = λ id. ground arith }

abbrev pub wallet : ℕ → ℕ → WalletNetwork → String → Wallet
wallet id customer_id network currency = record {
  id = id;
  customer_id = customer_id;
  currency = currency;
  network = network;
  balance = pos 0;
  external_address = none;
  encrypted_private_key = none;
  label = none;
  is_main = false;
  is_active = true;
  okx_whitelisted = false;
  created_at = 0;
}

-- An affiliate at a commission rate of 10%.
abbrev pub affiliate : ℕ → String → Affiliate
affiliate id code = record {
  id = id;
  name = code;
  email = code;
  phone = none;
  code = code;
  commission_rate = pos 100_000;
  spread_rate = pos 0;
  payout_wallet_address = some "T1";
  payout_wallet_network = some "TRON";
  total_earnings = pos 0;
  pending_earnings = pos 0;
  total_earnings_usdt = pos 0;
  pending_earnings_usdt = pos 0;
  is_active = true;
}

-- A sale of 100 USDT that waits for its deposit, at a spread of 1 %.
abbrev pub sale : ℕ → ℕ → ℕ → Conversion
sale id customer_id account_id = record {
  id = id;
  customer_id = customer_id;
  account_id = account_id;
  transaction_id = none;
  kind = ConversionType.sell;
  brl_charged = pos 0;
  brl_exchanged = pos 0;
  spread_percent = pos 100;
  spread_brl = pos 0;
  usdt_purchased = some (pos 100_000_000);
  usdt_withdrawn = none;
  exchange_rate = none;
  network = "TRON";
  wallet_address = "";
  wallet_id = none;
  pix_end_to_end = none;
  pix_txid = none;
  okx_order_id = none;
  okx_withdraw_id = none;
  okx_deposit_id = none;
  tx_hash = none;
  affiliate_id = none;
  affiliate_commission = none;
  okx_withdraw_fee = none;
  okx_trading_fee = none;
  total_okx_fees = none;
  gross_profit = none;
  net_profit = none;
  status = ConversionStatus.pending;
  error_message = none;
  created_at = 0;
  completed_at = none;
}
