-- ===== src/Database/Rows.antt =====
-- The rows of prisma/schema.prisma. Ids are compared only, so they are numbers. Money is an
-- integer in the smallest unit of its column: cents for BRL, 1e-8 for a wallet, 1e-6 for USDT
-- earnings. JSON columns, which no modelled call reads back, are left out.
use otsem_api.Common.{ℕ, ℤ, String, Bool, Option, List}
use otsem_api.Database.Enums.{
  TransactionType, TransactionStatus, CustomerType, KycLevel, PixKeyType, BankProvider,
  KycUpgradeRequestStatus, CommissionStatus, WalletNetwork, BoletoPaymentStatus, ConversionStatus,
  ConversionType,
}

pub record Customer : Type 0 where
  pub id : ℕ
  pub kind : CustomerType
  pub name : String
  pub email : String
  pub username : Option String
  pub cpf : Option String
  pub cnpj : Option String
  pub kyc_level : KycLevel
  pub affiliate_id : Option ℕ
  -- `spreadValue` of its user
  pub user_spread_value : Option ℤ

pub record Account : Type 0 where
  pub id : ℕ
  pub customer_id : ℕ
  pub balance : ℤ
  pub pix_key : Option String
  pub pix_key_type : Option PixKeyType
  pub daily_limit : ℤ
  pub monthly_limit : ℤ
  pub status : String
  pub blocked_amount : ℤ

pub record Transaction : Type 0 where
  pub id : ℕ
  pub account_id : ℕ
  pub kind : TransactionType
  pub sub_type : Option String
  pub status : TransactionStatus
  pub bank_provider : Option BankProvider
  pub amount : ℤ
  pub balance_before : ℤ
  pub balance_after : ℤ
  pub description : Option String
  pub payer_name : Option String
  pub payer_tax_number : Option String
  pub payer_message : Option String
  pub receiver_name : Option String
  pub receiver_tax_number : Option String
  pub receiver_pix_key : Option String
  pub receiver_bank_code : Option String
  pub pix_key : Option String
  pub external_id : Option String
  pub end_to_end : Option String
  pub txid : Option String
  pub related_tx_id : Option ℕ
  pub created_at : ℕ
  pub completed_at : Option ℕ

pub record Wallet : Type 0 where
  pub id : ℕ
  pub customer_id : ℕ
  pub currency : String
  pub network : WalletNetwork
  pub balance : ℤ
  pub external_address : Option String
  pub encrypted_private_key : Option String
  pub label : Option String
  pub is_main : Bool
  pub is_active : Bool
  pub okx_whitelisted : Bool
  pub created_at : ℕ

pub record BoletoPayment : Type 0 where
  pub id : ℕ
  pub customer_id : ℕ
  pub barcode : String
  pub description : Option String
  pub boleto_amount : ℤ
  pub service_fee : ℤ
  pub total_brl : ℤ
  pub crypto_amount : ℤ
  pub crypto_currency : String
  pub network : WalletNetwork
  pub wallet_id : ℕ
  pub exchange_rate : ℤ
  pub status : BoletoPaymentStatus
  pub admin_notes : Option String
  pub paid_by_admin_at : Option ℕ
  pub paid_by_admin_id : Option ℕ
  pub error_message : Option String
  pub created_at : ℕ

pub record KycLevelConfig : Type 0 where
  pub level : KycLevel
  pub customer_type : CustomerType
  pub monthly_limit : ℤ
  pub description : Option String

pub record KycUpgradeRequest : Type 0 where
  pub id : ℕ
  pub customer_id : ℕ
  pub current_level : KycLevel
  pub target_level : KycLevel
  pub status : KycUpgradeRequestStatus
  pub documents : List (String × String)
  pub admin_notes : Option String
  pub reviewed_by : Option String
  pub reviewed_at : Option ℕ
  pub created_at : ℕ

pub record Affiliate : Type 0 where
  pub id : ℕ
  pub name : String
  pub email : String
  pub phone : Option String
  pub code : String
  pub commission_rate : ℤ
  pub spread_rate : ℤ
  pub payout_wallet_address : Option String
  pub payout_wallet_network : Option String
  pub total_earnings : ℤ
  pub pending_earnings : ℤ
  pub total_earnings_usdt : ℤ
  pub pending_earnings_usdt : ℤ
  pub is_active : Bool

pub record AffiliateCommission : Type 0 where
  pub id : ℕ
  pub affiliate_id : ℕ
  pub customer_id : ℕ
  pub transaction_id : Option ℕ
  pub conversion_id : Option ℕ
  pub conversion_type : Option String
  pub transaction_amount : ℤ
  pub spread_brl : ℤ
  pub commission_rate : ℤ
  pub commission_brl : ℤ
  pub commission_usdt : ℤ
  pub exchange_rate : ℤ
  pub status : CommissionStatus
  pub paid_at : Option ℕ
  pub settlement_tx_id : Option String
  pub created_at : ℕ

-- The network of a conversion is a text.
pub record Conversion : Type 0 where
  pub id : ℕ
  pub customer_id : ℕ
  pub account_id : ℕ
  pub transaction_id : Option ℕ
  pub kind : ConversionType
  pub brl_charged : ℤ
  pub brl_exchanged : ℤ
  pub spread_percent : ℤ
  pub spread_brl : ℤ
  pub usdt_purchased : Option ℤ
  pub usdt_withdrawn : Option ℤ
  pub exchange_rate : Option ℤ
  pub network : String
  pub wallet_address : String
  pub wallet_id : Option ℕ
  pub pix_end_to_end : Option String
  pub pix_txid : Option String
  pub okx_order_id : Option String
  pub okx_withdraw_id : Option String
  pub okx_deposit_id : Option String
  pub tx_hash : Option String
  pub affiliate_id : Option ℕ
  pub affiliate_commission : Option ℤ
  pub okx_withdraw_fee : Option ℤ
  pub okx_trading_fee : Option ℤ
  pub total_okx_fees : Option ℤ
  pub gross_profit : Option ℤ
  pub net_profit : Option ℤ
  pub status : ConversionStatus
  pub error_message : Option String
  pub created_at : ℕ
  pub completed_at : Option ℕ

pub record Database : Type 0 where
  pub customers : List Customer
  pub accounts : List Account
  -- the newest first
  pub transactions : List Transaction
  pub wallets : List Wallet
  pub boleto_payments : List BoletoPayment
  pub kyc_level_configs : List KycLevelConfig
  pub kyc_upgrade_requests : List KycUpgradeRequest
  pub affiliates : List Affiliate
  pub affiliate_commissions : List AffiliateCommission
  pub conversions : List Conversion
