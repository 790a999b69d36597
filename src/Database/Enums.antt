-- ===== src/Database/Enums.antt =====
-- The enums of prisma/schema.prisma, with the tests `===` on them.
use otsem_api.Common.{
  ℕ, Bool, true, false, ◌==◌, ◌≡◌, refl, sym, ap, ◌∙◌, ==_sound, ==_refl, if◌then◌else◌,
}

pub data TransactionType : Type 0 where
  deposit withdraw transfer_in transfer_out pix_in pix_out conversion fee reversal : TransactionType

pub data TransactionStatus : Type 0 where
  pending processing completed failed reversed canceled : TransactionStatus

pub data CustomerType : Type 0 where
  pf pj : CustomerType

pub data KycLevel : Type 0 where
  level_1 level_2 level_3 : KycLevel

pub data PixKeyType : Type 0 where
  cpf cnpj email phone random : PixKeyType

pub data BankProvider : Type 0 where
  inter fdbank : BankProvider

pub data KycUpgradeRequestStatus : Type 0 where
  pending approved rejected : KycUpgradeRequestStatus

pub data CommissionStatus : Type 0 where
  pending paid cancelled : CommissionStatus

pub data WalletNetwork : Type 0 where
  solana ethereum polygon bsc tron bitcoin avalanche arbitrum optimism base : WalletNetwork

pub data BoletoPaymentStatus : Type 0 where
  pending_approval admin_paying paid failed refunded cancelled : BoletoPaymentStatus

pub data ConversionStatus : Type 0 where
  pending pix_sent usdt_bought usdt_withdrawn usdt_received usdt_sold pix_out_sent completed
        failed :
      ConversionStatus

pub data ConversionType : Type 0 where
  buy sell : ConversionType

-- `===` on an enum
type_rank : TransactionType → ℕ
type_rank TransactionType.deposit = 0
type_rank TransactionType.withdraw = 1
type_rank TransactionType.transfer_in = 2
type_rank TransactionType.transfer_out = 3
type_rank TransactionType.pix_in = 4
type_rank TransactionType.pix_out = 5
type_rank TransactionType.conversion = 6
type_rank TransactionType.fee = 7
type_rank TransactionType.reversal = 8

unfoldable pub type_is : TransactionType → TransactionType → Bool
unfolding type_rank
type_is a b = type_rank a == type_rank b

status_rank : TransactionStatus → ℕ
status_rank TransactionStatus.pending = 0
status_rank TransactionStatus.processing = 1
status_rank TransactionStatus.completed = 2
status_rank TransactionStatus.failed = 3
status_rank TransactionStatus.reversed = 4
status_rank TransactionStatus.canceled = 5

unfoldable pub status_is : TransactionStatus → TransactionStatus → Bool
unfolding status_rank
status_is a b = status_rank a == status_rank b

level_rank : KycLevel → ℕ
level_rank KycLevel.level_1 = 0
level_rank KycLevel.level_2 = 1
level_rank KycLevel.level_3 = 2

unfoldable pub level_is : KycLevel → KycLevel → Bool
unfolding level_rank
level_is a b = level_rank a == level_rank b

customer_type_rank : CustomerType → ℕ
customer_type_rank CustomerType.pf = 0
customer_type_rank CustomerType.pj = 1

unfoldable pub customer_type_is : CustomerType → CustomerType → Bool
unfolding customer_type_rank
customer_type_is a b = customer_type_rank a == customer_type_rank b

request_status_rank : KycUpgradeRequestStatus → ℕ
request_status_rank KycUpgradeRequestStatus.pending = 0
request_status_rank KycUpgradeRequestStatus.approved = 1
request_status_rank KycUpgradeRequestStatus.rejected = 2

unfoldable pub request_status_is : KycUpgradeRequestStatus → KycUpgradeRequestStatus → Bool
unfolding request_status_rank
request_status_is a b = request_status_rank a == request_status_rank b

commission_status_rank : CommissionStatus → ℕ
commission_status_rank CommissionStatus.pending = 0
commission_status_rank CommissionStatus.paid = 1
commission_status_rank CommissionStatus.cancelled = 2

unfoldable pub commission_status_is : CommissionStatus → CommissionStatus → Bool
unfolding commission_status_rank
commission_status_is a b = commission_status_rank a == commission_status_rank b

boleto_status_rank : BoletoPaymentStatus → ℕ
boleto_status_rank BoletoPaymentStatus.pending_approval = 0
boleto_status_rank BoletoPaymentStatus.admin_paying = 1
boleto_status_rank BoletoPaymentStatus.paid = 2
boleto_status_rank BoletoPaymentStatus.failed = 3
boleto_status_rank BoletoPaymentStatus.refunded = 4
boleto_status_rank BoletoPaymentStatus.cancelled = 5

unfoldable pub boleto_status_is : BoletoPaymentStatus → BoletoPaymentStatus → Bool
unfolding boleto_status_rank
boleto_status_is a b = boleto_status_rank a == boleto_status_rank b

conversion_status_rank : ConversionStatus → ℕ
conversion_status_rank ConversionStatus.pending = 0
conversion_status_rank ConversionStatus.pix_sent = 1
conversion_status_rank ConversionStatus.usdt_bought = 2
conversion_status_rank ConversionStatus.usdt_withdrawn = 3
conversion_status_rank ConversionStatus.usdt_received = 4
conversion_status_rank ConversionStatus.usdt_sold = 5
conversion_status_rank ConversionStatus.pix_out_sent = 6
conversion_status_rank ConversionStatus.completed = 7
conversion_status_rank ConversionStatus.failed = 8

unfoldable pub conversion_status_is : ConversionStatus → ConversionStatus → Bool
unfolding conversion_status_rank
conversion_status_is a b = conversion_status_rank a == conversion_status_rank b

network_rank : WalletNetwork → ℕ
network_rank WalletNetwork.solana = 0
network_rank WalletNetwork.ethereum = 1
network_rank WalletNetwork.polygon = 2
network_rank WalletNetwork.bsc = 3
network_rank WalletNetwork.tron = 4
network_rank WalletNetwork.bitcoin = 5
network_rank WalletNetwork.avalanche = 6
network_rank WalletNetwork.arbitrum = 7
network_rank WalletNetwork.optimism = 8
network_rank WalletNetwork.base = 9

unfoldable pub network_is : WalletNetwork → WalletNetwork → Bool
unfolding network_rank
network_is a b = network_rank a == network_rank b

unfoldable pub is_sell : ConversionType → Bool
is_sell ConversionType.buy = false
is_sell ConversionType.sell = true

network_of_rank : ℕ → WalletNetwork
network_of_rank n =
    if n == 0
    then WalletNetwork.solana
    else if n == 1
    then WalletNetwork.ethereum
    else if n == 2
    then WalletNetwork.polygon
    else if n == 3
    then WalletNetwork.bsc
    else if n == 4
    then WalletNetwork.tron
    else if n == 5
    then WalletNetwork.bitcoin
    else if n == 6
    then WalletNetwork.avalanche
    else if n == 7
    then WalletNetwork.arbitrum
    else if n == 8
    then WalletNetwork.optimism
    else WalletNetwork.base

network_of_rank-network_rank : (n : WalletNetwork) → network_of_rank (network_rank n) ≡ n
unfolding network_of_rank network_rank
network_of_rank-network_rank WalletNetwork.solana = refl
network_of_rank-network_rank WalletNetwork.ethereum = refl
network_of_rank-network_rank WalletNetwork.polygon = refl
network_of_rank-network_rank WalletNetwork.bsc = refl
network_of_rank-network_rank WalletNetwork.tron = refl
network_of_rank-network_rank WalletNetwork.bitcoin = refl
network_of_rank-network_rank WalletNetwork.avalanche = refl
network_of_rank-network_rank WalletNetwork.arbitrum = refl
network_of_rank-network_rank WalletNetwork.optimism = refl
network_of_rank-network_rank WalletNetwork.base = refl

pub network_is_refl : (n : WalletNetwork) → network_is n n ≡ true
unfolding network_is
network_is_refl n = ==_refl (network_rank n)

pub network_is_sound : (m n : WalletNetwork) → network_is m n ≡ true → m ≡ n
unfolding network_is
network_is_sound m n h =
    sym (network_of_rank-network_rank m)
    ∙ ap network_of_rank (==_sound (network_rank m) (network_rank n) h)
    ∙ network_of_rank-network_rank n

conversion_status_of_rank : ℕ → ConversionStatus
conversion_status_of_rank n =
    if n == 0
    then ConversionStatus.pending
    else if n == 1
    then ConversionStatus.pix_sent
    else if n == 2
    then ConversionStatus.usdt_bought
    else if n == 3
    then ConversionStatus.usdt_withdrawn
    else if n == 4
    then ConversionStatus.usdt_received
    else if n == 5
    then ConversionStatus.usdt_sold
    else if n == 6
    then ConversionStatus.pix_out_sent
    else if n == 7
    then ConversionStatus.completed
    else ConversionStatus.failed

conversion_status_of_rank-rank :
    (s : ConversionStatus) → conversion_status_of_rank (conversion_status_rank s) ≡ s
unfolding conversion_status_of_rank conversion_status_rank
conversion_status_of_rank-rank ConversionStatus.pending = refl
conversion_status_of_rank-rank ConversionStatus.pix_sent = refl
conversion_status_of_rank-rank ConversionStatus.usdt_bought = refl
conversion_status_of_rank-rank ConversionStatus.usdt_withdrawn = refl
conversion_status_of_rank-rank ConversionStatus.usdt_received = refl
conversion_status_of_rank-rank ConversionStatus.usdt_sold = refl
conversion_status_of_rank-rank ConversionStatus.pix_out_sent = refl
conversion_status_of_rank-rank ConversionStatus.completed = refl
conversion_status_of_rank-rank ConversionStatus.failed = refl

pub conversion_status_is_sound : (s t : ConversionStatus) → conversion_status_is s t ≡ true → s ≡ t
unfolding conversion_status_is
conversion_status_is_sound s t h =
    sym (conversion_status_of_rank-rank s)
    ∙ ap conversion_status_of_rank
        (==_sound (conversion_status_rank s) (conversion_status_rank t) h)
    ∙ conversion_status_of_rank-rank t
