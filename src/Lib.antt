-- ===== src/Lib.antt =====
-- OTSEM API: the core of a wallet backend (NestJS over Prisma), as functions on its database.
--
-- The services keep no state of their own: each call reads and writes the database. A call is an
-- `Action`, a function from the database to an answer or an exception and the database after it.
-- What was written before an exception stays, except within `prisma.$transaction`, which rolls
-- back. A call runs alone; interleavings of two calls are not modelled.
--
-- Database: the rows and enums of prisma/schema.prisma (Database/Rows, Database/Enums), tables as
--   lists with their laws (Database/Tables), calls and exceptions (Database/Action), the Prisma
--   calls that the services share with their unique columns and foreign keys (Database/Queries),
--   and pages (Database/Paging). Ids and times are numbers; those that the database or the clock
--   would give are arguments. Money is an integer in the smallest unit of its column.
-- Numbers: the operations of JavaScript's `number`, a parameter where a service computes with
--   fractions; Samples has scaled integers as an instance.
-- Ledger: the balances in BRL. Amounts has the rounding of their columns; Deposits, Transfers and
--   Reversals model src/transactions/transactions.service.ts and
--   src/transfers/transfers.service.ts, Accounts models src/accounts/accounts.service.ts. Audit and
--   Posting hold the abstract ledger: a log of rows in which a balance is the net of the rows of its
--   account. Effects reads each method as posts to that ledger, Invariant and Steps run sequences of
--   calls, Conservation, Guarantees and Undoing prove what single methods promise. Receipts models
--   the reads of the transactions' service, Reading who may read what.
-- Boleto: src/boleto-payments/boleto-payments.service.ts. Quotes, Payments and Admin are its
--   methods; the OKX rates and the SOL and TRX balances, which come from other services, are the
--   fields of `Market`. Custody defines what a wallet and its payments hold together, Refunds,
--   Creation and Effects say what each method does to it, Lifecycle runs sequences of calls.
-- Kyc: src/customers/kyc-upgrade.service.ts (Upgrades, with Pending, Orderly, Advances and Levels
--   for the requests of a customer and their order) and src/customers/kyc-limits.service.ts
--   (Limits, with Quota for the configs and Usage for what counts of the ledger).
-- Affiliates: src/affiliates/affiliates.service.ts. Commissions and Settlement are its methods, with
--   the Tron and OKX services as the fields of `Payouts`; Sums, Chosen, Earnings, Payments, Effects,
--   Settling and Soundness hold an affiliate's earnings columns against its commissions, Steps runs
--   sequences of calls, Marking says what marking by hand pays.
-- Wallets: the wallets of src/wallet/wallet.service.ts. Currencies, Management and Keeping are its
--   methods; Mains and Orderly say what an orderly table of wallets is, Effects and Generated what
--   each method does to it, Steps runs sequences of calls, Choosing is about the main wallet and
--   Importing about imports. Keys and the chains' address tests are arguments.
-- Conversions: the sales of src/wallet/sell-processing.service.ts. Rows, Deposits, Selling and Polling
--   are its methods, with the exchange as the fields of `Exchange`; Affiliates/Links is the look-up of
--   a customer's affiliate. Commissions and Crediting say what a credit does to the books, Once and
--   Repeated what a second one does, Stages and Completion how a sale gets there, Stale what a pass
--   does to an account with two sales; Statuses, Loading, Passes and Runs hold the status of every
--   conversion through sequences of calls. Buying and Purchases are buyUsdtWithBrl of
--   src/wallet/wallet.service.ts, from the last stage to the first, with the bank and the exchange as
--   the fields of `Services`, and Messages reads its exceptions; Foreign, Refused and Affiliated follow
--   the purchase of an affiliate's customer through the stages, Outcomes says what a purchase that
--   throws leaves.
-- Documents: src/auth/utils/document-validator.ts. Validator has its functions, Cleaning and
--   CheckDigits what they accept; Masking has `maskTaxNumber` of the transactions' service.
--
-- The ledger's services take amounts as numbers of any decimals. They are integers of ten-millionths
-- of a real here, up to seven decimals (Ledger/Amounts), and each write to a column rounds to cents.
--
-- Every loop is structural recursion; the only fuel is that of the decimal digits in Common/Text,
-- one step for each digit of a number, and a number n has at most n + 1 digits.
--
-- Not modelled: HTTP controllers, mail and push, the clients of the banks, of the exchange and of
-- the chains, JSON columns, and the services of the other directories of src.
pub mod Common
pub mod Database
pub mod Ledger
pub mod Numbers
pub mod Samples
pub mod Wallets
pub mod Conversions
pub mod Boleto
pub mod Kyc
pub mod Affiliates
pub mod Documents
