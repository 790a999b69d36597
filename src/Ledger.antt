-- ===== src/Ledger.antt =====
-- The ledger of BRL balances: src/transactions/transactions.service.ts,
-- src/transfers/transfers.service.ts and src/accounts/accounts.service.ts.
pub mod Amounts
pub mod Rows
pub mod Deposits
pub mod Transfers
pub mod Reversals
pub mod Accounts
pub mod Audit
pub mod Posting
pub mod Effects
pub mod Invariant
pub mod Steps
pub mod Conservation
pub mod Guarantees
pub mod Undoing
mod Tests
mod ReadingTests
pub mod Receipts
pub mod Reading
