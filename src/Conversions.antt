-- ===== src/Conversions.antt =====
-- Selling USDT for BRL: src/wallet/sell-processing.service.ts.
pub mod Rows
pub mod Deposits
pub mod Selling
pub mod Polling
pub mod Commissions
pub mod Crediting
pub mod Once
pub mod Stale
pub mod Statuses
pub mod Loading
pub mod Passes
pub mod Runs
pub mod Repeated
pub mod Stages
pub mod Completion
pub mod Messages
pub mod Buying
pub mod Purchases
pub mod Foreign
pub mod Refused
pub mod Outcomes
pub mod Affiliated
mod Tests
mod PurchaseTests
