-- ===== src/Kyc.antt =====
-- KYC levels of the customers: src/customers/kyc-limits.service.ts and
-- src/customers/kyc-upgrade.service.ts.
pub mod Upgrades
pub mod Pending
pub mod Orderly
pub mod Advances
pub mod Levels
pub mod Limits
pub mod Quota
pub mod Usage
mod Tests
