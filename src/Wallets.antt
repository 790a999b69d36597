-- ===== src/Wallets.antt =====
-- A customer's wallets: src/wallet/wallet.service.ts.
pub mod Currencies
pub mod Management
pub mod Keeping
pub mod Mains
pub mod Orderly
pub mod Effects
pub mod Generated
pub mod Steps
pub mod Choosing
pub mod Importing
mod Tests
