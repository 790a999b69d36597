-- ===== src/Affiliates.antt =====
-- Commissions and earnings of the affiliates: src/affiliates/affiliates.service.ts.
pub mod Commissions
pub mod Settlement
pub mod Links
pub mod Sums
pub mod Earnings
pub mod Payments
pub mod Chosen
pub mod Effects
pub mod Settling
pub mod Soundness
pub mod Steps
pub mod Marking
mod Tests
