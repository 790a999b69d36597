-- ===== src/Boleto.antt =====
-- Paying a boleto with crypto: src/boleto-payments/boleto-payments.service.ts.
pub mod Quotes
pub mod Payments
pub mod Admin
pub mod Custody
pub mod Refunds
pub mod Creation
pub mod Effects
pub mod Lifecycle
mod Tests
