-- ===== src/Ledger/Effects.antt =====
-- Each method of the ledger's services as posts of the abstract ledger (Ledger/Posting).
pub mod Found
pub mod Deposits
pub mod Transfers
pub mod Reversals
pub mod Openings
