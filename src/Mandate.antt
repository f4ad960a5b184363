-- ===== src/Mandate.antt =====
-- Payment mandates of src/mandate.ts: amounts of money, the total of a cart, and the spend ledger.
pub mod Money
pub mod Ledger
pub mod Document
pub mod Check
pub mod Payment
pub mod Issue
