-- ===== src/Types.antt =====
-- The data that the core passes around (wallet-core/src/types.rs, and `Actor` of ledger.rs).
-- Amounts are millisatoshis as numbers, and a federation's 32 bytes are read as one number, whose
-- order is that of the bytes.
pub mod Federation
pub mod Action
pub mod Record
