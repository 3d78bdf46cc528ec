-- ===== src/Allocator.antt =====
-- The allocator (wallet-core/src/allocator.rs): the decisions of one pass over a snapshot. Each
-- child module models one part of the file; `Decide` composes them.
pub mod Sizing
pub mod Keys
pub mod Eligibility
pub mod Admission
pub mod Evacuation
pub mod Funding
pub mod Decide
