-- ===== src/Executor.antt =====
-- The pure core of the fedimint executor (wallet-fedimint/src/executor.rs): what a fresh move costs,
-- and how an evacuation is sized.
pub mod Run
pub mod Cost
pub mod Boundary
pub mod Sizing
pub mod Search
pub mod Diagnosis
pub mod Evacuation
pub mod GrossUp
pub mod Fresh
pub mod Perform
