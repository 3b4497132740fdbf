-- ===== src/ComputerUse.antt =====
-- packages/computer-use-contract/src/index.mjs.
pub mod Base
pub mod Address
pub mod Policy
pub mod Network
pub mod Action
pub mod Checks
pub mod Session
mod Tests
