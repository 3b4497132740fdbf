-- ===== src/Actions.antt =====
-- packages/action-runtime/src: the handlers of the built-in actions, and the runtime around them.
pub mod Base
pub mod Lines
pub mod Diff
pub mod Ipv4
pub mod Contract
pub mod Order
pub mod Registry
pub mod Query
pub mod Receipt
pub mod Executor
pub mod Recipe
pub mod Descriptor
pub mod Samples
pub mod Tests
