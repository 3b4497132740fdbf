-- ===== src/Js.antt =====
-- JavaScript values as the packages inspect them at their boundaries.
pub mod Value
pub mod Show
pub mod Json
