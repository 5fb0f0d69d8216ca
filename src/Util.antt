-- ===== src/Util.antt =====
-- util/: the status that a failing call returns, the union of a status and a value, the canonical
-- errors, and the macros that return early.
pub mod Status
pub mod Result
pub mod StatusOr
pub mod Macros
pub mod Exec
