-- ===== src/Go.antt =====
-- What the program has from Go: errors, durations, and the control flow of a reconciler.
pub mod Errors
pub mod Flow
pub mod Costs
