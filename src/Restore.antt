-- ===== src/Restore.antt =====
-- cmd/filecloud/library_restore_planner.go: the plan of a safe restore, which overlays the entries of
-- a historic snapshot on the current one.
pub mod State
pub mod Lookup
pub mod Invariant
pub mod Loading
pub mod Walk
pub mod Overlay
pub mod Path
pub mod Plan
pub mod Examples
