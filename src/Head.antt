-- ===== src/Head.antt =====
-- The validation of a new head of a library (internal/library/head.go) before it is published.
pub mod State
pub mod Snapshot
pub mod Complete
pub mod Sound
pub mod Reading
pub mod Ends
pub mod Candidate
pub mod Examples
pub mod Etag
pub mod Update
mod UpdateExamples
