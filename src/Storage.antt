-- ===== src/Storage.antt =====
-- internal/storage: where objects are stored, and what removes them.
pub mod Objects
pub mod Collector
pub mod Heads
pub mod Examples
mod HeadExamples
