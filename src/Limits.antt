-- ===== src/Limits.antt =====
-- internal/library/history_limits.go and head_limits.go: the limiters of concurrent requests. A slot
-- is given back by a closure over a sync.Once, which a request may call more than once.
pub mod History
pub mod HeadValidation
pub mod Config
pub mod Examples
