-- ===== src/Merge.antt =====
-- cmd/filecloud/library_merge.go: the three-way merge of one entry, and the names of conflict copies.
pub mod Entry
pub mod Names
pub mod Examples
