-- ===== src/Object.antt =====
-- internal/object: identities, names, paths and the canonical encoding of content objects.
pub mod Text
pub mod Ids
pub mod Names
pub mod Decimal
pub mod Timestamp
pub mod Surrogates
pub mod Stream
pub mod Values
pub mod Decode
pub mod Encode
pub mod Canonical
pub mod Examples
