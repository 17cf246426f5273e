-- ===== src/Seen.antt =====
-- crates/poholos/src/seen.rs: the cache of recently heard packet keys, in its two backends, and the
-- recency list that both implement.
pub mod Recency
pub mod Ring
pub mod Linked
pub mod Cache
