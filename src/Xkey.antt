-- ===== src/Xkey.antt =====
-- src/vmod_xkey.c: the index of secondary keys.
pub mod Tokens
pub mod Index
pub mod Refines
pub mod Remove
pub mod Events
pub mod Purge
pub mod Headers
pub mod Purged
pub mod Cleanup
pub mod History
pub mod Threads
pub mod Apart
pub mod Simulates
pub mod Bisimilar
pub mod Promise
