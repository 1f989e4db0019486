-- ===== src/Vsthrottle.antt =====
-- src/vmod_vsthrottle.c: token buckets, in 16 partitions.
pub mod Double
pub mod Bucket
pub mod Table
pub mod Burst
pub mod Collect
pub mod Limit
pub mod Unseen
pub mod Refill
pub mod Spec
pub mod Refines
pub mod Digest
pub mod Pending
pub mod Held
pub mod Blocked
pub mod Paid
pub mod Rate
