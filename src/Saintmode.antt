-- ===== src/Saintmode.antt =====
-- src/vmod_saintmode.c: the blacklist of each saintmode director.
pub mod Trouble
pub mod Director
pub mod Check
pub mod Blacklist
pub mod Recovery
pub mod Record
pub mod Recorded
pub mod Race
