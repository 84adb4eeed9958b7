-- ===== src/Scanguard.antt =====
-- internal/scanguard: the lengths of bans, the in-process store of misses and bans, and the guard.
pub mod Lengths
pub mod Memory
pub mod Guard
pub mod Redis
mod Scenarios
