-- ===== src/Lock.antt =====
-- backend/LockManager/LockManager.hpp: the table of lock words that every adapter shares, the
-- optimistic guard (the one that `LockGuardProxy` selects) and the pessimistic guard.
pub mod Table
pub mod Optimistic
pub mod Protocol
pub mod Exclusion
pub mod Snapshot
pub mod Pessimistic
pub mod Holders
