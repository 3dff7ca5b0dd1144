-- ===== src/TwoTree.antt =====
-- backend/twotree/ConcurrentTwoBTree.hpp: the two-tree adapter, a hot tree over a cold tree with
-- records that migrate between them. Its operations are modelled as they run under the lock of
-- their key; `Lock` models the locks.
pub mod Record
pub mod State
pub mod Admit
pub mod Access
pub mod Evict
pub mod Handlers
pub mod View
pub mod Eviction
pub mod Scanning
pub mod Transparent
pub mod Answers
pub mod Writes
pub mod LostUpdates
pub mod Scan
