-- ===== src/Index.antt =====
-- backend/leanstore/storage/btree/core/BTreeInterface.hpp: what the adapters ask of a B-tree. A key
-- is the number that `fold` writes in order-preserving bytes. The trees are parameters of the
-- adapters; `Sorted` fills the interface with sorted lists.
mod Contract
pub mod Sorted
pub use Contract.*
