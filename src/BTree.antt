-- ===== src/BTree.antt =====
-- backend/leanstore/storage/btree/core/BTreeGeneric.hpp and backend/leanstore/storage/btree/BTreeLL.cpp.
pub mod Descent
pub mod Routing
pub mod Finding
pub mod Bounds
pub mod Contents
