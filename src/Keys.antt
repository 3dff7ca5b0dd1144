-- ===== src/Keys.antt =====
-- backend/leanstore/BTreeAdapter.hpp: the bytes of keys.
pub mod Fold
pub mod Order
pub mod Signed
