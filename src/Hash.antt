-- ===== src/Hash.antt =====
-- backend/leanstore/utils/FNVHash.hpp and FNVHash.cpp.
pub mod Fnv
