-- ===== src/Tests/Hashes.antt =====
-- Witnesses for the hashes.
use tree.Prelude.{◌≡◌}
use tree.Hash.Fnv.{hash, hash_u64, memory_bytes, hash-memory_bytes}

hash-memory_bytes_example : hash (memory_bytes 8 81985529216486895) ≡ hash_u64 81985529216486895
hash-memory_bytes_example = hash-memory_bytes 81985529216486895
