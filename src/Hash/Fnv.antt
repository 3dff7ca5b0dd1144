-- ===== src/Hash/Fnv.antt =====
-- backend/leanstore/utils/FNVHash.cpp: the Fowler-Noll-Vo hash of a word and of a byte string. A byte
-- string is the list of its bytes.
use tree.Prelude.{ℕ, zero, suc, ◌*◌, ◌/◌, ◌%◌, ◌≡◌, List, [], ◌∷◌, bit_xor, u64_mod, refl, arith}

abbrev fnv_offset_basis_64 : ℕ
fnv_offset_basis_64 = 0xCBF29CE484222325

abbrev fnv_prime_64 : ℕ
fnv_prime_64 = 1099511628211

-- The rounds that are left, the rest of the word, and the hash so far.
unfoldable pub hash_word : ℕ → ℕ → ℕ → ℕ
hash_word zero val hash_val = hash_val
hash_word (suc n) val hash_val =
    let octet = val % 256 in
    hash_word n (val / 256) (bit_xor hash_val octet * fnv_prime_64 % u64_mod)

unfoldable pub hash_u64 : ℕ → ℕ
hash_u64 val = hash_word 8 val fnv_offset_basis_64

unfoldable pub hash_bytes : List ℕ → ℕ → ℕ
hash_bytes [] hash_val = hash_val
hash_bytes (d ∷ ds) hash_val =
    let octet = d % 256 in hash_bytes ds (bit_xor hash_val octet * fnv_prime_64 % u64_mod)

unfoldable pub hash : List ℕ → ℕ
hash d = hash_bytes d fnv_offset_basis_64

-- The first bytes of a word in memory, the lowest first.
unfoldable pub memory_bytes : ℕ → ℕ → List ℕ
memory_bytes zero val = []
memory_bytes (suc n) val = val % 256 ∷ memory_bytes n (val / 256)

mod_mod : (val : ℕ) → val % 256 % 256 ≡ val % 256
mod_mod val = omega arith

hash_bytes-memory_bytes :
    (n val hash_val : ℕ) → hash_bytes (memory_bytes n val) hash_val ≡ hash_word n val hash_val
unfolding hash_bytes memory_bytes hash_word
hash_bytes-memory_bytes zero val hash_val = refl
hash_bytes-memory_bytes (suc n) val hash_val = cc (
  mod_mod val,
  hash_bytes-memory_bytes n (val / 256) (bit_xor hash_val (val % 256) * fnv_prime_64 % u64_mod),
)

-- The hash of a word is the hash of its eight bytes, the lowest first.
pub hash-memory_bytes : (val : ℕ) → hash (memory_bytes 8 val) ≡ hash_u64 val
unfolding hash hash_u64
hash-memory_bytes val = hash_bytes-memory_bytes 8 val fnv_offset_basis_64
