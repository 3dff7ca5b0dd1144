-- ===== src/Keys/Fold.antt =====
-- backend/leanstore/BTreeAdapter.hpp: `fold` and `unfold` of unsigned keys. What a word writes to memory
-- are its bytes, the lowest first.
use tree.Prelude.{ℕ, ◌^◌, List, bit_xor, word_bytes}
use mathlib.Core.List.{reverse}
use tree.Node.Update.{word_of}

-- `__builtin_bswap32` and `__builtin_bswap64`, for 4 and for 8 bytes.
unfoldable pub byte_swap : ℕ → ℕ → ℕ
byte_swap size x = word_of (reverse (word_bytes size x))

-- The bytes that `fold` writes.
unfoldable pub fold_u64 : ℕ → List ℕ
unfolding byte_swap
fold_u64 x = word_bytes 8 (byte_swap 8 x)

unfoldable pub fold_u32 : ℕ → List ℕ
unfolding byte_swap
fold_u32 x = word_bytes 4 (byte_swap 4 x)

unfoldable pub unfold_u64 : ℕ → ℕ
unfolding byte_swap
unfold_u64 x = byte_swap 8 x

unfoldable pub unfold_u32 : ℕ → ℕ
unfolding byte_swap
unfold_u32 x = byte_swap 4 x

-- `x` is the word of a signed key, in two's complement.
unfoldable pub fold_s64 : ℕ → List ℕ
unfolding byte_swap
fold_s64 x = word_bytes 8 (byte_swap 8 (bit_xor x (2 ^ 63)))
