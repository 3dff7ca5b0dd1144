-- ===== src/Buffer/Swip.antt =====
-- backend/leanstore/storage/buffer-manager/Swip.hpp: one 64-bit word that is a frame's address, hot
-- or cooling, or an evicted page's id. Bit 63 says evicted and bit 62 cooling; each bit operation
-- is written as the arithmetic that it does on a word below 2^64.
use tree.Prelude.{ℕ, ◌+◌, ◌*◌, ◌/◌, ◌%◌, ◌^◌, ◌<◌, ◌==◌, ◌≡◌, Bool, true, false, arith}

abbrev pub cool_bit : ℕ
cool_bit = 2 ^ 62

abbrev pub evicted_bit : ℕ
evicted_bit = 2 ^ 63

unfoldable pub is_hot : ℕ → Bool
is_hot pid = pid / cool_bit == 0

unfoldable pub is_cool : ℕ → Bool
is_cool pid = pid / cool_bit % 2 == 1

unfoldable pub is_evicted : ℕ → Bool
is_evicted pid = pid / evicted_bit % 2 == 1

unfoldable pub as_page_id : ℕ → ℕ
as_page_id pid = pid % evicted_bit

unfoldable pub bf_ptr_as_hot : ℕ → ℕ
bf_ptr_as_hot pid = pid % cool_bit

-- `warm()`: clears the cooling bit; the code asserts that it is set.
unfoldable pub warm : ℕ → ℕ
warm pid = pid / evicted_bit * evicted_bit + pid % cool_bit

unfoldable pub cool : ℕ → ℕ
cool pid = pid / evicted_bit * evicted_bit + cool_bit + pid % cool_bit

unfoldable pub evict : ℕ → ℕ
evict page = evicted_bit + page % evicted_bit

-- For a frame address below 2^62: it is hot; cooled it is cooling and neither hot nor evicted, and
-- its address is kept; warming it gives the address back. For a page id below 2^63: evicted, the
-- word is marked as evicted and not as hot, and gives the page id back.
swip_states :
    (bf page : ℕ)
    → bf < cool_bit
    → page < evicted_bit
    → (is_hot bf ≡ true)
      × (is_hot (cool bf) ≡ false)
      × (is_cool (cool bf) ≡ true)
      × (is_evicted (cool bf) ≡ false)
      × (bf_ptr_as_hot (cool bf) ≡ bf)
      × (warm (cool bf) ≡ bf)
      × (is_evicted (evict page) ≡ true)
      × (is_hot (evict page) ≡ false)
      × (as_page_id (evict page) ≡ page)
unfolding is_hot is_cool is_evicted as_page_id bf_ptr_as_hot warm cool evict
swip_states bf page hb hp = ground arith
