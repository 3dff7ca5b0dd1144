-- ===== src/Keys/Signed.antt =====
-- backend/leanstore/BTreeAdapter.hpp: `fold` of signed keys flips the sign bit first.
use tree.Prelude.{
  ℕ, zero, suc, ◌+◌, ◌-◌, ◌*◌, ◌/◌, ◌%◌, ◌^◌, ◌≤◌, ◌<◌, ◌≡◌, arith, refl, ap, ◌∙◌, bit_xor, compare,
  Ordering, ltb, if◌then◌else◌,
}
use Prim.Native.Nat.{bit_xor-bitwise, digits, differ}
use tree.Node.Bytes.{lex}
use tree.Keys.Fold.{fold_s64}
use tree.Keys.Order.{in_order}

-- `2 ^ k`.
abbrev top : ℕ → ℕ
top zero = 1
top (suc k) = 2 * top k

abbrev xor_digits : ℕ → ℕ → ℕ → ℕ
xor_digits n a b = digits (λ b. b) differ n a b

top_positive : (k : ℕ) → 0 < top k
top_positive zero = omega arith
top_positive (suc k) = omega (arith, top_positive k)

differ-zero : (x : ℕ) → differ x 0 ≡ x
differ-zero zero = refl
differ-zero (suc x) = refl

-- The first number has at most so many digits.
flipped :
    (k n a : ℕ)
    → a ≤ n
    → a < top (suc k)
    → xor_digits n a (top k) ≡ (if ltb a (top k) then a + top k else a - top k)
flipped zero zero zero h g = refl
flipped zero zero (suc a) h g = absurd (omega arith)
flipped zero (suc n) zero h g = refl
flipped zero (suc zero) (suc zero) h g = refl
flipped zero (suc (suc n)) (suc zero) h g = refl
flipped zero (suc n) (suc (suc a)) h g = absurd (omega arith)
flipped (suc k) zero zero h g = ground arith
flipped (suc k) (suc n) zero h g = ground (arith, top_positive k)
flipped (suc k) zero (suc a) h g = absurd (omega arith)
flipped (suc k) (suc n) (suc a) h g =
    let half : top (suc k) / 2 ≡ top k = omega arith in
    let even : top (suc k) % 2 ≡ 0 = omega arith in
    let inner = flipped k n (suc a / 2) (omega arith) (omega arith) in
    rw (half, even, differ-zero (suc a % 2), inner) (ground arith)

-- The order of the signed numbers that these words of 64 bits are in two's complement.
unfoldable pub signed_compare : ℕ → ℕ → Ordering
signed_compare x y =
    if ltb x (2 ^ 63)
    then (if ltb y (2 ^ 63) then compare x y else Ordering.gt)
    else (if ltb y (2 ^ 63) then Ordering.lt else compare x y)

flip_sign :
    (x : ℕ) → x < 2 ^ 64 → bit_xor x (2 ^ 63) ≡ (if ltb x (2 ^ 63) then x + 2 ^ 63 else x - 2 ^ 63)
flip_sign x h = bit_xor-bitwise x (2 ^ 63) ∙ flipped 63 x x (omega arith) h

compare_flipped :
    (x y : ℕ)
    → x < 2 ^ 64
    → y < 2 ^ 64
    → compare
        (if ltb x (2 ^ 63) then x + 2 ^ 63 else x - 2 ^ 63)
        (if ltb y (2 ^ 63) then y + 2 ^ 63 else y - 2 ^ 63)
      ≡ signed_compare x y
unfolding signed_compare
compare_flipped x y hx hy = ground arith

-- The bytes of folded signed keys of 64 bits are in the order of the numbers that the keys are in two's complement.
pub fold_s64-lex :
    (x y : ℕ) → x < 2 ^ 64 → y < 2 ^ 64 → lex (fold_s64 x) (fold_s64 y) ≡ signed_compare x y
unfolding fold_s64
fold_s64-lex x y hx hy =
    in_order 8 (bit_xor x (2 ^ 63)) (bit_xor y (2 ^ 63)) (rw (flip_sign x hx) (ground arith))
      (rw (flip_sign y hy) (ground arith))
    ∙ ap (λ a. compare a (bit_xor y (2 ^ 63))) (flip_sign x hx)
    ∙ ap (λ b. compare (if ltb x (2 ^ 63) then x + 2 ^ 63 else x - 2 ^ 63) b) (flip_sign y hy)
    ∙ compare_flipped x y hx hy
