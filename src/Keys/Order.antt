-- ===== src/Keys/Order.antt =====
-- backend/leanstore/BTreeAdapter.hpp: the bytes of a folded key keep the order of the keys, and give the
-- key back.
use tree.Prelude.{
  ℕ, zero, suc, ◌+◌, ◌*◌, ◌/◌, ◌%◌, ◌<◌, ◌≡◌, List, [], ◌∷◌, ◌++◌, arith, refl, sym, ap, subst, ◌^◌,
  ◌∙◌, length, compare, Ordering, word_bytes,
}
use mathlib.Core.List.{reverse, reverse-cons, reverse-reverse}
use tree.Node.Bytes.{lex, AreBytes}
use tree.Node.Update.{word_of}
use tree.Keys.Fold.{byte_swap, fold_u64, fold_u32, unfold_u64, unfold_u32}

-- The words of so many bytes end here.
abbrev pub words : ℕ → ℕ
words zero = 1
words (suc n) = 256 * words n

length-snoc : (xs : List ℕ) (x : ℕ) → length (xs ++ (x ∷ [])) ≡ suc (length xs)
length-snoc [] x = refl
length-snoc (y ∷ xs) x = ap suc (length-snoc xs x)

length-reverse : (xs : List ℕ) → length (reverse xs) ≡ length xs
length-reverse [] = refl
length-reverse (x ∷ xs) =
    ap length (reverse-cons x xs) ∙ length-snoc (reverse xs) x ∙ ap suc (length-reverse xs)

AreBytes-snoc : (xs : List ℕ) (x : ℕ) → AreBytes xs → x < 256 → AreBytes (xs ++ (x ∷ []))
AreBytes-snoc [] x h k = (k, tt)
AreBytes-snoc (y ∷ xs) x h k = (h.0, AreBytes-snoc xs x h.1 k)

AreBytes-reverse : (xs : List ℕ) → AreBytes xs → AreBytes (reverse xs)
AreBytes-reverse [] h = tt
AreBytes-reverse (x ∷ xs) h =
    subst AreBytes (sym (reverse-cons x xs))
      (AreBytes-snoc (reverse xs) x (AreBytes-reverse xs h.1) h.0)

word_bytes-AreBytes : (n x : ℕ) → AreBytes (word_bytes n x)
word_bytes-AreBytes zero x = tt
word_bytes-AreBytes (suc n) x = (omega arith, word_bytes-AreBytes n (x / 256))

length-word_bytes : (n x : ℕ) → length (word_bytes n x) ≡ n
length-word_bytes zero x = refl
length-word_bytes (suc n) x = ap suc (length-word_bytes n (x / 256))

-- A word that is read from memory writes what was read.
word_bytes-word_of : (xs : List ℕ) → AreBytes xs → word_bytes (length xs) (word_of xs) ≡ xs
unfolding word_of
word_bytes-word_of [] h = refl
word_bytes-word_of (x ∷ xs) h =
    let low : (x + 2 ^ 8 * word_of xs) % 256 ≡ x = omega (arith, h.0) in
    let rest : (x + 2 ^ 8 * word_of xs) / 256 ≡ word_of xs = omega (arith, h.0) in
    ap (λ a. a ∷ word_bytes (length xs) ((x + 2 ^ 8 * word_of xs) / 256)) low
    ∙ ap (λ l. x ∷ l) (ap (λ w. word_bytes (length xs) w) rest ∙ word_bytes-word_of xs h.1)

word_of-word_bytes : (n x : ℕ) → x < words n → word_of (word_bytes n x) ≡ x
unfolding word_of
word_of-word_bytes zero x h = omega arith
word_of-word_bytes (suc n) x h = omega (arith, word_of-word_bytes n (x / 256) (omega arith))

reversed_length : (n x : ℕ) → length (reverse (word_bytes n x)) ≡ n
reversed_length n x = length-reverse (word_bytes n x) ∙ length-word_bytes n x

swapped : (n x : ℕ) → word_bytes n (byte_swap n x) ≡ reverse (word_bytes n x)
unfolding byte_swap
swapped n x =
    let l : List ℕ = reverse (word_bytes n x) in
    ap (λ k. word_bytes k (word_of l)) (sym (reversed_length n x))
    ∙ word_bytes-word_of l (AreBytes-reverse (word_bytes n x) (word_bytes-AreBytes n x))

-- The second comparison decides where the first one does not.
abbrev after : Ordering → Ordering → Ordering
after second Ordering.eq = second
after second Ordering.lt = Ordering.lt
after second Ordering.gt = Ordering.gt

lex-snoc :
    (a b : List ℕ) (x y : ℕ)
    → length a ≡ length b
    → lex (a ++ (x ∷ [])) (b ++ (y ∷ [])) ≡ after (compare x y) (lex a b)
unfolding lex
lex-snoc [] [] x y h = ground arith
lex-snoc [] (v ∷ b) x y h = absurd (omega arith)
lex-snoc (u ∷ a) [] x y h = absurd (omega arith)
lex-snoc (u ∷ a) (v ∷ b) x y h = ground (arith, lex-snoc a b x y (omega arith))

compare_parts :
    (x y : ℕ) → compare x y ≡ after (compare (x % 256) (y % 256)) (compare (x / 256) (y / 256))
compare_parts x y = ground arith

lex-reverse :
    (n x y : ℕ)
    → x < words n
    → y < words n
    → lex (reverse (word_bytes n x)) (reverse (word_bytes n y)) ≡ compare x y
unfolding lex
lex-reverse zero x y h k = ground arith
lex-reverse (suc n) x y h k =
    let a : List ℕ = reverse (word_bytes n (x / 256)) in
    let b : List ℕ = reverse (word_bytes n (y / 256)) in
    let same : length a ≡ length b =
      reversed_length n (x / 256) ∙ sym (reversed_length n (y / 256)) in
    let inner : lex a b ≡ compare (x / 256) (y / 256) =
      lex-reverse n (x / 256) (y / 256) (omega arith) (omega arith) in
    ap (λ l. lex l (reverse (word_bytes (suc n) y)))
      (reverse-cons (x % 256) (word_bytes n (x / 256)))
    ∙ ap (λ l. lex (a ++ (x % 256 ∷ [])) l) (reverse-cons (y % 256) (word_bytes n (y / 256)))
    ∙ lex-snoc a b (x % 256) (y % 256) same
    ∙ ap (after (compare (x % 256) (y % 256))) inner
    ∙ sym (compare_parts x y)

pub in_order :
    (n x y : ℕ)
    → x < words n
    → y < words n
    → lex (word_bytes n (byte_swap n x)) (word_bytes n (byte_swap n y)) ≡ compare x y
in_order n x y h k =
    ap (λ l. lex l (word_bytes n (byte_swap n y))) (swapped n x)
    ∙ ap (λ l. lex (reverse (word_bytes n x)) l) (swapped n y)
    ∙ lex-reverse n x y h k

swap_back : (n x : ℕ) → x < words n → byte_swap n (byte_swap n x) ≡ x
unfolding byte_swap
swap_back n x h =
    ap (λ l. word_of (reverse l)) (swapped n x)
    ∙ ap word_of (reverse-reverse (word_bytes n x))
    ∙ word_of-word_bytes n x h

swap_read : (n x : ℕ) → word_of (word_bytes n (byte_swap n x)) ≡ byte_swap n x
unfolding byte_swap
swap_read n x = ap word_of (swapped n x)

-- The bytes of folded keys are in the order of the keys, and `unfold` of the word that they are in memory
-- gives the key back, for words of 64 and of 32 bits.
pub fold-lex :
    (x y a b : ℕ)
    → x < 2 ^ 64
    → y < 2 ^ 64
    → a < 2 ^ 32
    → b < 2 ^ 32
    → (lex (fold_u64 x) (fold_u64 y) ≡ compare x y)
      × (unfold_u64 (word_of (fold_u64 x)) ≡ x)
      × (lex (fold_u32 a) (fold_u32 b) ≡ compare a b)
      × (unfold_u32 (word_of (fold_u32 a)) ≡ a)
unfolding fold_u64 fold_u32 unfold_u64 unfold_u32
fold-lex x y a b hx hy ha hb = (
  in_order 8 x y hx hy,
  ap (byte_swap 8) (swap_read 8 x) ∙ swap_back 8 x hx,
  in_order 4 a b ha hb,
  ap (byte_swap 4) (swap_read 4 a) ∙ swap_back 4 a ha,
)
