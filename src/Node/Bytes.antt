-- ===== src/Node/Bytes.antt =====
-- backend/leanstore/storage/btree/core/BTreeNode.hpp: `cmpKeys` and `head`. A key is the list of its
-- bytes, which carries its length; of the result of `cmpKeys` only the sign is read.
use tree.Prelude.{
  ℕ, suc, ◌+◌, ◌*◌, ◌^◌, ◌≤◌, ◌<◌, ◌≡◌, List, [], ◌∷◌, ◌++◌, arith, refl, min, length, take, drop,
  ltb, if◌then◌else◌, Ordering, compare,
}

-- The loop for short keys: the first byte that differs decides.
unfoldable pub compare_loop : ℕ → List ℕ → List ℕ → Ordering
compare_loop (suc n) (x ∷ a) (y ∷ b) = elim (compare x y) [
  | Ordering.eq ↦ compare_loop n a b
  | Ordering.lt ↦ Ordering.lt
  | Ordering.gt ↦ Ordering.gt
]
compare_loop n a b = Ordering.eq

-- The C library's function.
unfoldable pub memcmp : List ℕ → List ℕ → ℕ → Ordering
memcmp a b n = compare_loop n a b

unfoldable pub cmp_keys : List ℕ → List ℕ → Ordering
cmp_keys a b =
    let n = min (length a) (length b) in
    elim (if ltb n 4 then compare_loop n a b else memcmp a b n) [
      | Ordering.eq ↦ compare (length a) (length b)
      | Ordering.lt ↦ Ordering.lt
      | Ordering.gt ↦ Ordering.gt
    ]

-- The first four bytes as a big-endian word, with zeros for what is missing.
unfoldable pub head : List ℕ → ℕ
head [] = 0
head (a ∷ []) = a * 2 ^ 24
head (a ∷ b ∷ []) = (a * 2 ^ 8 + b) * 2 ^ 16
head (a ∷ b ∷ c ∷ []) = (a * 2 ^ 8 + b) * 2 ^ 16 + c * 2 ^ 8
head (a ∷ b ∷ c ∷ d ∷ _) = ((a * 2 ^ 8 + b) * 2 ^ 8 + c) * 2 ^ 8 + d

-- The order of the keys: lexicographic.
unfoldable pub lex : List ℕ → List ℕ → Ordering
lex [] [] = Ordering.eq
lex [] (y ∷ b) = Ordering.lt
lex (x ∷ a) [] = Ordering.gt
lex (x ∷ a) (y ∷ b) = elim (compare x y) [
  | Ordering.eq ↦ lex a b
  | Ordering.lt ↦ Ordering.lt
  | Ordering.gt ↦ Ordering.gt
]

abbrev pub AreBytes : List ℕ → Type 0
AreBytes [] = Unit
AreBytes (x ∷ xs) = (x < 256) × AreBytes xs

cmp_loop-lex :
    (a b : List ℕ)
    → lex a b ≡ elim (compare_loop (min (length a) (length b)) a b) [
      | Ordering.eq ↦ compare (length a) (length b)
      | Ordering.lt ↦ Ordering.lt
      | Ordering.gt ↦ Ordering.gt
    ]
unfolding lex compare_loop
cmp_loop-lex [] [] = ground arith
cmp_loop-lex [] (y ∷ b) = ground arith
cmp_loop-lex (x ∷ a) [] = ground arith
cmp_loop-lex (x ∷ a) (y ∷ b) =
    let e : min (suc (length a)) (suc (length b)) ≡ suc (min (length a) (length b)) =
      ground arith in
    rw e (ground (arith, cmp_loop-lex a b))

-- `cmpKeys` is the lexicographic order, in its loop as in its call of `memcmp`.
pub cmp_keys-lex : (a b : List ℕ) → cmp_keys a b ≡ lex a b
unfolding cmp_keys memcmp
cmp_keys-lex a b = ground (arith, cmp_loop-lex a b)

pub head-lt : (a b : List ℕ) → AreBytes a → AreBytes b → head a < head b → lex a b ≡ Ordering.lt
unfolding head lex
head-lt [] [] ha hb h = ground arith
head-lt a b ha hb h = ground arith

pub head-gt : (a b : List ℕ) → AreBytes a → AreBytes b → head b < head a → lex a b ≡ Ordering.gt
unfolding head lex
head-gt [] [] ha hb h = ground arith
head-gt a b ha hb h = ground arith

lex_nil : (a : List ℕ) → lex a [] ≡ compare (length a) 0
unfolding lex
lex_nil [] = ground arith
lex_nil (x ∷ a) = ground arith

-- Where a key of at most four bytes has the head of another, the lengths decide.
pub head-eq :
    (a b : List ℕ)
    → AreBytes a
    → AreBytes b
    → head a ≡ head b
    → length b ≤ 4
    → lex a b ≡ compare (length a) (length b)
unfolding head lex
head-eq [] [] ha hb h short = ground arith
head-eq (x ∷ y ∷ z ∷ w ∷ a) (x' ∷ y' ∷ z' ∷ w' ∷ []) ha hb h short = ground (arith, lex_nil a)
head-eq (x ∷ y ∷ z ∷ w ∷ a) (x' ∷ y' ∷ z' ∷ w' ∷ v ∷ b) ha hb h short = absurd (omega arith)
head-eq a b ha hb h short = ground arith

pub lex_refl : (a : List ℕ) → lex a a ≡ Ordering.eq
unfolding lex
lex_refl [] = refl
lex_refl (x ∷ a) = ground (arith, lex_refl a)

pub lex_eq : (a b : List ℕ) → lex a b ≡ Ordering.eq → a ≡ b
unfolding lex
lex_eq [] [] h = refl
lex_eq [] (y ∷ b) h = cc
lex_eq (x ∷ a) [] h = cc
lex_eq (x ∷ a) (y ∷ b) h = ground (arith, lex_eq a b)

pub lex_lt_trans :
    (a b c : List ℕ) → lex a b ≡ Ordering.lt → lex b c ≡ Ordering.lt → lex a c ≡ Ordering.lt
unfolding lex
lex_lt_trans [] [] c h k = cc
lex_lt_trans [] (y ∷ b) [] h k = cc
lex_lt_trans [] (y ∷ b) (z ∷ c) h k = refl
lex_lt_trans (x ∷ a) [] c h k = cc
lex_lt_trans (x ∷ a) (y ∷ b) [] h k = cc
lex_lt_trans (x ∷ a) (y ∷ b) (z ∷ c) h k = ground (arith, lex_lt_trans a b c)

pub lex_swap : (a b : List ℕ) → lex a b ≡ Ordering.gt → lex b a ≡ Ordering.lt
unfolding lex
lex_swap [] [] h = cc
lex_swap [] (y ∷ b) h = cc
lex_swap (x ∷ a) [] h = refl
lex_swap (x ∷ a) (y ∷ b) h = ground (arith, lex_swap a b)

pub lex_swap_lt : (a b : List ℕ) → lex a b ≡ Ordering.lt → lex b a ≡ Ordering.gt
unfolding lex
lex_swap_lt [] [] h = cc
lex_swap_lt [] (y ∷ b) h = refl
lex_swap_lt (x ∷ a) [] h = cc
lex_swap_lt (x ∷ a) (y ∷ b) h = ground (arith, lex_swap_lt a b)

-- A key against a key with a prefix: first the prefix decides, then what follows it.
pub lex-prefix :
    (key p k : List ℕ)
    → lex key (p ++ k) ≡ elim (lex (take (length p) key) p) [
      | Ordering.eq ↦ lex (drop (length p) key) k
      | Ordering.lt ↦ Ordering.lt
      | Ordering.gt ↦ Ordering.gt
    ]
unfolding lex
lex-prefix key [] k = refl
lex-prefix [] (x ∷ p) k = refl
lex-prefix (y ∷ key) (x ∷ p) k = ground (arith, lex-prefix key p k)
