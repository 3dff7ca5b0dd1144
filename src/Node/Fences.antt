-- ===== src/Node/Fences.antt =====
-- backend/leanstore/storage/btree/core/BTreeNode.cpp: `setFences`. The keys of a node lie between its
-- fences, above the lower one and not above the upper one, and so share what the fences share.
use tree.Prelude.{
  ℕ, suc, ◌+◌, ◌≤◌, ◌<◌, ◌≡◌, ◌≢◌, inl, inr, Bool, true, false, Option, none, some, List, [], ◌∷◌,
  arith, refl, sym, ap, ◌∙◌, ◌==◌, length, take, Bool-cases, Ordering,
}
use tree.Node.Bytes.{lex}
use tree.Node.State.{Layout, Node, get_fence_key}
use tree.Node.Store.{common_bytes, bytes_or_none, fenced_node}
use tree.Node.State.{HasPrefix}

abbrev pub Above : Option (List ℕ) → List ℕ → Type 0
Above none key = Unit
Above (some a) key = lex a key ≡ Ordering.lt

abbrev pub NotAbove : Option (List ℕ) → List ℕ → Type 0
NotAbove none key = Unit
NotAbove (some b) key = lex key b ≢ Ordering.gt

-- `lower < key <= upper`, where there are such fences.
abbrev pub Between : Option (List ℕ) → Option (List ℕ) → List ℕ → Type 0
Between lower upper key = Above lower key × NotAbove upper key

abbrev pub lower_key : Node → Option (List ℕ)
lower_key n = get_fence_key n.lower_fence

abbrev pub upper_key : Node → Option (List ℕ)
upper_key n = get_fence_key n.upper_fence

-- The prefix is what the fences have in common.
pub record IsFenced (n : Node) : Type 0 where
  pub lower_bytes : n.lower_fence.bytes ≡ bytes_or_none (lower_key n)
  pub common :
      n.prefix_length ≡ common_bytes (bytes_or_none (lower_key n)) (bytes_or_none (upper_key n))

pub common_ne : (x y : ℕ) (a b : List ℕ) → (x == y) ≡ false → common_bytes (x ∷ a) (y ∷ b) ≡ 0
unfolding common_bytes
common_ne x y a b e = ground arith

pub common_eq :
    (x y : ℕ) (a b : List ℕ)
    → (x == y) ≡ true
    → common_bytes (x ∷ a) (y ∷ b) ≡ suc (common_bytes a b)
unfolding common_bytes
common_eq x y a b e = ground arith

common_between :
    (a b key : List ℕ)
    → lex a key ≡ Ordering.lt
    → lex key b ≢ Ordering.gt
    → take (common_bytes a b) key ≡ take (common_bytes a b) a
unfolding common_bytes lex
common_between [] b key h k = refl
common_between (x ∷ a) [] key h k = refl
common_between (x ∷ a) (y ∷ b) [] h k = cc
common_between (x ∷ a) (y ∷ b) (z ∷ key) h k = elim (Bool-cases (x == y)) [
  | inr e ↦
      ap (λ m. take m (z ∷ key)) (common_ne x y a b e)
      ∙ sym (ap (λ m. take m (x ∷ a)) (common_ne x y a b e))
  | inl e ↦
      ap (λ m. take m (z ∷ key)) (common_eq x y a b e)
      ∙ ground (arith, common_between a b key)
      ∙ sym (ap (λ m. take m (x ∷ a)) (common_eq x y a b e))
]

pub common_bytes-le : (a b : List ℕ) → common_bytes a b ≤ length a
unfolding common_bytes
common_bytes-le [] b = omega arith
common_bytes-le (x ∷ a) [] = omega arith
common_bytes-le (x ∷ a) (y ∷ b) = ground (arith, common_bytes-le a b)

pub common_bytes-nil : (a : List ℕ) → common_bytes a [] ≡ 0
unfolding common_bytes
common_bytes-nil [] = refl
common_bytes-nil (x ∷ a) = refl

pub Between-common :
    (lower upper : Option (List ℕ)) (key : List ℕ)
    → Between lower upper key
    → (let k = common_bytes (bytes_or_none lower) (bytes_or_none upper) in
        take k key ≡ take k (bytes_or_none lower))
unfolding common_bytes
Between-common none upper key h = refl
Between-common (some a) none key h = rw (common_bytes-nil a)
Between-common (some a) (some b) key h = common_between a b key h.0 h.1

pub Between-HasPrefix :
    (n : Node) (key : List ℕ)
    → IsFenced n
    → Between (lower_key n) (upper_key n) key
    → HasPrefix n key
Between-HasPrefix n key f h =
    ap (λ k. take k key) f.common
    ∙ Between-common (lower_key n) (upper_key n) key h
    ∙ sym (
        ap (λ k. take k n.lower_fence.bytes) f.common
        ∙ ap
            (λ b. take (common_bytes (bytes_or_none (lower_key n)) (bytes_or_none (upper_key n))) b)
            f.lower_bytes)

pub IsFenced-prefix_fits : (n : Node) → IsFenced n → n.prefix_length ≤ length n.lower_fence.bytes
IsFenced-prefix_fits n f = omega (
  arith,
  ap (λ (l : List ℕ). length l) f.lower_bytes,
  f.common,
  common_bytes-le (bytes_or_none (lower_key n)) (bytes_or_none (upper_key n)),
)

-- A fresh node with room for the fences has them, and the bytes that they take.
pub record HasFences (L : Layout) (n : Node) (lower upper : Option (List ℕ)) : Type 0 where
  pub lower_is : lower_key n ≡ lower
  pub upper_is : upper_key n ≡ upper
  pub fenced : IsFenced n
  pub used : n.space_used ≡ length (bytes_or_none lower) + length (bytes_or_none upper)
  pub offset : n.data_offset + n.space_used ≡ L.page_bytes
  pub empty : n.slot ≡ []

pub fenced_node-HasFences :
    (L : Layout) (leaf : Bool) (lower upper : Option (List ℕ))
    → L.page_bytes < 65536
    → length (bytes_or_none lower) + length (bytes_or_none upper) < L.page_bytes
    → HasFences L (fenced_node L leaf lower upper) lower upper
unfolding fenced_node get_fence_key
fenced_node-HasFences L leaf none none h k = ground arith
fenced_node-HasFences L leaf lower upper h k = ground arith
