-- ===== src/Node/Boundaries.antt =====
-- backend/leanstore/storage/btree/core/BTreeNode.cpp: `compareKeyWithBoundaries`.
use tree.Prelude.{◌≡◌, ◌↔◌, Option, none, some, List, ℕ, arith, Ordering}
use tree.Node.Bytes.{cmp_keys, cmp_keys-lex, lex_swap, lex_swap_lt}
use tree.Node.State.{Node}
use tree.Node.Fences.{Between, lower_key, upper_key}
use tree.Node.Update.{Side, not_above_lower, above_upper, inside, compare_key_with_boundaries}

-- The comparison, with the fences as arguments.
side : Option (List ℕ) → Option (List ℕ) → List ℕ → Side
side lower upper key =
    let below_upper : Side = elim upper [
      | none ↦ inside
      | some fence ↦ elim (cmp_keys key fence) [
        | Ordering.gt ↦ above_upper
        | Ordering.lt ↦ inside
        | Ordering.eq ↦ inside
      ]
    ] in
    elim lower [
      | none ↦ below_upper
      | some fence ↦ elim (cmp_keys key fence) [
        | Ordering.gt ↦ below_upper
        | Ordering.lt ↦ not_above_lower
        | Ordering.eq ↦ not_above_lower
      ]
    ]

side-Between :
    (lower upper : Option (List ℕ)) (key : List ℕ)
    → side lower upper key ≡ inside
    → Between lower upper key
unfolding side
side-Between none none key h = (tt, tt)
side-Between none (some u) key h = (tt, λ g. ground (arith, cmp_keys-lex key u))
side-Between (some l) none key h = (ground (arith, cmp_keys-lex key l, lex_swap key l), tt)
side-Between (some l) (some u) key h = (
  ground (arith, cmp_keys-lex key l, lex_swap key l),
  λ g. ground (arith, cmp_keys-lex key l, cmp_keys-lex key u),
)

Between-side :
    (lower upper : Option (List ℕ)) (key : List ℕ)
    → Between lower upper key
    → side lower upper key ≡ inside
unfolding side
Between-side none none key h = ground arith
Between-side none (some u) key h = ground (arith, cmp_keys-lex key u)
Between-side (some l) none key h = ground (arith, cmp_keys-lex key l, lex_swap_lt l key)
Between-side (some l) (some u) key h =
    ground (arith, cmp_keys-lex key l, cmp_keys-lex key u, lex_swap_lt l key)

-- `compareKeyWithBoundaries` returns 0 for exactly the keys above the lower fence and not above the
-- upper one, where there are such fences.
pub compare_key_with_boundaries-Between :
    (n : Node) (key : List ℕ)
    → (compare_key_with_boundaries n key ≡ inside) ↔ Between (lower_key n) (upper_key n) key
unfolding compare_key_with_boundaries side
compare_key_with_boundaries-Between n key =
    (side-Between (lower_key n) (upper_key n) key, Between-side (lower_key n) (upper_key n) key)
