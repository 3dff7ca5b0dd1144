-- ===== src/Node/MergeSpace.antt =====
-- backend/leanstore/storage/btree/core/BTreeNode.cpp: when `merge` merges two leaves.
use tree.Prelude.{
  ℕ, ◌+◌, ◌-◌, ◌*◌, ◌%◌, ◌≤◌, ◌<◌, ◌≡◌, ◌≢◌, Bool, true, Option, none, some, List, [], ◌∷◌, ◌++◌,
  arith, refl, ap, ◌∙◌, length, if_true, if_false, ltb, sub16, Bool-cases, ◌==◌, inl, inr, Ordering,
}
use tree.Node.State.{Layout, Node, count, slots_end}
use tree.Node.Store.{bytes_or_none, common_bytes, fenced_node, set_fences, make_hint}
use tree.Node.Bytes.{lex}
use tree.Node.Fences.{Above, NotAbove, common_bytes-nil, lower_key, upper_key, common_ne}
use tree.Node.Records.{entries}
use tree.Node.Update.{remove_slot}
use tree.Node.Restructure.{merged_fences, merge_bound, merge}
use tree.Node.Parting.{IsPart}
use tree.Node.Merging.{AreNeighbours, merged_leaf, merged_leaf-IsPart}

-- What the fences of the merged node share.
abbrev pub merged_prefix : Node → Node → ℕ
merged_prefix left right =
    common_bytes (bytes_or_none (lower_key left)) (bytes_or_none (upper_key right))

-- The bound of the space with no word in between: what both nodes use, the slots, and the bytes that
-- the keys regain where the prefix gets shorter.
abbrev pub exact_bound : Layout → Node → Node → ℕ
exact_bound L left right =
    left.space_used
    + right.space_used
    + slots_end L (count left + count right)
    + (left.prefix_length - merged_prefix left right) * count left
    + (right.prefix_length - merged_prefix left right) * count right

merged_prefix_is :
    (L : Layout) (leaf : Bool) (left right : Node)
    → (merged_fences L leaf left right).prefix_length ≡ merged_prefix left right
unfolding fenced_node set_fences
merged_prefix_is L leaf left right = refl

sum_mod : (x lg rg : ℕ) → (x + lg % 65536 + rg % 65536 + 0) % 65536 ≡ (x + lg + rg) % 65536
sum_mod x lg rg = omega arith

sub16_exact : (p k : ℕ) → p < 65536 → k ≤ p → sub16 p k ≡ p - k
sub16_exact p k h le = omega arith

-- The bound that `merge` computes is the exact one, cut to 16 bits.
merge_bound_mod :
    (L : Layout) (left right : Node)
    → left.prefix_length < 65536
    → right.prefix_length < 65536
    → merged_prefix left right ≤ left.prefix_length
    → merged_prefix left right ≤ right.prefix_length
    → merge_bound L left right (merged_fences L left.is_leaf left right) 0
      ≡ exact_bound L left right % 65536
unfolding merge_bound
merge_bound_mod L left right hl hr l r =
    let k = merged_prefix left right in
    let base = left.space_used + right.space_used + slots_end L (count left + count right) in
    rw
      (
        merged_prefix_is L left.is_leaf left right,
        sub16_exact left.prefix_length k hl l,
        sub16_exact right.prefix_length k hr r,
      )
      (sum_mod base ((left.prefix_length - k) * count left)
        ((right.prefix_length - k) * count right))

common_within :
    (a s b : List ℕ)
    → lex a s ≡ Ordering.lt
    → lex s b ≢ Ordering.gt
    → (common_bytes a b ≤ common_bytes a s) × (common_bytes a b ≤ common_bytes s b)
unfolding common_bytes lex
common_within [] s b h k = omega arith
common_within (x ∷ a) [] b h k = cc
common_within (x ∷ a) (z ∷ s) [] h k = omega arith
common_within (x ∷ a) (z ∷ s) (y ∷ b) h k = elim (Bool-cases (x == y)) [
  | inr e ↦ omega (arith, common_ne x y a b e)
  | inl e ↦ ground (arith, common_within a s b)
]

-- The prefix of the merged node is no longer than that of either node.
merged_prefix-le :
    (lower upper : Option (List ℕ)) (sep : List ℕ)
    → Above lower sep
    → NotAbove upper sep
    → (let k = common_bytes (bytes_or_none lower) (bytes_or_none upper) in
        (k ≤ common_bytes (bytes_or_none lower) sep) × (k ≤ common_bytes sep (bytes_or_none upper)))
unfolding common_bytes
merged_prefix-le none upper sep h k = omega arith
merged_prefix-le (some a) none sep h k = omega (arith, common_bytes-nil a)
merged_prefix-le (some a) (some b) sep h k = common_within a sep b h k

module _ (L : Layout) (small : L.page_bytes < 65536) (left right parent : Node) (sep : List ℕ)
    (slot_id : ℕ) (a : AreNeighbours left right sep) (leaf : left.is_leaf ≡ true)
    (left_word : left.prefix_length < 65536) (right_word : right.prefix_length < 65536) where
  prefixes :
      (merged_prefix left right ≤ left.prefix_length)
      × (merged_prefix left right ≤ right.prefix_length)
  prefixes =
      let (l, r) = merged_prefix-le (lower_key left) (upper_key right) sep a.above a.not_above in
      let el : left.prefix_length ≡ common_bytes (bytes_or_none (lower_key left)) sep =
        a.left_ordered.fenced.common
        ∙ ap (λ u. common_bytes (bytes_or_none (lower_key left)) (bytes_or_none u)) a.left_upper in
      let er : right.prefix_length ≡ common_bytes sep (bytes_or_none (upper_key right)) =
        a.right_ordered.fenced.common
        ∙ ap (λ u. common_bytes (bytes_or_none u) (bytes_or_none (upper_key right)))
            a.right_lower in
      (omega arith, omega arith)

  -- The merge goes through if the exact bound, cut to 16 bits, is within the page.
  merge_goes :
      exact_bound L left right % 65536 ≤ L.page_bytes
      → merge L left slot_id parent right
        ≡ some (remove_slot parent slot_id, make_hint (merged_leaf L left right))
  unfolding merge
  merge_goes h =
      let e = merge_bound_mod L left right left_word right_word prefixes.0 prefixes.1 in
      if_true left.is_leaf _ _ leaf
      ∙ if_false
          (ltb L.page_bytes (merge_bound L left right (merged_fences L left.is_leaf left right) 0))
          none _ (ground arith)

  -- Two neighbouring leaves whose records fit, by the exact bound, are merged: the parent loses the slot,
  -- and the node that is left has the records of the left leaf and then those of the right one, in order
  -- between the outer fences, with a prefix of its own and hints.
  pub merge_leaves :
      length (bytes_or_none (lower_key left)) + length (bytes_or_none (upper_key right))
        < L.page_bytes
      → exact_bound L left right ≤ L.page_bytes
      → (m : Node) × (merge L left slot_id parent right ≡ some (remove_slot parent slot_id, m))
        × IsPart m (lower_key left) (upper_key right) (entries left ++ entries right)
  merge_leaves room fits = (
    make_hint (merged_leaf L left right),
    merge_goes (omega arith),
    merged_leaf-IsPart L small left right sep a room,
  )
