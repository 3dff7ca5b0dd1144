-- ===== src/Node/Merging.antt =====
-- backend/leanstore/storage/btree/core/BTreeNode.cpp: `merge`.
use tree.Prelude.{
  ℕ, ◌+◌, ◌<◌, ◌≡◌, ◌≢◌, Option, none, some, List, [], ◌++◌, sym, subst, length, Ordering, inl, inr,
}
use tree.Node.Bytes.{lex, AreBytes, lex_lt_trans, lex_swap, lex_swap_lt, lex_eq}
use tree.Node.State.{Layout, Node, count}
use tree.Node.Store.{bytes_or_none, copy_key_value_range, make_hint}
use tree.Node.Position.{Ordering-cases}
use tree.Node.Sorted.{Sorted-append, All, All-append, All-map}
use tree.Node.Fences.{lower_key, upper_key, Above, NotAbove, Between}
use tree.Node.Records.{entries}
use tree.Node.Valid.{IsOrdered}
use tree.Node.Filled.{fenced_node-IsFilled, whole-IsFilled, make_hint-IsFilled, IsFilled-IsOrdered}
use tree.Node.Restructure.{merged_fences}
use tree.Node.Parting.{IsPart}
use tree.Node.Compaction.{make_hint-HintsMatch}

lex_gt_trans :
    (a b c : List ℕ) → lex a b ≡ Ordering.gt → lex c b ≢ Ordering.gt → lex a c ≡ Ordering.gt
lex_gt_trans a b c h k = elim (Ordering-cases (lex c b)) [
  | inl e ↦ lex_swap_lt c a (lex_lt_trans c b a e (lex_swap a b h))
  | inr (inl e) ↦ subst (λ x. lex a x ≡ Ordering.gt) (sym (lex_eq c b e)) h
  | inr (inr e) ↦ absurd (k e)
]

-- The merged leaf.
abbrev pub merged_leaf : Layout → Node → Node → Node
merged_leaf L left right =
    copy_key_value_range right
      (copy_key_value_range left (merged_fences L left.is_leaf left right) 0 (count left)) 0
      (count right)

-- Two neighbours: every key of the left one is at most `sep`, and `sep` is before every key of the right one
-- and lies between the fences that the merged node has.
pub record AreNeighbours (left right : Node) (sep : List ℕ) : Type 0 where
  pub left_ordered : IsOrdered left
  pub right_ordered : IsOrdered right
  pub left_upper : upper_key left ≡ some sep
  pub right_lower : lower_key right ≡ some sep
  pub above : Above (lower_key left) sep
  pub not_above : NotAbove (upper_key right) sep

Above-trans :
    (lower : Option (List ℕ)) (sep key : List ℕ)
    → Above lower sep
    → lex sep key ≡ Ordering.lt
    → Above lower key
Above-trans none sep key h k = tt
Above-trans (some l) sep key h k = lex_lt_trans l sep key h k

NotAbove-trans :
    (upper : Option (List ℕ)) (key sep : List ℕ)
    → lex key sep ≢ Ordering.gt
    → NotAbove upper sep
    → NotAbove upper key
NotAbove-trans none key sep h k = tt
NotAbove-trans (some u) key sep h k = λ g. h (lex_gt_trans key u sep g k)

module _ (L : Layout) (small : L.page_bytes < 65536) (left right : Node) (sep : List ℕ)
    (a : AreNeighbours left right sep)
    (room : length (bytes_or_none (lower_key left)) + length (bytes_or_none (upper_key right))
      < L.page_bytes) where
  -- A key of the left node lies between the fences of the merged one.
  widen_left :
      (key : List ℕ)
      → Between (lower_key left) (some sep) key
      → Between (lower_key left) (upper_key right) key
  widen_left key h = (h.0, NotAbove-trans (upper_key right) key sep h.1 a.not_above)

  widen_right :
      (key : List ℕ)
      → Between (some sep) (upper_key right) key
      → Between (lower_key left) (upper_key right) key
  widen_right key h = (Above-trans (lower_key left) sep key a.above h.0, h.1)

  in_left : All (λ e. Between (lower_key left) (upper_key right) e.0) (entries left)
  in_left =
      All-map (λ e h. widen_left e.0 h) (entries left)
        (subst (λ u. All (λ e. Between (lower_key left) u e.0) (entries left)) a.left_upper
          a.left_ordered.between)

  in_right : All (λ e. Between (lower_key left) (upper_key right) e.0) (entries right)
  in_right =
      All-map (λ e h. widen_right e.0 h) (entries right)
        (subst (λ l. All (λ e. Between l (upper_key right) e.0) (entries right)) a.right_lower
          a.right_ordered.between)

  at_most_sep : All (λ e. lex e.0 sep ≢ Ordering.gt) (entries left)
  at_most_sep =
      All-map (λ e h. h.1) (entries left)
        (subst (λ u. All (λ e. Between (lower_key left) u e.0) (entries left)) a.left_upper
          a.left_ordered.between)

  over_sep : All (λ e. lex sep e.0 ≡ Ordering.lt) (entries right)
  over_sep =
      All-map (λ e h. h.0) (entries right)
        (subst (λ l. All (λ e. Between l (upper_key right) e.0) (entries right)) a.right_lower
          a.right_ordered.between)

  pub merged_leaf-IsPart :
      IsPart
        (make_hint (merged_leaf L left right))
        (lower_key left)
        (upper_key right)
        (entries left ++ entries right)
  merged_leaf-IsPart =
      let f0 = fenced_node-IsFilled L (lower_key left) (upper_key right) small left.is_leaf room in
      let f1 =
        whole-IsFilled L (lower_key left) (upper_key right) small left
          (merged_fences L left.is_leaf left right) [] a.left_ordered f0 in_left in
      let f2 =
        whole-IsFilled L (lower_key left) (upper_key right) small right
          (copy_key_value_range left (merged_fences L left.is_leaf left right) 0 (count left))
          (entries left) a.right_ordered f1 in_right in
      let f =
        make_hint-IsFilled L (lower_key left) (upper_key right) small (merged_leaf L left right)
          (entries left ++ entries right) (merged_leaf L left right).upper f2 in
      record {
        lower_is = f.lower_is;
        upper_is = f.upper_is;
        records = f.records;
        ordered =
            IsFilled-IsOrdered L _ (lower_key left) (upper_key right)
              (entries left ++ entries right) f
              (All-append (λ e. AreBytes e.0) (entries left) (entries right) a.left_ordered.bytes
                a.right_ordered.bytes)
              (Sorted-append (entries left) (entries right) sep a.left_ordered.sorted
                a.right_ordered.sorted at_most_sep over_sep);
        hints = make_hint-HintsMatch (merged_leaf L left right);
      }
