-- ===== src/Tests/Restructured.antt =====
-- Witnesses for the separators, the split and the merge of B-tree nodes.
use tree.Prelude.{
  ℕ, zero, suc, ◌+◌, ◌≤◌, ◌<◌, ◌≡◌, ◌≢◌, Bool, true, false, none, some, List, [], ◌∷◌, ◌++◌, arith,
  refl, length, Ordering,
}
use tree.Node.Bytes.{lex, head}
use tree.Node.State.{get_fence_key, FenceKey, Node, full_key}
use tree.Node.Store.{common_bytes, fenced_node}
use tree.Node.Fences.{lower_key, upper_key}
use tree.Node.Records.{entries}
use tree.Node.Sorted.{Sorted}
use tree.Node.Valid.{IsOrdered}
use tree.Node.Update.{remove_slot}
use tree.Node.Separator.{find_sep, get_sep}
use tree.Node.Separating.{find_sep-get_sep}
use tree.Node.Restructure.{merge}
use tree.Node.Parting.{IsPart}
use tree.Node.Merging.{AreNeighbours}
use tree.Node.MergeSpace.{merge_leaves}
use tree.Tests.Nodes.{page}

abbrev no_fence : FenceKey
no_fence = record { offset = 0; bytes = [] }

-- Three records; as a leaf, and as an inner node.
abbrev pub node : Bool → Node
node leaf = record {
  upper = 99;
  lower_fence = no_fence;
  upper_fence = no_fence;
  is_leaf = leaf;
  space_used = 8;
  data_offset = 504;
  prefix_length = 0;
  hint = λ _. 0;
  slot =
      record { offset = 510; key = 1 ∷ 5 ∷ []; payload = []; head = 17104896 }
      ∷ record { offset = 507; key = 2 ∷ 6 ∷ 6 ∷ []; payload = []; head = 33949184 }
      ∷ record { offset = 504; key = 2 ∷ 7 ∷ 7 ∷ []; payload = []; head = 34014976 }
      ∷ [];
}

node-Sorted : (leaf : Bool) → Sorted (entries (node leaf))
unfolding lex
node-Sorted leaf zero zero p q = absurd (omega arith)
node-Sorted leaf zero (suc zero) p q = refl
node-Sorted leaf zero (suc (suc zero)) p q = refl
node-Sorted leaf (suc zero) zero p q = absurd (omega arith)
node-Sorted leaf (suc zero) (suc zero) p q = absurd (omega arith)
node-Sorted leaf (suc zero) (suc (suc zero)) p q = refl
node-Sorted leaf i j p q = absurd (omega arith)

node-IsOrdered : (leaf : Bool) → IsOrdered (node leaf)
unfolding head get_fence_key common_bytes
node-IsOrdered leaf = record {
  heads = (refl, (refl, (refl, tt)));
  bytes = omega arith;
  sorted = node-Sorted leaf;
  between = ((tt, tt), ((tt, tt), ((tt, tt), tt)));
  fenced = record { lower_bytes = refl; common = refl };
}

abbrev pub sep : List ℕ
sep = 2 ∷ 6 ∷ 6 ∷ []

find_sep-get_sep_example :
    ((find_sep (node true)).slot + 1 < 3)
    × (length (get_sep (node true) (find_sep (node true))) ≡ (find_sep (node true)).length)
    × ((i : ℕ)
        → i ≤ (find_sep (node true)).slot
        → lex (full_key (node true) i) (get_sep (node true) (find_sep (node true))) ≢ Ordering.gt)
    × ((i : ℕ)
        → (find_sep (node true)).slot < i
        → i < 3
        → lex (get_sep (node true) (find_sep (node true))) (full_key (node true) i) ≡ Ordering.lt)
find_sep-get_sep_example = find_sep-get_sep (node true) (node-IsOrdered true) (omega arith)

-- The new root over a root that is split.
abbrev root : Node
root = fenced_node page false none none

-- Two leaves on the two sides of `sep`.
abbrev pub left_leaf : ℕ → Node
left_leaf used = record (node true) {
  upper_fence = record { offset = 509; bytes = sep };
  space_used = used;
  slot = record { offset = 507; key = 1 ∷ 5 ∷ []; payload = []; head = 17104896 } ∷ [];
}

abbrev pub right_leaf : ℕ → Node
right_leaf used = record (node true) {
  lower_fence = record { offset = 509; bytes = sep };
  space_used = used;
  slot = record { offset = 506; key = 2 ∷ 7 ∷ 7 ∷ []; payload = []; head = 34014976 } ∷ [];
}

pub leaves-AreNeighbours : (used : ℕ) → AreNeighbours (left_leaf used) (right_leaf used) sep
unfolding head get_fence_key common_bytes lex
leaves-AreNeighbours used = record {
  left_ordered = record {
    heads = (refl, tt);
    bytes = omega arith;
    sorted = λ i j p q. absurd (omega arith);
    between = ((tt, λ g. cc), tt);
    fenced = record { lower_bytes = refl; common = refl };
  };
  right_ordered = record {
    heads = (refl, tt);
    bytes = omega arith;
    sorted = λ i j p q. absurd (omega arith);
    between = ((refl, tt), tt);
    fenced = record { lower_bytes = refl; common = refl };
  };
  left_upper = refl;
  right_lower = refl;
  above = tt;
  not_above = tt;
}

merge_leaves_example :
    (m : Node) × (merge page (left_leaf 6) 0 (node false) (right_leaf 6)
      ≡ some (remove_slot (node false) 0, m))
    × IsPart m
        (lower_key (left_leaf 6))
        (upper_key (right_leaf 6))
        (entries (left_leaf 6) ++ entries (right_leaf 6))
unfolding get_fence_key common_bytes
merge_leaves_example =
    merge_leaves page (omega arith) (left_leaf 6) (right_leaf 6) (node false) sep 0
      (leaves-AreNeighbours 6) refl (omega arith) (omega arith) (omega arith) (omega arith)
