-- ===== src/Tests/Descents.antt =====
-- Witnesses for the descent in a tree of pages.
use tree.Prelude.{◌≡◌, ℕ, zero, suc, ◌<◌, true, false, none, some, [], ◌∷◌, arith, refl, word_bytes}
use tree.Node.Bytes.{lex, head}
use tree.Node.State.{Node, get_fence_key, full_key}
use tree.Node.Store.{common_bytes}
use tree.Node.Update.{get_child, word_of}
use tree.BTree.Descent.{Pages, lookup}
use tree.BTree.Finding.{find}
use tree.BTree.Bounds.{records, children_records}
use tree.BTree.Contents.{lookup-find}
use tree.BTree.Routing.{child_lower, IsNode, IsTree, Reaches, find_leaf_lem}
use tree.Tests.Restructured.{sep, node, left_leaf, right_leaf, leaves-AreNeighbours}

-- An inner node over two leaves: the swip of the left one is 1, that of the right one 2.
abbrev root : Node
root = record (node false) {
  upper = 2;
  slot = record { offset = 501; key = sep; payload = word_bytes 8 1; head = 33949184 } ∷ [];
}

abbrev pages : Pages
pages zero = root
pages (suc zero) = left_leaf 6
pages (suc (suc i)) = right_leaf 6

root-IsNode : IsNode root false none none
unfolding head get_fence_key common_bytes
root-IsNode = record {
  kind = refl;
  ordered = record {
    heads = (refl, tt);
    bytes = omega arith;
    sorted = λ i j p q. absurd (omega arith);
    between = ((tt, tt), tt);
    fenced = record { lower_bytes = refl; common = refl };
  };
  hints = λ many. absurd (omega arith);
  lower_is = refl;
  upper_is = refl;
}

left-IsNode : IsNode (left_leaf 6) true none (some sep)
unfolding get_fence_key
left-IsNode = record {
  kind = refl;
  ordered = (leaves-AreNeighbours 6).left_ordered;
  hints = λ many. absurd (omega arith);
  lower_is = refl;
  upper_is = refl;
}

right-IsNode : IsNode (right_leaf 6) true (some sep) none
unfolding get_fence_key
right-IsNode = record {
  kind = refl;
  ordered = (leaves-AreNeighbours 6).right_ordered;
  hints = λ many. absurd (omega arith);
  lower_is = refl;
  upper_is = refl;
}

children :
    (i : ℕ)
    → i < 1
    → IsTree pages 0 (get_child root i) (child_lower root none i) (some (full_key root i))
unfolding get_child word_of
children zero h = left-IsNode
children (suc i) h = absurd (omega arith)

pages-IsTree : IsTree pages 1 0 none none
unfolding get_child
pages-IsTree = (root-IsNode, children, right-IsNode)

find_leaf_lem_example : (leaf : Node) × Reaches pages 2 0 (2 ∷ 7 ∷ 7 ∷ []) leaf
find_leaf_lem_example =
    find_leaf_lem pages 2 1 0 none none (2 ∷ 7 ∷ 7 ∷ []) (omega arith) pages-IsTree (omega arith)
      (tt, tt)

lookup-find_example :
    lookup pages 2 0 (2 ∷ 7 ∷ 7 ∷ []) ≡ some (find (records pages 1 0) (2 ∷ 7 ∷ 7 ∷ []))
lookup-find_example =
    lookup-find pages 2 1 0 none none (2 ∷ 7 ∷ 7 ∷ []) (omega arith) pages-IsTree (omega arith)
      (tt, tt)

found : find (records pages 1 0) (2 ∷ 7 ∷ 7 ∷ []) ≡ some []
unfolding find lex records children_records get_child word_of
found = refl

not_found : find (records pages 1 0) (2 ∷ 6 ∷ 6 ∷ []) ≡ none
unfolding find lex records children_records get_child word_of
not_found = refl
