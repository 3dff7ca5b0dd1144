-- ===== src/BTree/Descent.antt =====
-- backend/leanstore/storage/btree/core/BTreeGeneric.hpp: `findLeafCanJump`, and `lookup` of
-- backend/leanstore/storage/btree/BTreeLL.cpp, in a run that no other thread disturbs: no latch is
-- contended and no read is restarted. A page is found by the word of its swip.
use tree.Prelude.{ℕ, zero, suc, true, false, Option, none, some, List}
use mathlib.Core.Option
use tree.Node.State.{Node, slot_at}
use tree.Node.Search.{lower_bound_exact}
use tree.Node.Update.{lookup_inner}

abbrev pub Pages : Type 0
Pages = ℕ → Node

-- The loop from the page of `swip` on; `none` means that the fuel ran out before a leaf.
unfoldable pub find_leaf : Pages → ℕ → ℕ → List ℕ → Option Node
find_leaf pages zero swip key = none
find_leaf pages (suc fuel) swip key = elim (pages swip).is_leaf [
  | true ↦ some (pages swip)
  | false ↦ find_leaf pages fuel (lookup_inner (pages swip) key) key
]

-- What `lookup` hands to its callback from a leaf; `none` is `NOT_FOUND`.
unfoldable pub lookup_leaf : Node → List ℕ → Option (List ℕ)
lookup_leaf leaf key = Option.map (λ pos. (slot_at leaf pos).payload) (lower_bound_exact leaf key)

unfoldable pub lookup : Pages → ℕ → ℕ → List ℕ → Option (Option (List ℕ))
lookup pages fuel root key =
    Option.map (λ leaf. lookup_leaf leaf key) (find_leaf pages fuel root key)
