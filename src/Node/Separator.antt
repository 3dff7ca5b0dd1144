-- ===== src/Node/Separator.antt =====
-- backend/leanstore/storage/btree/core/BTreeNode.cpp: the choice of a separator.
use tree.Prelude.{
  ℕ, zero, suc, ◌+◌, ◌-◌, ◌/◌, ◌==◌, Bool, true, false, ◌&&◌, List, ◌++◌, if◌then◌else◌, ltb,
  length, take,
}
use tree.Node.State.{Node, count, slot_at, prefix, get_full_key_len}
use tree.Node.Store.{common_bytes}

pub record SeparatorInfo : Type 0 where
  pub length : ℕ
  pub slot : ℕ
  pub trunc : Bool

-- The loop compares the bytes of the two keys up to the first that differ.
unfoldable pub common_prefix : Node → ℕ → ℕ → ℕ
common_prefix n slot_a slot_b =
    if count n == 0 then 0 else common_bytes (slot_at n slot_a).key (slot_at n slot_b).key

-- The loop of `findSep` from slot `i` on: the best slot so far, with its prefix.
unfoldable pub longest_prefix : Node → ℕ → ℕ → ℕ × ℕ → ℕ × ℕ
longest_prefix n zero i best = best
longest_prefix n (suc rounds) i (max_pos, max_prefix) =
    let p = common_prefix n i 0 in
    longest_prefix n rounds (suc i) (if ltb max_prefix p then (i, p) else (max_pos, max_prefix))

-- The slot that the loop of `findSep` chooses in a leaf.
unfoldable pub leaf_slot : Node → ℕ
unfolding longest_prefix
leaf_slot n =
    let lower = count n / 2 - count n / 16 in
    let upper = count n / 2 + count n / 16 in
    (longest_prefix n (upper - lower) lower (count n / 2, common_prefix n (count n / 2) 0)).0

-- What `findSep` returns for a leaf's slot.
unfoldable pub separator_at : Node → ℕ → SeparatorInfo
separator_at n max_pos =
    let common = common_prefix n max_pos (max_pos + 1) in
    if ltb common (length (slot_at n max_pos).key)
      && ltb (common + 1) (length (slot_at n (max_pos + 1)).key)
    then record { length = n.prefix_length + common + 1; slot = max_pos; trunc = true }
    else record { length = get_full_key_len n max_pos; slot = max_pos; trunc = false }

unfoldable pub find_sep : Node → SeparatorInfo
unfolding leaf_slot separator_at
find_sep n =
    if n.is_leaf
    then separator_at n (leaf_slot n)
    else record { length = get_full_key_len n (count n / 2); slot = count n / 2; trunc = false }

unfoldable pub get_sep : Node → SeparatorInfo → List ℕ
get_sep n info =
    prefix n
    ++ take (info.length - n.prefix_length)
        (slot_at n (if info.trunc then info.slot + 1 else info.slot)).key
