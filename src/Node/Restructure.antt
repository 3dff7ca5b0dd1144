-- ===== src/Node/Restructure.antt =====
-- backend/leanstore/storage/btree/core/BTreeNode.cpp: `merge` and `split`.
use tree.Prelude.{
  ◌/◌, length, Run, ok, check, ◌>>◌, ◌>>=◌, ℕ, ◌+◌, ◌-◌, ◌*◌, ◌%◌, Bool, true, Option, none, some,
  List, if◌then◌else◌, ltb, sub16, sub32, u16_mod, u32_mod, word_bytes,
}
use tree.Node.State.{
  can_insert, Layout, Node, count, slots_end, full_key, get_full_key_len, get_fence_key,
  space_needed_with,
}
use tree.Node.Store.{
  copy_range, copy_key_value_range, set_fences, fenced_node, make_hint, store_key_value,
}
use tree.Node.Update.{remove_slot, get_child}
use tree.Node.Update

-- The node that takes the records of both.
abbrev pub merged_fences : Layout → Bool → Node → Node → Node
merged_fences L leaf left right =
    fenced_node L leaf (get_fence_key left.lower_fence) (get_fence_key right.upper_fence)

unfoldable pub merge_space_upper_bound : Layout → Node → Node → ℕ
merge_space_upper_bound L left right =
    let tmp = merged_fences L true left right in
    let left_grow = sub32 left.prefix_length tmp.prefix_length * count left % u32_mod in
    let right_grow = sub32 right.prefix_length tmp.prefix_length * count right % u32_mod in
    (left.space_used
      + right.space_used
      + slots_end L (count left + count right)
      + left_grow
      + right_grow)
    % u32_mod

-- `spaceUpperBound` of `merge`, a 16-bit word, with `extra` for the key from the parent.
unfoldable pub merge_bound : Layout → Node → Node → Node → ℕ → ℕ
merge_bound L left right tmp extra =
    let left_grow = sub16 left.prefix_length tmp.prefix_length * count left % u16_mod in
    let right_grow = sub16 right.prefix_length tmp.prefix_length * count right % u16_mod in
    (left.space_used
      + right.space_used
      + slots_end L (count left + count right)
      + left_grow
      + right_grow
      + extra)
    % u16_mod

-- `none` is `false`, where nothing has changed; else the parent and the right node.
unfoldable pub merge : Layout → Node → ℕ → Node → Node → Option (Node × Node)
unfolding merge_bound
merge L left slot_id parent right =
    let tmp = merged_fences L left.is_leaf left right in
    if left.is_leaf
    then (if ltb L.page_bytes (merge_bound L left right tmp 0)
        then none
        else (let tmp1 = copy_key_value_range left tmp 0 (count left) in
            let tmp2 = copy_key_value_range right tmp1 0 (count right) in
            some (remove_slot parent slot_id, make_hint tmp2)))
    else (let extra_len = get_full_key_len parent slot_id in
        let extra = space_needed_with L extra_len 8 tmp.prefix_length in
        if ltb L.page_bytes (merge_bound L left right tmp extra)
        then none
        else (let tmp1 = copy_key_value_range left tmp 0 (count left) in
            let tmp2 =
              store_key_value tmp1 (count tmp1) (full_key parent slot_id)
                (word_bytes 8 left.upper) in
            let tmp3 = copy_key_value_range right tmp2 0 (count right) in
            some (remove_slot parent slot_id, make_hint (record tmp3 { upper = right.upper }))))

-- The parent, the left node and the right node, which takes the place of `n`. `fresh` is the left
-- node as it is allocated, and `swip` the word that points to it.
unfoldable pub split : Layout → Node → Node → Node → ℕ → ℕ → List ℕ → Run (Node × Node × Node)
unfolding copy_range fenced_node
split L n parent fresh swip sep_slot sep_key =
    let left = set_fences fresh (get_fence_key n.lower_fence) (some sep_key) in
    let right = fenced_node L n.is_leaf (some sep_key) (get_fence_key n.upper_fence) in
    let parent' = (Update.insert L parent sep_key (word_bytes 8 swip)).1 in
    check (ltb sep_slot (L.page_bytes / 8))
    >> (check (can_insert L parent (length sep_key) 8)
        >> (if n.is_leaf
            then (copy_range L n left 0 (sep_slot + 1) >>= λ left'.
                copy_range L n right (count left') (count n - count left') >>= λ right'.
                ok (parent', make_hint left', make_hint right'))
            else (copy_range L n left 0 sep_slot >>= λ left'.
                copy_range L n right (count left' + 1) (count n - count left' - 1) >>= λ right'.
                ok (
                  parent',
                  make_hint (record left' { upper = get_child n (count left') }),
                  make_hint (record right' { upper = n.upper }),
                ))))
