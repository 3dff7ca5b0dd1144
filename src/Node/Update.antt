-- ===== src/Node/Update.antt =====
-- backend/leanstore/storage/btree/core/BTreeNode.hpp and BTreeNode.cpp: the operations on the records
-- of a node.
use tree.Prelude.{
  ℕ, ◌+◌, ◌*◌, ◌==◌, Bool, true, false, none, some, List, [], ◌∷◌, if◌then◌else◌, leb, length,
  sub16, remove_at, modify_at, take, ◌-◌, Ordering, ◌^◌,
}
use tree.Node.Bytes.{cmp_keys}
use tree.Node.State.{
  Layout, Slot, Node, count, slot_at, free_space, free_space_after_compaction, space_needed,
  get_fence_key, heap_bytes,
}
use tree.Node.Search.{lower_bound, lower_bound_exact}
use tree.Node.Store.{compactify, store_key_value, update_hint, make_hint}

unfoldable pub request_space_for : Layout → Node → ℕ → Bool × Node
request_space_for L n needed =
    if leb needed (free_space L n)
    then (true, n)
    else if leb needed (free_space_after_compaction L n)
    then (true, compactify L n)
    else (false, n)

unfoldable pub prepare_insert : Layout → Node → ℕ → ℕ → Bool × Node
unfolding request_space_for
prepare_insert L n key_len payload_len =
    request_space_for L n (space_needed L n key_len payload_len)

-- The slot's index and the node; the answer of `prepareInsert` is not read.
unfoldable pub insert : Layout → Node → List ℕ → List ℕ → ℕ × Node
unfolding prepare_insert
insert L n key payload =
    let prepared = (prepare_insert L n (length key) (length payload)).1 in
    let slot_id = (lower_bound prepared key).0 in
    (slot_id, update_hint (store_key_value prepared slot_id key payload) slot_id)

-- The payload is what the heap has at its place, `old`, for the caller to write.
unfoldable pub insert_do_not_copy_payload : Layout → Node → List ℕ → List ℕ → ℕ × Node
unfolding prepare_insert
insert_do_not_copy_payload L n key old =
    let prepared = (prepare_insert L n (length key) (length old)).1 in
    let slot_id = (lower_bound prepared key).0 in
    (slot_id, update_hint (store_key_value prepared slot_id key old) slot_id)

-- The code asserts that the payload is longer than `len`.
unfoldable pub shorten_payload : Node → ℕ → ℕ → Node
shorten_payload n slot_id len = record n {
  space_used = sub16 n.space_used (length (slot_at n slot_id).payload - len);
  slot = modify_at slot_id (λ (s : Slot). record s { payload = take len s.payload }) n.slot;
}

unfoldable pub remove_slot : Node → ℕ → Node
remove_slot n slot_id = make_hint (record n {
  space_used = sub16 n.space_used (heap_bytes (slot_at n slot_id));
  slot = remove_at slot_id n.slot;
})

unfoldable pub remove : Node → List ℕ → Bool × Node
unfolding remove_slot
remove n key = elim (lower_bound_exact n key) [
  | none ↦ (false, n)
  | some slot_id ↦ (true, remove_slot n slot_id)
]

-- The word of a swip, whose eight bytes lie with the lowest first.
unfoldable pub word_of : List ℕ → ℕ
word_of [] = 0
word_of (b ∷ bytes) = b + 2 ^ 8 * word_of bytes

unfoldable pub get_child : Node → ℕ → ℕ
unfolding word_of
get_child n slot_id = word_of (slot_at n slot_id).payload

unfoldable pub lookup_inner : Node → List ℕ → ℕ
unfolding get_child
lookup_inner n key =
    let pos = (lower_bound n key).0 in if pos == count n then n.upper else get_child n pos

-- 1, -1 and 0 of the source.
pub data Side : Type 0 where
  not_above_lower above_upper inside : Side

unfoldable pub compare_key_with_boundaries : Node → List ℕ → Side
compare_key_with_boundaries n key =
    let below_upper : Side = elim (get_fence_key n.upper_fence) [
      | none ↦ inside
      | some fence ↦ elim (cmp_keys key fence) [
        | Ordering.gt ↦ above_upper
        | Ordering.lt ↦ inside
        | Ordering.eq ↦ inside
      ]
    ] in
    elim (get_fence_key n.lower_fence) [
      | none ↦ below_upper
      | some fence ↦ elim (cmp_keys key fence) [
        | Ordering.gt ↦ below_upper
        | Ordering.lt ↦ not_above_lower
        | Ordering.eq ↦ not_above_lower
      ]
    ]
