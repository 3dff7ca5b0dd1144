-- ===== src/Node/State.antt =====
-- backend/leanstore/storage/btree/core/BTreeNode.hpp: the state of a node and its space. A slot
-- carries the bytes that the page holds at its offset, its key without the prefix and its payload;
-- `count` is the length of the list of slots. A child is the word of its swip.
use tree.Prelude.{
  ℕ, ◌+◌, ◌*◌, ◌==◌, ◌≡◌, Bool, ◌||◌, not, Option, none, some, List, [], ◌++◌, if◌then◌else◌, leb,
  length, get_or, take, add16, sub16,
}

-- `EFFECTIVE_PAGE_SIZE`, the offset of the field `slot` and `sizeof(Slot)`.
pub record Layout : Type 0 where
  pub page_bytes : ℕ
  pub slots_offset : ℕ
  pub slot_bytes : ℕ

pub record Slot : Type 0 where
  pub offset : ℕ
  pub key : List ℕ
  pub payload : List ℕ
  pub head : ℕ

-- No fence has the offset 0.
pub record FenceKey : Type 0 where
  pub offset : ℕ
  pub bytes : List ℕ

pub record Node : Type 0 where
  pub upper : ℕ
  pub lower_fence : FenceKey
  pub upper_fence : FenceKey
  pub is_leaf : Bool
  pub space_used : ℕ
  pub data_offset : ℕ
  pub prefix_length : ℕ
  pub hint : ℕ → ℕ
  pub slot : List Slot

abbrev pub hint_count : ℕ
hint_count = 16

abbrev pub count : Node → ℕ
count n = length n.slot

-- What a read of a slot past the last one gives in the model.
abbrev pub no_slot : Slot
no_slot = record { offset = 0; key = []; payload = []; head = 0 }

abbrev pub slot_at : Node → ℕ → Slot
slot_at n i = get_or n.slot i no_slot

abbrev no_fence : FenceKey
no_fence = record { offset = 0; bytes = [] }

-- `BTreeNode(is_leaf)`: the constructor leaves the hints and the slots as the memory has them.
unfoldable pub new_node : Layout → Bool → Node
new_node L leaf = record {
  upper = 0;
  lower_fence = no_fence;
  upper_fence = no_fence;
  is_leaf = leaf;
  space_used = 0;
  data_offset = L.page_bytes;
  prefix_length = 0;
  hint = λ _. 0;
  slot = [];
}

unfoldable pub is_inner : Node → Bool
is_inner n = not n.is_leaf

unfoldable pub get_fence_key : FenceKey → Option (List ℕ)
get_fence_key f = if f.offset == 0 then none else some f.bytes

-- `getPrefix`: the first bytes of the lower fence.
abbrev pub prefix : Node → List ℕ
prefix n = take n.prefix_length n.lower_fence.bytes

-- The key has the prefix of the node, as every key between its fences does.
abbrev pub HasPrefix : Node → List ℕ → Type 0
HasPrefix n key = take n.prefix_length key ≡ prefix n

-- `copyFullKey`
abbrev pub full_key : Node → ℕ → List ℕ
full_key n i = prefix n ++ (slot_at n i).key

unfoldable pub get_full_key_len : Node → ℕ → ℕ
get_full_key_len n i = n.prefix_length + length (slot_at n i).key

-- `reinterpret_cast<u8*>(slot + count) - ptr()`
abbrev pub slots_end : Layout → ℕ → ℕ
slots_end L n = L.slots_offset + L.slot_bytes * n

unfoldable pub free_space : Layout → Node → ℕ
free_space L n = sub16 n.data_offset (slots_end L (count n))

unfoldable pub free_space_after_compaction : Layout → Node → ℕ
free_space_after_compaction L n = sub16 (sub16 L.page_bytes (slots_end L (count n))) n.space_used

unfoldable pub has_enough_space_for : Layout → Node → ℕ → Bool
has_enough_space_for L n space_needed =
    leb space_needed (free_space L n) || leb space_needed (free_space_after_compaction L n)

unfoldable pub space_needed_with : Layout → ℕ → ℕ → ℕ → ℕ
space_needed_with L key_len payload_len prefix_len =
    add16 L.slot_bytes (add16 (sub16 key_len prefix_len) payload_len)

unfoldable pub space_needed : Layout → Node → ℕ → ℕ → ℕ
unfolding space_needed_with
space_needed L n key_len payload_len = space_needed_with L key_len payload_len n.prefix_length

unfoldable pub can_insert : Layout → Node → ℕ → ℕ → Bool
unfolding has_enough_space_for space_needed
can_insert L n key_len payload_len = has_enough_space_for L n (space_needed L n key_len payload_len)

-- The size of what a slot has in the heap of the page.
abbrev pub heap_bytes : Slot → ℕ
heap_bytes s = length s.key + length s.payload

unfoldable pub space_used_by_slot : Layout → Node → ℕ → ℕ
space_used_by_slot L n i = L.slot_bytes + heap_bytes (slot_at n i)
