-- ===== src/Node/Splitting.antt =====
-- backend/leanstore/storage/btree/core/BTreeNode.cpp: `split` of a leaf and of an inner node.
use tree.Prelude.{
  ◌/◌, insert_at, ℕ, ◌+◌, ◌≤◌, ◌<◌, ◌≡◌, ◌≢◌, true, false, some, List, length, take, drop, Ordering,
  word_bytes,
}
use tree.Node.Bytes.{lex, AreBytes}
use tree.Node.State.{Layout, slots_end, can_insert, Node, count}
use tree.Node.Store.{bytes_or_none, fenced_node, copy_key_value_range}
use tree.Node.Sorted.{Records, All}
use tree.Node.Fences.{lower_key, upper_key, Between}
use tree.Node.Records.{entries}
use tree.Node.Valid.{IsOrdered, heap_total}
use tree.Node.Search.{lower_bound}
use tree.Node.Compaction.{IsValid}
use tree.Node.Update
use tree.Node.Parting.{part}

module _ (L : Layout) (small : L.page_bytes < 65536) (n : Node) (o : IsOrdered n) (sep : List ℕ)
    (left_room : length (bytes_or_none (lower_key n)) + length sep < L.page_bytes)
    (right_room : length sep + length (bytes_or_none (upper_key n)) < L.page_bytes) where
  -- The left part, of the first records.
  abbrev left_of : ℕ → Node
  left_of k = copy_key_value_range n (fenced_node L n.is_leaf (lower_key n) (some sep)) 0 k

  abbrev right_of : ℕ → ℕ → Node
  right_of first number =
      copy_key_value_range n (fenced_node L n.is_leaf (some sep) (upper_key n)) first number

  -- The slots of a part, its fences and the bytes that its records have behind its prefix are within a page.
  abbrev pub FitsPage : ℕ → ℕ → Node → Type 0
  FitsPage fences number part = slots_end L number + fences + heap_total part.slot ≤ L.page_bytes

  module _ (parent : Node) (swip sep_slot : ℕ) (inside : sep_slot < count n)
      (below : sep_slot < L.page_bytes / 8)
      (before : All (λ e. lex e.0 sep ≢ Ordering.gt) (take (sep_slot + 1) (entries n)))
      (after : All (λ e. lex sep e.0 ≡ Ordering.lt) (drop (sep_slot + 1) (entries n)))
      (parent_valid : IsValid L parent) (sep_bytes : AreBytes sep)
      (sep_between : Between (lower_key parent) (upper_key parent) sep)
      (sep_small : L.slot_bytes + length sep + 8 < 65536)
      (can : can_insert L parent (length sep) 8 ≡ true)
      (new : (lower_bound parent sep).1 ≡ false) where
    -- The separator with the swip of the left node comes among the records of the parent.
    abbrev pub GotSeparator : Node → Type 0
    GotSeparator p =
        (entries p ≡ insert_at (lower_bound parent sep).0 (sep, word_bytes 8 swip) (entries parent))
        × (lower_key p ≡ lower_key parent)
        × (upper_key p ≡ upper_key parent)
        × IsValid L p

    abbrev parent' : Node
    parent' = (Update.insert L parent sep (word_bytes 8 swip)).1

    abbrev lower_bytes : ℕ
    lower_bytes = length (bytes_or_none (lower_key n)) + length sep

    abbrev upper_bytes : ℕ
    upper_bytes = length sep + length (bytes_or_none (upper_key n))
