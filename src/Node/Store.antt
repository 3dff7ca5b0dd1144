-- ===== src/Node/Store.antt =====
-- backend/leanstore/storage/btree/core/BTreeNode.cpp: hints, fences, and what puts a record in the
-- heap of a node. The assertions on the bound of the page stand apart, in `copy_fits`. A slot that is stored
-- at an index stands there in the list; the slots from there on
-- follow it, which the callers bring about by `memmove`, or there are none.
-- A payload that fits a page, of 16 KB, fits the 15 bits of its length.
use tree.Prelude.{
  ℕ, suc, ◌+◌, ◌-◌, ◌*◌, ◌/◌, ◌==◌, Bool, true, false, ◌&&◌, Option, none, some, List, [], ◌∷◌,
  ◌++◌, if◌then◌else◌, ltb, leb, length, take, drop, insert_at, add16, sub16, u16_mod, ◌%◌, Run, ok,
  check, ◌>>◌,
}
use tree.Node.Bytes.{head}
use tree.Node.State.{
  Layout, Slot, Node, hint_count, count, slot_at, prefix, get_fence_key, new_node, heap_bytes,
  slots_end,
}

-- The head of the slot that hint `i` is for, where `dist` slots lie between two of them.
abbrev pub hinted_head : Node → ℕ → ℕ → ℕ
hinted_head n dist i = (slot_at n (dist * (i + 1))).head

unfoldable pub make_hint : Node → Node
make_hint n = record n { hint = hinted_head n (count n / (hint_count + 1)) }

-- The first hint that `updateHint` writes.
unfoldable pub first_hint : Node → ℕ → ℕ
first_hint n slot_id =
    let dist = count n / (hint_count + 1) in
    if ltb (hint_count * 2 + 1) (count n)
      && ((count n - 1) / (hint_count + 1) == dist)
      && ltb 1 (slot_id / dist)
    then slot_id / dist - 1
    else 0

unfoldable pub update_hint : Node → ℕ → Node
unfolding first_hint
update_hint n slot_id =
    let dist = count n / (hint_count + 1) in
    record n { hint = λ i. if leb (first_hint n slot_id) i then hinted_head n dist i else n.hint i }

-- The offset of the new bytes, and the fields that taking them from the heap changes.
abbrev pub take_space : Node → ℕ → Node
take_space n space = record n {
  data_offset = sub16 n.data_offset space;
  space_used = add16 n.space_used space;
}

unfoldable pub store_key_value : Node → ℕ → List ℕ → List ℕ → Node
store_key_value n slot_id key payload =
    let rest = drop n.prefix_length key in
    let t = take_space n (add16 (length rest) (length payload)) in
    record t {
      slot =
          insert_at slot_id
            (record { offset = t.data_offset; key = rest; payload = payload; head = head rest })
            n.slot;
    }

-- A null key is no fence.
unfoldable pub insert_lower_fence : Node → Option (List ℕ) → Node
insert_lower_fence n none = n
insert_lower_fence n (some key) =
    let t = take_space n (length key) in
    record t { lower_fence = record { offset = t.data_offset; bytes = key } }

unfoldable pub insert_upper_fence : Node → Option (List ℕ) → Node
insert_upper_fence n none = n
insert_upper_fence n (some key) =
    let t = take_space n (length key) in
    record t { upper_fence = record { offset = t.data_offset; bytes = key } }

-- The loop that finds `prefix_length`.
unfoldable pub common_bytes : List ℕ → List ℕ → ℕ
common_bytes [] b = 0
common_bytes (x ∷ a) [] = 0
common_bytes (x ∷ a) (y ∷ b) = elim (x == y) [ true ↦ suc (common_bytes a b) | false ↦ 0 ]

abbrev pub bytes_or_none : Option (List ℕ) → List ℕ
bytes_or_none none = []
bytes_or_none (some key) = key

unfoldable pub set_fences : Node → Option (List ℕ) → Option (List ℕ) → Node
unfolding insert_lower_fence insert_upper_fence
set_fences n lower_key upper_key =
    record (insert_upper_fence (insert_lower_fence n lower_key) upper_key) {
      prefix_length = common_bytes (bytes_or_none lower_key) (bytes_or_none upper_key);
    }

-- `copyKeyValue` to the slot behind the last one of `dst`.
unfoldable pub copy_key_value : Node → Slot → Node → Node
copy_key_value src s dst = store_key_value dst (count dst) (prefix src ++ s.key) s.payload

-- A round of the fast path of `copyKeyValueRange`: the slot and its bytes are copied as they are.
unfoldable pub copy_slot : Slot → Node → Node
copy_slot s dst =
    let t = take_space dst (heap_bytes s % u16_mod) in
    record t { slot = dst.slot ++ record s { offset = t.data_offset } ∷ [] }

abbrev pub for_each {ℓ} : {A : Type ℓ} → (A → Node → Node) → List A → Node → Node
for_each body [] dst = dst
for_each body (s ∷ rest) dst = for_each body rest (body s dst)

-- `copyKeyValueRange(dst, dst->count, first, number)`; every caller copies to the end of `dst`.
unfoldable pub copy_key_value_range : Node → Node → ℕ → ℕ → Node
unfolding copy_slot copy_key_value
copy_key_value_range src dst first number =
    let range = take number (drop first src.slot) in
    if src.prefix_length == dst.prefix_length
    then for_each copy_slot range dst
    else for_each (copy_key_value src) range dst

-- The assertions of the rounds of a copy: the heap stays behind `bound`.
unfoldable pub rounds_fit : ℕ → (Slot → Node → Node) → List Slot → Node → Bool
rounds_fit bound body [] dst = true
rounds_fit bound body (s ∷ rest) dst =
    leb bound (body s dst).data_offset && rounds_fit bound body rest (body s dst)

-- Those of the fast path, of `storeKeyValue`, which sees the count from before, and at the end.
unfoldable pub copy_fits : Layout → Node → Node → ℕ → ℕ → Bool
unfolding rounds_fit copy_slot copy_key_value copy_key_value_range
copy_fits L src dst first number =
    let range = take number (drop first src.slot) in
    let res = copy_key_value_range src dst first number in
    (if src.prefix_length == dst.prefix_length
      then rounds_fit (slots_end L (count dst + number)) copy_slot range dst
      else rounds_fit (slots_end L (count dst)) (copy_key_value src) range dst)
    && leb (slots_end L (count res)) res.data_offset

-- `copyKeyValueRange` with its assertions.
unfoldable pub copy_range : Layout → Node → Node → ℕ → ℕ → Run Node
unfolding copy_fits copy_key_value_range
copy_range L src dst first number =
    check (copy_fits L src dst first number) >> ok (copy_key_value_range src dst first number)

-- The node that `compactify`, `merge` and `split` fill: fresh, with fences.
unfoldable pub fenced_node : Layout → Bool → Option (List ℕ) → Option (List ℕ) → Node
unfolding new_node set_fences
fenced_node L leaf lower_key upper_key = set_fences (new_node L leaf) lower_key upper_key

unfoldable pub compactify : Layout → Node → Node
unfolding fenced_node copy_key_value_range make_hint
compactify L n =
    let tmp = fenced_node L n.is_leaf (get_fence_key n.lower_fence) (get_fence_key n.upper_fence) in
    make_hint (record (copy_key_value_range n tmp 0 (count n)) { upper = n.upper })
