-- ===== src/Node/Search.antt =====
-- backend/leanstore/storage/btree/core/BTreeNode.hpp: `searchHint` and `lowerBound`.
use tree.Prelude.{
  ℕ, zero, suc, ◌+◌, ◌-◌, ◌*◌, ◌/◌, ◌==◌, Bool, true, false, not, Option, none, some, List,
  if◌then◌else◌, ltb, leb, length, take, drop, Ordering, compare,
}
use tree.Node.Bytes.{cmp_keys, head}
use tree.Node.State.{Slot, Node, hint_count, count, slot_at, prefix}

-- `for (; pos < hint_count; pos++) if (stop(pos)) break;` with the rounds that are left.
unfoldable pub advance : (ℕ → Bool) → ℕ → ℕ → ℕ
advance stop zero pos = pos
advance stop (suc rounds) pos = elim (stop pos) [
  | true ↦ pos
  | false ↦ advance stop rounds (suc pos)
]

unfoldable pub search_hint : Node → ℕ → ℕ × ℕ
search_hint n key_head =
    let pos = advance (λ i. leb key_head (n.hint i)) hint_count 0 in
    (pos, advance (λ i. not (n.hint i == key_head)) (hint_count - pos) pos)

-- The range in which the key is searched.
unfoldable pub hint_range : Node → ℕ → ℕ × ℕ
unfolding search_hint
hint_range n key_head =
    if ltb (hint_count * 2) (count n)
    then (let dist = count n / (hint_count + 1) in
        let (pos, pos2) = search_hint n key_head in
        (pos * dist, if ltb pos2 hint_count then (pos2 + 1) * dist else count n))
    else (0, count n)

-- The comparison of a round: by the heads, then by the lengths of keys that their heads hold, then
-- by the keys.
unfoldable pub compare_slot : List ℕ → ℕ → Slot → Ordering
compare_slot key key_head s =
    if ltb key_head s.head
    then Ordering.lt
    else if ltb s.head key_head
    then Ordering.gt
    else if leb (length s.key) 4
    then compare (length key) (length s.key)
    else cmp_keys key s.key

-- The loop, with fuel: the position, and whether its key is equal.
unfoldable pub search_loop : Node → List ℕ → ℕ → ℕ → ℕ → ℕ × Bool
search_loop n key zero lower upper = (lower, false)
search_loop n key (suc fuel) lower upper =
    let mid = (upper - lower) / 2 + lower in
    elim (ltb lower upper) [
      | false ↦ (lower, false)
      | true ↦ elim (compare_slot key (head key) (slot_at n mid)) [
        | Ordering.lt ↦ search_loop n key fuel lower mid
        | Ordering.gt ↦ search_loop n key fuel (mid + 1) upper
        | Ordering.eq ↦ (mid, true)
      ]
    ]

-- From `key += prefix_length` on.
unfoldable pub search_slots : Node → List ℕ → ℕ × Bool
search_slots n key =
    let rest = drop n.prefix_length key in
    let (lower, upper) = hint_range n (head rest) in search_loop n rest (count n) lower upper

-- `lowerBound<false>` with what it writes to `is_equal` in a leaf.
unfoldable pub lower_bound : Node → List ℕ → ℕ × Bool
lower_bound n key = elim (cmp_keys (take n.prefix_length key) (prefix n)) [
  | Ordering.lt ↦ (0, false)
  | Ordering.gt ↦ (count n, false)
  | Ordering.eq ↦ search_slots n key
]

-- `lowerBound<true>`; `none` is -1.
unfoldable pub lower_bound_exact : Node → List ℕ → Option ℕ
lower_bound_exact n key =
    if ltb (length key) n.prefix_length
    then none
    else elim (cmp_keys (take n.prefix_length key) (prefix n)) [
      | Ordering.eq ↦ let (pos, equal) = search_slots n key in if equal then some pos else none
      | Ordering.lt ↦ none
      | Ordering.gt ↦ none
    ]
