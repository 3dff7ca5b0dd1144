-- ===== src/Node/Separating.antt =====
-- backend/leanstore/storage/btree/core/BTreeNode.cpp: `findSep` and `getSep` choose a separator.
use tree.Prelude.{
  ℕ, zero, suc, ◌+◌, ◌-◌, ◌/◌, ◌≤◌, ◌<◌, ◌≡◌, ◌≢◌, ◌⊎◌, true, false, ◌&&◌, List, [], ◌∷◌, ◌++◌,
  arith, refl, ap, ◌∙◌, length, take, take_all, length-take, length-append, ltb, if_either,
  Bool-cases, inl, inr, Ordering, ◌==◌,
}
use tree.Node.Bytes.{lex, lex_refl, lex_lt_trans, lex_swap, lex_swap_lt}
use tree.Node.State.{Node, count, slot_at, prefix, full_key, get_full_key_len}
use tree.Node.Store.{common_bytes}
use tree.Node.Fences.{common_ne, common_eq, IsFenced-prefix_fits}
use tree.Node.Valid.{IsOrdered, lex-same_prefix, ascending_slots}
use tree.Node.Separator.{
  SeparatorInfo, common_prefix, longest_prefix, leaf_slot, separator_at, find_sep, get_sep,
}

longest_prefix_range :
    (n : Node) (rounds i pos p : ℕ)
    → ((longest_prefix n rounds i (pos, p)).0 ≡ pos)
      ⊎ ((i ≤ (longest_prefix n rounds i (pos, p)).0)
          × ((longest_prefix n rounds i (pos, p)).0 < i + rounds))
unfolding longest_prefix
longest_prefix_range n zero i pos p = inl refl
longest_prefix_range n (suc rounds) i pos p = elim (Bool-cases (ltb p (common_prefix n i 0))) [
  | inl e ↦
      rw (e, longest_prefix)
        (ground (arith, longest_prefix_range n rounds (suc i) i (common_prefix n i 0)))
  | inr e ↦ rw (e, longest_prefix) (ground (arith, longest_prefix_range n rounds (suc i) pos p))
]

nil_lt : (b : List ℕ) → 0 < length b → lex [] b ≡ Ordering.lt
unfolding lex
nil_lt [] h = absurd (omega arith)
nil_lt (y ∷ b) h = refl

-- Cut one byte behind what they have in common, the greater of two keys lies between them.
cut_between :
    (a b : List ℕ)
    → lex a b ≡ Ordering.lt
    → common_bytes a b < length a
    → common_bytes a b + 1 < length b
    → (lex a (take (suc (common_bytes a b)) b) ≡ Ordering.lt)
      × (lex (take (suc (common_bytes a b)) b) b ≡ Ordering.lt)
unfolding lex
cut_between [] b h p q = absurd (omega arith)
cut_between (x ∷ a) [] h p q = cc
cut_between (x ∷ a) (y ∷ b) h p q = elim (Bool-cases (x == y)) [
  | inl e ↦ rw (common_eq x y a b e) (ground (arith, common_eq x y a b e, cut_between a b))
  | inr e ↦ rw (common_ne x y a b e) (ground (arith, common_ne x y a b e, nil_lt b))
]

-- What the choice must give: a slot that is not the last, and a key of the length that is told, not
-- below the slot's key and below that of the next slot.
record IsChoice (n : Node) (info : SeparatorInfo) : Type 0 where
  inside : info.slot + 1 < count n
  size : length (get_sep n info) ≡ info.length
  above : lex (full_key n info.slot) (get_sep n info) ≢ Ordering.gt
  below : lex (get_sep n info) (full_key n (info.slot + 1)) ≡ Ordering.lt

module _ (n : Node) (o : IsOrdered n) (i : ℕ) (h : i + 1 < count n) where
  prefix_size : length (prefix n) ≡ n.prefix_length
  prefix_size = length-take n.prefix_length n.lower_fence.bytes (IsFenced-prefix_fits n o.fenced)

  next_above : lex (slot_at n i).key (slot_at n (i + 1)).key ≡ Ordering.lt
  next_above = ascending_slots n o.sorted i (i + 1) (omega arith) h

  -- The whole key of the slot.
  whole_IsChoice : IsChoice n (record { length = get_full_key_len n i; slot = i; trunc = false })
  unfolding get_sep get_full_key_len
  whole_IsChoice =
      let k = (slot_at n i).key in
      let e : take (n.prefix_length + length k - n.prefix_length) k ≡ k =
        ap (λ m. take m k) (omega arith) ∙ take_all k in
      record {
        inside = h;
        size =
            length-append (prefix n) (take (n.prefix_length + length k - n.prefix_length) k)
            ∙ omega (arith, prefix_size, ap (λ (l : List ℕ). length l) e);
        above = λ g. cc (e, lex_refl (prefix n ++ k), g);
        below =
            ap (λ r. lex (prefix n ++ r) (full_key n (i + 1))) e
            ∙ lex-same_prefix (prefix n) k (slot_at n (i + 1)).key
            ∙ next_above;
      }

  -- The next key, cut behind what it shares with this one.
  cut_IsChoice :
      (let c = common_bytes (slot_at n i).key (slot_at n (i + 1)).key in
        c < length (slot_at n i).key
        → c + 1 < length (slot_at n (i + 1)).key
        → IsChoice n (record { length = n.prefix_length + c + 1; slot = i; trunc = true }))
  unfolding get_sep
  cut_IsChoice p q =
      let a = (slot_at n i).key in
      let b = (slot_at n (i + 1)).key in
      let c : ℕ = common_bytes a b in
      let m : n.prefix_length + c + 1 - n.prefix_length ≡ suc c = omega arith in
      let e : take (n.prefix_length + c + 1 - n.prefix_length) b ≡ take (suc c) b =
        ap (λ k. take k b) m in
      let (lo, hi) = cut_between a b next_above p q in
      record {
        inside = h;
        size =
            length-append (prefix n) (take (n.prefix_length + c + 1 - n.prefix_length) b)
            ∙ omega (
              arith,
              prefix_size,
              ap (λ (l : List ℕ). length l) e,
              length-take (suc c) b (omega arith),
            );
        above = λ g. cc (lex-same_prefix (prefix n) a (take (suc c) b), lo, g);
        below =
            ap (λ r. lex (prefix n ++ r) (full_key n (i + 1))) e
            ∙ lex-same_prefix (prefix n) (take (suc c) b) b
            ∙ hi;
      }

separator_at-IsChoice :
    (n : Node) → IsOrdered n → (i : ℕ) → i + 1 < count n → IsChoice n (separator_at n i)
unfolding separator_at common_prefix
separator_at-IsChoice n o i h =
    let c : ℕ = common_bytes (slot_at n i).key (slot_at n (i + 1)).key in
    let z : (count n == 0) ≡ false = ground arith in
    elim (Bool-cases
      (ltb c (length (slot_at n i).key) && ltb (c + 1) (length (slot_at n (i + 1)).key))) [
        | inl e ↦
            rw (z, separator_at, common_prefix)
              (rw e (cut_IsChoice n o i h (ground arith) (ground arith)))
        | inr e ↦ rw (z, separator_at, common_prefix) (rw e (whole_IsChoice n o i h))
      ]

leaf_slot_inside : (n : Node) → 3 ≤ count n → leaf_slot n + 1 < count n
unfolding leaf_slot
leaf_slot_inside n h =
    let lower : ℕ = count n / 2 - count n / 16 in
    omega (
      arith,
      longest_prefix_range n (count n / 2 + count n / 16 - lower) lower (count n / 2)
          (common_prefix n (count n / 2) 0),
    )

full_ascending :
    (n : Node)
    → IsOrdered n
    → (i j : ℕ) → i < j
    → j < count n
    → lex (full_key n i) (full_key n j) ≡ Ordering.lt
full_ascending n o i j h k =
    lex-same_prefix (prefix n) (slot_at n i).key (slot_at n j).key
    ∙ ascending_slots n o.sorted i j h k

lex_gt_of_lt :
    (a b c : List ℕ) → lex a b ≡ Ordering.lt → lex a c ≡ Ordering.gt → lex b c ≡ Ordering.gt
lex_gt_of_lt a b c h k = lex_swap_lt c b (lex_lt_trans c a b (lex_swap a c k) h)

find_sep-IsChoice : (n : Node) → IsOrdered n → 3 ≤ count n → IsChoice n (find_sep n)
unfolding find_sep
find_sep-IsChoice n o h =
    if_either (IsChoice n) n.is_leaf
      (separator_at-IsChoice n o (leaf_slot n) (leaf_slot_inside n h))
      (whole_IsChoice n o (count n / 2) (omega arith))

-- In a node of at least three records in order, the separator that `findSep` chooses and `getSep` writes
-- has the length that was told, is at or after every key up to its slot, which is not the last one, and
-- before every later key, whether it is cut short or not.
pub find_sep-get_sep :
    (n : Node)
    → IsOrdered n
    → 3 ≤ count n
    → (let info = find_sep n in
        let sep = get_sep n info in
        (info.slot + 1 < count n)
        × (length sep ≡ info.length)
        × ((i : ℕ) → i ≤ info.slot → lex (full_key n i) sep ≢ Ordering.gt)
        × ((i : ℕ) → info.slot < i → i < count n → lex sep (full_key n i) ≡ Ordering.lt))
find_sep-get_sep n o h =
    let c = find_sep-IsChoice n o h in
    let pos = (find_sep n).slot in
    let sep = get_sep n (find_sep n) in
    (
      c.inside,
      c.size,
      (λ i p g. c.above (
          ground
            (arith, full_ascending n o i pos, lex_gt_of_lt (full_key n i) (full_key n pos) sep))),
      λ i p q. ground (
        arith,
        c.below,
        full_ascending n o (pos + 1) i,
        lex_lt_trans sep (full_key n (pos + 1)) (full_key n i),
      ),
    )
