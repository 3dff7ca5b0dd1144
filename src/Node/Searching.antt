-- ===== src/Node/Searching.antt =====
-- backend/leanstore/storage/btree/core/BTreeNode.hpp: the binary search with its hints, on keys without
-- their prefix.
use tree.Prelude.{
  ℕ, zero, suc, ◌+◌, ◌-◌, ◌*◌, ◌/◌, ◌≤◌, ◌<◌, ◌≡◌, inl, inr, true, not, List, arith, sym, ◌∙◌, ltb,
  leb, ◌==◌, Ordering, Bool-cases, if◌then◌else◌,
}
use tree.Node.Bytes.{head, lex, AreBytes, head-lt, head-gt, lex_lt_trans, lex_swap, lex_eq}
use tree.Node.State.{Node, count, slot_at}
use tree.Node.Search.{advance, search_hint, hint_range, search_loop}
use tree.Node.Position.{IsSearchable, IsPosition, Ordering-cases, compare_slot-lex, advance_lem}

module _ (n : Node) (s : IsSearchable n) (key : List ℕ) (hk : AreBytes key) where
  abbrev pub at : ℕ → List ℕ
  at i = (slot_at n i).key

  -- The key lies between the slots below `lower` and those from `upper` on.
  record IsBetween (lower upper : ℕ) : Type 0 where
    ordered : lower ≤ upper
    inside : upper ≤ count n
    below : (i : ℕ) → i < lower → lex (at i) key ≡ Ordering.lt
    above : (i : ℕ) → upper ≤ i → i < count n → lex key (at i) ≡ Ordering.lt

  above_of :
      (m i : ℕ) → m ≤ i → i < count n → lex key (at m) ≡ Ordering.lt → lex key (at i) ≡ Ordering.lt
  above_of m i le lt h = ground (arith, s.ascending m i, lex_lt_trans key (at m) (at i))

  below_of :
      (m i : ℕ) → i ≤ m → m < count n → lex key (at m) ≡ Ordering.gt → lex (at i) key ≡ Ordering.lt
  below_of m i le lt h =
      ground (arith, s.ascending i m, lex_swap key (at m), lex_lt_trans (at i) (at m) key)

  module _ (lower upper mid : ℕ) (b : IsBetween lower upper) where
    below_mid : lex key (at mid) ≡ Ordering.lt → lower ≤ mid → mid < upper → IsBetween lower mid
    below_mid e p q = record {
      ordered = p;
      inside = omega (arith, b.inside);
      below = b.below;
      above = λ i a c. above_of mid i a c e;
    }

    above_mid :
        lex key (at mid) ≡ Ordering.gt → lower ≤ mid → mid < upper → IsBetween (mid + 1) upper
    above_mid e p q = record {
      ordered = omega arith;
      inside = b.inside;
      below = λ i a. below_of mid i (omega arith) (omega (arith, b.inside)) e;
      above = b.above;
    }

  at_mid : (mid : ℕ) → key ≡ at mid → mid < count n → IsPosition at (count n) key (mid, true)
  at_mid mid e h = record {
    within = omega arith;
    below = λ i p. rw e (s.ascending i mid p h);
    above = λ i p q r. cc;
    equal = λ _. (h, sym e);
  }

  search_loop_lem :
      (fuel lower upper : ℕ)
      → upper ≤ lower + fuel
      → IsBetween lower upper
      → IsPosition at (count n) key (search_loop n key fuel lower upper)
  unfolding search_loop
  search_loop_lem zero lower upper f b = record {
    within = ground arith;
    below = b.below;
    above = λ i p q r. b.above i (omega arith) q;
    equal = λ e. cc;
  }
  search_loop_lem (suc fuel) lower upper f b = elim (Bool-cases (ltb lower upper)) [
    | inr h ↦
        rw (h, search_loop)
          (record {
            within = ground arith;
            below = b.below;
            above = λ i p q r. b.above i (ground arith) q;
            equal = λ e. cc;
          })
    | inl h ↦
        let mid : ℕ = (upper - lower) / 2 + lower in
        let c = compare_slot-lex key (slot_at n mid) hk (s.bytes mid) (s.heads mid) in
        elim (Ordering-cases (lex key (at mid))) [
          | inl e ↦
              rw (h, c ∙ e, search_loop)
                (search_loop_lem fuel lower mid (ground arith)
                  (below_mid lower upper mid b e (ground arith) (ground arith)))
          | inr (inl e) ↦
              rw (h, c ∙ e, search_loop)
                (at_mid mid (lex_eq key (at mid) e) (ground (arith, b.inside)))
          | inr (inr e) ↦
              rw (h, c ∙ e, search_loop)
                (search_loop_lem fuel (mid + 1) upper (ground arith)
                  (above_mid lower upper mid b e (ground arith) (ground arith)))
        ]
  ]

  head_mono : (i j : ℕ) → i ≤ j → j < count n → (slot_at n i).head ≤ (slot_at n j).head
  head_mono i j p q =
      ground (
        arith,
        s.heads i,
        s.heads j,
        s.ascending i j,
        head-gt (at i) (at j) (s.bytes i) (s.bytes j),
      )

  head_below :
      (m i : ℕ) → (slot_at n m).head < head key → i ≤ m → m < count n → lex (at i) key ≡ Ordering.lt
  head_below m i h p q = below_of m i p q (head-gt key (at m) hk (s.bytes m) (rw (← s.heads m) h))

  head_above :
      (m i : ℕ) → head key < (slot_at n m).head → m ≤ i → i < count n → lex key (at i) ≡ Ordering.lt
  head_above m i h p q = above_of m i p q (head-lt key (at m) hk (s.bytes m) (rw (← s.heads m) h))

  hint_mono : 32 < count n → (i j : ℕ) → i ≤ j → j < 16 → n.hint i ≤ n.hint j
  hint_mono big i j p q =
      rw (s.hints big i (omega arith), s.hints big j q)
        (head_mono (count n / 17 * (i + 1)) (count n / 17 * (j + 1)) (grind arith) (grind arith))

  search_hint_lem :
      32 < count n
      → (let (pos, pos2) = search_hint n (head key) in
          (pos ≤ pos2)
          × (pos2 ≤ 16)
          × ((i : ℕ) → i < pos → n.hint i < head key)
          × (pos2 < 16 → head key < n.hint pos2))
  unfolding search_hint
  search_hint_lem big =
      let pos : ℕ = advance (λ i. leb (head key) (n.hint i)) 16 0 in
      let (a, b, c, d) = advance_lem (λ i. leb (head key) (n.hint i)) 16 0 in
      let (a2, b2, c2, d2) = advance_lem (λ i. not (n.hint i == head key)) (16 - pos) pos in
      (
        a2,
        omega arith,
        (λ i p. ground (arith, c i)),
        λ p. ground (
          arith,
          d,
          d2,
          hint_mono big pos (advance (λ i. not (n.hint i == head key)) (16 - pos) pos),
        ),
      )

  lower_hint :
      32 < count n
      → (pos i : ℕ) → ((i : ℕ) → i < pos → n.hint i < head key)
      → pos ≤ 16
      → i < pos * (count n / 17)
      → lex (at i) key ≡ Ordering.lt
  lower_hint big zero i c p q = absurd (ground arith)
  lower_hint big (suc k) i c p q =
      head_below (count n / 17 * (k + 1)) i (rw (← s.hints big k (omega arith)) (c k (omega arith)))
        (grind arith) (grind arith)

  upper_hint :
      32 < count n
      → (pos2 i : ℕ) → pos2 < 16
      → head key < n.hint pos2
      → (pos2 + 1) * (count n / 17) ≤ i
      → i < count n
      → lex key (at i) ≡ Ordering.lt
  upper_hint big pos2 i p h q lt =
      head_above (count n / 17 * (pos2 + 1)) i (rw (← s.hints big pos2 p) h) (grind arith) lt

  hinted :
      32 < count n
      → IsBetween ((search_hint n (head key)).0 * (count n / 17)) (
          if ltb (search_hint n (head key)).1 16
          then ((search_hint n (head key)).1 + 1) * (count n / 17)
          else count n)
  hinted big =
      let (a, b, c, d) = search_hint_lem big in
      let (pos, pos2) = search_hint n (head key) in
      elim (Bool-cases (ltb pos2 16)) [
        | inl h ↦ rw h (record {
          ordered = grind arith;
          inside = grind arith;
          below = λ i p. lower_hint big pos i c (omega arith) p;
          above = λ i p q. upper_hint big pos2 i (ground arith) (d (ground arith)) p q;
        })
        | inr h ↦ rw h (record {
          ordered = grind arith;
          inside = omega arith;
          below = λ i p. lower_hint big pos i c (omega arith) p;
          above = λ i p q. absurd (omega arith);
        })
      ]

  -- The range that the hints leave contains the key's place.
  hint_range-IsBetween : IsBetween (hint_range n (head key)).0 (hint_range n (head key)).1
  unfolding hint_range
  hint_range-IsBetween = elim (Bool-cases (ltb 32 (count n))) [
    | inr h ↦ rw h (record {
      ordered = omega arith;
      inside = omega arith;
      below = λ i p. absurd (omega arith);
      above = λ i p q. absurd (omega arith);
    })
    | inl h ↦ rw h (hinted (ground arith))
  ]

  pub search_slots_rest :
      IsPosition at
        (count n)
        key
        (search_loop n key (count n) (hint_range n (head key)).0 (hint_range n (head key)).1)
  search_slots_rest =
      search_loop_lem (count n) _ _ (omega (arith, hint_range-IsBetween.inside))
        hint_range-IsBetween
