-- ===== src/Node/Position.antt =====
-- backend/leanstore/storage/btree/core/BTreeNode.hpp: the position of a key among sorted keys, and the
-- comparison and the loop over the hints that the search is made of.
use tree.Prelude.{
  ℕ, zero, suc, ◌+◌, ◌*◌, ◌/◌, ◌≤◌, ◌<◌, ◌≡◌, ◌⊎◌, inl, inr, Bool, true, false, List, arith, refl,
  length, Ordering, Bool-cases,
}
use tree.Node.Bytes.{
  head, lex, AreBytes, cmp_keys-lex, head-lt, head-gt, head-eq, lex_swap_lt, lex_refl,
}
use tree.Node.State.{Slot, Node, count, slot_at}
use tree.Node.Search.{advance, compare_slot}

-- What the search relies on: the heads are those of the keys, the keys ascend, and the hints of a node
-- that uses them are the heads of the slots that split it evenly.
pub record IsSearchable (n : Node) : Type 0 where
  pub bytes : (i : ℕ) → AreBytes (slot_at n i).key
  pub heads : (i : ℕ) → (slot_at n i).head ≡ head (slot_at n i).key
  pub ascending :
      (i j : ℕ) → i < j → j < count n → lex (slot_at n i).key (slot_at n j).key ≡ Ordering.lt
  pub hints : 32 < count n → (i : ℕ) → i < 16 → n.hint i ≡ (slot_at n (count n / 17 * (i + 1))).head
  pub prefix_fits : n.prefix_length ≤ length n.lower_fence.bytes

-- `r.0` of the `size` ascending keys are less than `key`, and `r.1` tells whether the next one is it.
pub record IsPosition (at : ℕ → List ℕ) (size : ℕ) (key : List ℕ) (r : ℕ × Bool) : Type 0 where
  pub within : r.0 ≤ size
  pub below : (i : ℕ) → i < r.0 → lex (at i) key ≡ Ordering.lt
  pub above : (i : ℕ) → r.0 ≤ i → i < size → r.1 ≡ false → lex key (at i) ≡ Ordering.lt
  pub equal : r.1 ≡ true → (r.0 < size) × (at r.0 ≡ key)

pub Ordering-cases : (o : Ordering) → (o ≡ Ordering.lt) ⊎ (o ≡ Ordering.eq) ⊎ (o ≡ Ordering.gt)
Ordering-cases Ordering.lt = inl refl
Ordering-cases Ordering.eq = inr (inl refl)
Ordering-cases Ordering.gt = inr (inr refl)

pub compare_slot-lex :
    (key : List ℕ) (s : Slot)
    → AreBytes key
    → AreBytes s.key
    → s.head ≡ head s.key
    → compare_slot key (head key) s ≡ lex key s.key
unfolding compare_slot
compare_slot-lex key s hk hs e =
    ground (arith, head-lt key s.key, head-gt key s.key, head-eq key s.key, cmp_keys-lex key s.key)

pub advance_lem :
    (stop : ℕ → Bool) (rounds pos : ℕ)
    → (pos ≤ advance stop rounds pos)
      × (advance stop rounds pos ≤ pos + rounds)
      × ((i : ℕ) → pos ≤ i → i < advance stop rounds pos → stop i ≡ false)
      × (advance stop rounds pos < pos + rounds → stop (advance stop rounds pos) ≡ true)
unfolding advance
advance_lem stop zero pos =
    (omega arith, omega arith, λ i a b. absurd (omega arith), λ a. absurd (omega arith))
advance_lem stop (suc rounds) pos = elim (Bool-cases (stop pos)) [
  | inl h ↦ rw (h, advance) (omega arith, omega arith, (λ i a b. absurd (omega arith)), λ a. h)
  | inr h ↦
      let (a, b, c, d) = advance_lem stop rounds (suc pos) in
      rw (h, advance)
        (omega arith, omega arith, (λ i p q. ground (arith, c i)), λ p. d (omega arith))
]

-- A key has one position.
pub IsPosition-unique :
    (at : ℕ → List ℕ) (size : ℕ) (key : List ℕ) (r q : ℕ × Bool)
    → IsPosition at size key r
    → IsPosition at size key q
    → (r.0 ≡ q.0) × (r.1 ≡ q.1)
IsPosition-unique at size key (i, a) (j, b) p q = ground (
  arith,
  p.below j,
  q.below i,
  p.above j,
  q.above i,
  p.above i,
  q.above j,
  p.equal,
  q.equal,
  lex_refl key,
  lex_swap_lt key (at i),
  lex_swap_lt key (at j),
  lex_swap_lt (at i) key,
  lex_swap_lt (at j) key,
)
