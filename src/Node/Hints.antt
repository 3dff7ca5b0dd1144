-- ===== src/Node/Hints.antt =====
-- backend/leanstore/storage/btree/core/BTreeNode.cpp: the hints after an update.
use tree.Prelude.{
  ℕ, ◌+◌, ◌-◌, ◌*◌, ◌/◌, ◌≤◌, ◌<◌, ◌≡◌, inl, inr, arith, leb, ap, get_or, insert_at,
  length-insert_at, get_or-insert_at, Bool-cases,
}
use tree.Node.State.{Slot, Node, count, slot_at, no_slot}
use tree.Node.Store.{hinted_head, first_hint, update_hint}

-- The hints of a node that uses them are the heads of the slots that split it evenly.
abbrev pub HintsMatch : Node → Type 0
HintsMatch n = 32 < count n → (i : ℕ) → i < 16 → n.hint i ≡ hinted_head n (count n / 17) i

div_below : (d k s : ℕ) → k < s / d → d * k < s
div_below d k s h = grind arith

-- The hints below the first one that is written stand for slots before the new one.
first_hint_before :
    (n : Node) (slot_id i : ℕ)
    → i < first_hint n slot_id
    → (count n / 17 * (i + 1) < slot_id) × ((count n - 1) / 17 ≡ count n / 17) × (33 < count n)
unfolding first_hint
first_hint_before n slot_id i h = ground (arith, div_below (count n / 17) (i + 1) slot_id)

-- A slot before the inserted one stays where it is.
slot_before :
    (n : Node) (slot_id j : ℕ) (s : Slot)
    → slot_id ≤ count n
    → j < slot_id
    → get_or (insert_at slot_id s n.slot) j no_slot ≡ slot_at n j
slot_before n slot_id j s le h = ground (arith, get_or-insert_at slot_id j s no_slot n.slot)

-- The loop of assertions at the end of `updateHint` holds after an insertion: every hint is the head of
-- its slot, those that `updateHint` leaves as they were included.
pub update_hint-HintsMatch :
    (n : Node) (slot_id : ℕ) (s : Slot)
    → HintsMatch n
    → slot_id ≤ count n
    → (i : ℕ) → i < 16
    → (let m = update_hint (record n { slot = insert_at slot_id s n.slot }) slot_id in
        m.hint i ≡ hinted_head m (count m / 17) i)
unfolding update_hint
update_hint-HintsMatch n slot_id s h le i lt =
    let m : Node = record n { slot = insert_at slot_id s n.slot } in
    elim (Bool-cases (leb (first_hint m slot_id) i)) [
      | inl p ↦ rw p
      | inr p ↦
          let b = first_hint_before m slot_id i (ground arith) in
          rw p (
            ground (
              arith,
              h,
              length-insert_at slot_id s n.slot,
              ap (λ (t : Slot). t.head) (slot_before n slot_id (count m / 17 * (i + 1)) s le b.0),
              h (omega (arith, length-insert_at slot_id s n.slot)) i lt,
            ))
    ]
