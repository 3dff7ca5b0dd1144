-- ===== src/Node/Valid.antt =====
-- backend/leanstore/storage/btree/core/BTreeNode.hpp: what every operation of a node relies on and
-- keeps, and the search in terms of the records.
use tree.Prelude.{
  ℕ, zero, suc, ◌+◌, ◌<◌, ◌≡◌, List, [], ◌∷◌, ◌++◌, map, arith, refl, sym, ◌∙◌, length, get_or,
  Ordering,
}
use tree.Node.Bytes.{head, lex, AreBytes}
use tree.Node.State.{Slot, Node, count, slot_at, no_slot, prefix, full_key, heap_bytes}
use tree.Node.Search.{lower_bound}
use tree.Node.Position.{IsSearchable, IsPosition}
use tree.Node.LowerBound.{lower_bound-IsPosition}
use tree.Node.Hints.{HintsMatch}
use tree.Node.Sorted.{Records, key_of, Sorted, All}
use tree.Node.Fences.{IsFenced, IsFenced-prefix_fits, Between, lower_key, upper_key}
use tree.Node.Records.{entry, entries, HeadsMatch, length-map}

abbrev pub ByteKeys : Records → Type 0
ByteKeys es = All (λ e. AreBytes e.0) es

abbrev pub AllBetween : Node → Records → Type 0
AllBetween n es = All (λ e. Between (lower_key n) (upper_key n) e.0) es

-- The bytes that the slots of a list have in the heap.
unfoldable pub heap_total : List Slot → ℕ
heap_total [] = 0
heap_total (s ∷ l) = heap_bytes s + heap_total l

-- The order of the records and what speeds their search up.
pub record IsOrdered (n : Node) : Type 0 where
  pub heads : HeadsMatch n.slot
  pub bytes : ByteKeys (entries n)
  pub sorted : Sorted (entries n)
  pub between : AllBetween n (entries n)
  pub fenced : IsFenced n

AreBytes-suffix : (p k : List ℕ) → AreBytes (p ++ k) → AreBytes k
AreBytes-suffix [] k h = h
AreBytes-suffix (x ∷ p) k h = AreBytes-suffix p k h.1

pub lex-same_prefix : (p a b : List ℕ) → lex (p ++ a) (p ++ b) ≡ lex a b
unfolding lex
lex-same_prefix [] a b = refl
lex-same_prefix (x ∷ p) a b = ground (arith, lex-same_prefix p a b)

slot_bytes :
    (p : List ℕ) (l : List Slot) (i : ℕ)
    → ByteKeys (map (λ (s : Slot). (p ++ s.key, s.payload)) l)
    → AreBytes (get_or l i no_slot).key
slot_bytes p [] i h = tt
slot_bytes p (s ∷ l) zero h = AreBytes-suffix p s.key h.0
slot_bytes p (s ∷ l) (suc i) h = slot_bytes p l i h.1

slot_head :
    (l : List Slot) (i : ℕ)
    → HeadsMatch l
    → (get_or l i no_slot).head ≡ head (get_or l i no_slot).key
unfolding head
slot_head [] i h = refl
slot_head (s ∷ l) zero h = h.0
slot_head (s ∷ l) (suc i) h = slot_head l i h.1

key_of-map :
    (p : List ℕ) (l : List Slot) (i : ℕ)
    → i < length l
    → key_of (map (λ (s : Slot). (p ++ s.key, s.payload)) l) i ≡ p ++ (get_or l i no_slot).key
key_of-map p [] i h = absurd (omega arith)
key_of-map p (s ∷ l) zero h = refl
key_of-map p (s ∷ l) (suc i) h = key_of-map p l i (omega arith)

pub key_of-entries : (n : Node) (i : ℕ) → i < count n → key_of (entries n) i ≡ full_key n i
key_of-entries n i h = key_of-map (prefix n) n.slot i h

pub ascending_slots :
    (n : Node)
    → Sorted (entries n)
    → (i j : ℕ) → i < j
    → j < count n
    → lex (slot_at n i).key (slot_at n j).key ≡ Ordering.lt
ascending_slots n s i j h k =
    sym (lex-same_prefix (prefix n) (slot_at n i).key (slot_at n j).key)
    ∙ rw (← key_of-entries n i (omega arith), ← key_of-entries n j k)
        (s i j h (rw (length-map (entry n) n.slot) k))

pub IsOrdered-IsSearchable : (n : Node) → IsOrdered n → HintsMatch n → IsSearchable n
IsOrdered-IsSearchable n o h = record {
  bytes = λ i. slot_bytes (prefix n) n.slot i o.bytes;
  heads = λ i. slot_head n.slot i o.heads;
  ascending = ascending_slots n o.sorted;
  hints = h;
  prefix_fits = IsFenced-prefix_fits n o.fenced;
}

-- On a node whose records ascend by their keys, between the fences, with heads and hints that are
-- theirs, `lowerBound` returns the number of keys that are less than the given one, and `is_equal`
-- tells exactly whether the key there is the given one.
pub lower_bound-records :
    (n : Node) (key : List ℕ)
    → IsOrdered n
    → HintsMatch n
    → AreBytes key
    → IsPosition (key_of (entries n)) (length (entries n)) key (lower_bound n key)
lower_bound-records n key o h hk =
    let p = lower_bound-IsPosition n (IsOrdered-IsSearchable n o h) key hk in
    let e = length-map (entry n) n.slot in
    record {
      within = omega (arith, p.within);
      below = λ i a. rw (key_of-entries n i (omega (arith, p.within))) (p.below i a);
      above = λ i a b c. rw (key_of-entries n i (omega arith)) (p.above i a (omega arith) c);
      equal = λ r. (omega (arith, (p.equal r).0), key_of-entries n _ (p.equal r).0 ∙ (p.equal r).1);
    }
