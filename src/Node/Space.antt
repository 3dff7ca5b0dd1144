-- ===== src/Node/Space.antt =====
-- backend/leanstore/storage/btree/core/BTreeNode.cpp: the accounts of a node's space, `space_used` and
-- `data_offset`, as records are stored and copied.
use tree.Prelude.{
  inl, inr, ◌%◌, ℕ, zero, suc, ◌+◌, ◌*◌, ◌≤◌, ◌<◌, ◌≡◌, List, [], ◌∷◌, ◌++◌, map, arith, refl,
  length, drop, take, insert_at, add16, sub16, ◌==◌, Bool-cases, length-append,
}
use tree.Node.State.{Layout, Slot, Node, count, prefix, heap_bytes, slots_end}
use tree.Node.Store.{
  store_key_value, copy_key_value, copy_slot, for_each, copy_key_value_range, bytes_or_none,
}
use tree.Node.Sorted.{Records}
use tree.Node.Fences.{lower_key, upper_key}
use tree.Node.Records.{entries}
use tree.Node.Valid.{heap_total}

abbrev pub fence_bytes : Node → ℕ
fence_bytes n = length (bytes_or_none (lower_key n)) + length (bytes_or_none (upper_key n))

-- `space_used` counts the fences and what the slots have in the heap; that much fits behind
-- `data_offset`, and the slots end before it.
pub record IsPlaced (L : Layout) (n : Node) : Type 0 where
  pub word : L.page_bytes < 65536
  pub header : 0 < L.slots_offset
  pub used : n.space_used ≡ fence_bytes n + heap_total n.slot
  pub heap : n.data_offset + n.space_used ≤ L.page_bytes
  pub room : slots_end L (count n) ≤ n.data_offset

-- From `dst` to `res` the heap has taken exactly what the slots have gained, if there is so much.
pub record IsTaken (dst res : Node) : Type 0 where
  pub grows : heap_total dst.slot ≤ heap_total res.slot
  pub accounts :
      heap_total res.slot ≤ dst.data_offset + heap_total dst.slot
      → dst.data_offset + dst.space_used < 65536
      → (res.data_offset + heap_total res.slot ≡ dst.data_offset + heap_total dst.slot)
        × (res.space_used + heap_total dst.slot ≡ dst.space_used + heap_total res.slot)

IsTaken-trans : (a b c : Node) → IsTaken a b → IsTaken b c → IsTaken a c
IsTaken-trans a b c p q = record {
  grows = omega (arith, p.grows, q.grows);
  accounts = λ h k.
      let e = p.accounts (omega (arith, q.grows)) k in
      let g = q.accounts (omega (arith, e.0)) (omega (arith, e, p.grows)) in
      (omega (arith, e, g), omega (arith, e, g));
}

IsTaken-refl : (a : Node) → IsTaken a a
IsTaken-refl a = record { grows = omega arith; accounts = λ h k. (refl, refl) }

pub heap_total-insert_at :
    (i : ℕ) (s : Slot) (l : List Slot) → heap_total (insert_at i s l) ≡ heap_total l + heap_bytes s
unfolding heap_total
heap_total-insert_at zero s l = omega arith
heap_total-insert_at (suc i) s [] = omega arith
heap_total-insert_at (suc i) s (t ∷ l) = omega (arith, heap_total-insert_at i s l)

heap_total-append :
    (l : List Slot) (s : Slot) → heap_total (l ++ s ∷ []) ≡ heap_total l + heap_bytes s
unfolding heap_total
heap_total-append [] s = omega arith
heap_total-append (t ∷ l) s = omega (arith, heap_total-append l s)

taken :
    (n res : Node) (b : ℕ)
    → heap_total res.slot ≡ heap_total n.slot + b
    → res.data_offset ≡ sub16 n.data_offset (b % 65536)
    → res.space_used ≡ add16 n.space_used (b % 65536)
    → IsTaken n res
taken n res b e d u = record { grows = omega arith; accounts = λ h k. (omega arith, omega arith) }

pub store_key_value-IsTaken :
    (n : Node) (i : ℕ) (key payload : List ℕ) → IsTaken n (store_key_value n i key payload)
unfolding store_key_value
store_key_value-IsTaken n i key payload =
    taken n (store_key_value n i key payload) (length (drop n.prefix_length key) + length payload)
      (heap_total-insert_at i _ n.slot) refl refl

pub copy_slot-IsTaken : (s : Slot) (dst : Node) → IsTaken dst (copy_slot s dst)
unfolding copy_slot
copy_slot-IsTaken s dst =
    taken dst (copy_slot s dst) (heap_bytes s) (heap_total-append dst.slot _) refl refl

pub for_each-IsTaken :
    (body : Slot → Node → Node)
    → ((s : Slot) (dst : Node) → IsTaken dst (body s dst))
    → (range : List Slot) (dst : Node) → IsTaken dst (for_each body range dst)
for_each-IsTaken body one [] dst = IsTaken-refl dst
for_each-IsTaken body one (s ∷ range) dst =
    IsTaken-trans dst (body s dst) _ (one s dst) (for_each-IsTaken body one range (body s dst))

pub copy_key_value-IsTaken :
    (src : Node) (s : Slot) (dst : Node) → IsTaken dst (copy_key_value src s dst)
unfolding copy_key_value
copy_key_value-IsTaken src s dst =
    store_key_value-IsTaken dst (count dst) (prefix src ++ s.key) s.payload

pub copy_key_value_range-IsTaken :
    (src dst : Node) (first number : ℕ) → IsTaken dst (copy_key_value_range src dst first number)
unfolding copy_key_value_range copy_key_value
copy_key_value_range-IsTaken src dst first number =
    elim (Bool-cases (src.prefix_length == dst.prefix_length)) [
      | inl e ↦
          rw e
            (for_each-IsTaken copy_slot copy_slot-IsTaken (take number (drop first src.slot)) dst)
      | inr e ↦ rw e (
          for_each-IsTaken (copy_key_value src) (copy_key_value-IsTaken src)
            (take number (drop first src.slot)) dst)
    ]

-- The bytes of whole keys and payloads.
unfoldable pub record_bytes : Records → ℕ
record_bytes [] = 0
record_bytes (e ∷ es) = length e.0 + length e.1 + record_bytes es

pub record_bytes-append :
    (xs ys : Records) → record_bytes (xs ++ ys) ≡ record_bytes xs + record_bytes ys
unfolding record_bytes
record_bytes-append [] ys = omega arith
record_bytes-append (x ∷ xs) ys = omega (arith, record_bytes-append xs ys)

bytes_of-map :
    (p : List ℕ) (l : List Slot)
    → record_bytes (map (λ (s : Slot). (p ++ s.key, s.payload)) l)
      ≡ heap_total l + length l * length p
unfolding record_bytes heap_total
bytes_of-map p [] = omega arith
bytes_of-map p (s ∷ l) = grind (arith, length-append p s.key, bytes_of-map p l)

-- Every record saves the prefix in the heap.
pub record_bytes-entries :
    (n : Node) → record_bytes (entries n) ≡ heap_total n.slot + count n * length (prefix n)
record_bytes-entries n = bytes_of-map (prefix n) n.slot
