-- ===== src/Node/Compaction.antt =====
-- backend/leanstore/storage/btree/core/BTreeNode.cpp: `compactify` and `requestSpaceFor`.
use tree.Prelude.{
  ℕ, ◌+◌, ◌*◌, ◌≤◌, ◌<◌, ◌≡◌, Bool, true, Option, List, [], arith, refl, sym, ap, ◌∙◌, length,
  length-take, leb, Bool-cases, inl, inr,
}
use tree.Node.State.{
  Layout, Slot, Node, count, prefix, slots_end, free_space, free_space_after_compaction,
}
use tree.Node.Store.{
  compactify, fenced_node, copy_key_value_range, make_hint, common_bytes, bytes_or_none,
}
use tree.Node.Hints.{HintsMatch}
use tree.Node.Sorted.{Records}
use tree.Node.Fences.{lower_key, upper_key, fenced_node-HasFences, IsFenced-prefix_fits}
use tree.Node.Records.{entry, entries, length-map}
use tree.Node.Valid.{IsOrdered, heap_total}
use tree.Node.Space.{IsPlaced, fence_bytes, record_bytes, record_bytes-entries}
use tree.Node.Filled.{
  IsFilled, fenced_node-IsFilled, whole-IsFilled, make_hint-IsFilled, IsFilled-IsOrdered,
}
use tree.Node.Update.{request_space_for}

-- What a node must have for its operations, and what they keep.
pub record IsValid (L : Layout) (n : Node) : Type 0 where
  pub ordered : IsOrdered n
  pub hints : HintsMatch n
  pub placed : IsPlaced L n

pub make_hint-HintsMatch : (n : Node) → HintsMatch (make_hint n)
unfolding make_hint
make_hint-HintsMatch n big i h = refl

length-prefix : (n : Node) → IsOrdered n → length (prefix n) ≡ n.prefix_length
length-prefix n o =
    length-take n.prefix_length n.lower_fence.bytes (IsFenced-prefix_fits n o.fenced)

pub same_prefix_length :
    (m n : Node)
    → IsOrdered m
    → IsOrdered n
    → lower_key m ≡ lower_key n
    → upper_key m ≡ upper_key n
    → m.prefix_length ≡ n.prefix_length
same_prefix_length m n om on lo up =
    om.fenced.common
    ∙ ap (λ l. common_bytes (bytes_or_none l) (bytes_or_none (upper_key m))) lo
    ∙ ap (λ u. common_bytes (bytes_or_none (lower_key n)) (bytes_or_none u)) up
    ∙ sym on.fenced.common

-- Two nodes with the same fences and records have the same bytes in the heap.
same_heap :
    (m n : Node)
    → IsOrdered m
    → IsOrdered n
    → lower_key m ≡ lower_key n
    → upper_key m ≡ upper_key n
    → entries m ≡ entries n
    → (count m ≡ count n) × (heap_total m.slot ≡ heap_total n.slot)
same_heap m n om on lo up e =
    let c : count m ≡ count n = omega (
      arith,
      length-map (entry m) m.slot,
      length-map (entry n) n.slot,
      ap (λ (l : Records). length l) e,
    ) in
    let p : m.prefix_length ≡ n.prefix_length = same_prefix_length m n om on lo up in
    let q : length (prefix m) ≡ length (prefix n) =
      omega (arith, length-prefix m om, length-prefix n on) in
    let pq : count m * length (prefix m) ≡ count n * length (prefix n) =
      ap (λ k. k * length (prefix m)) c ∙ ap (λ k. count n * k) q in
    (c, omega (arith, record_bytes-entries m, record_bytes-entries n, ap record_bytes e, pq))

module _ (L : Layout) (n : Node) (v : IsValid L n) where
  compactify-IsFilled : IsFilled L (compactify L n) (lower_key n) (upper_key n) (entries n)
  unfolding compactify
  compactify-IsFilled =
      let tmp = fenced_node L n.is_leaf (lower_key n) (upper_key n) in
      let f =
        fenced_node-IsFilled L (lower_key n) (upper_key n) v.placed.word n.is_leaf
          (omega (arith, v.placed.used, v.placed.heap, v.placed.room, v.placed.header)) in
      make_hint-IsFilled L (lower_key n) (upper_key n) v.placed.word
        (copy_key_value_range n tmp 0 (count n)) (entries n) n.upper
        (whole-IsFilled L (lower_key n) (upper_key n) v.placed.word n tmp [] v.ordered f
          v.ordered.between)

  compactify-HintsMatch : HintsMatch (compactify L n)
  unfolding compactify make_hint
  compactify-HintsMatch big i h = refl

  compactify-IsOrdered : IsOrdered (compactify L n)
  compactify-IsOrdered =
      IsFilled-IsOrdered L (compactify L n) (lower_key n) (upper_key n) (entries n)
        compactify-IsFilled v.ordered.bytes v.ordered.sorted

  -- `compactify` keeps the records and the fences of a node, leaves it valid, and its free space is then
  -- what `freeSpaceAfterCompaction` said before.
  pub compactify_lem :
      (entries (compactify L n) ≡ entries n)
      × (lower_key (compactify L n) ≡ lower_key n)
      × (upper_key (compactify L n) ≡ upper_key n)
      × IsValid L (compactify L n)
      × (free_space L (compactify L n) ≡ free_space_after_compaction L n)
  unfolding free_space free_space_after_compaction
  compactify_lem =
      let m = compactify L n in
      let f = compactify-IsFilled in
      let (c, h) = same_heap m n compactify-IsOrdered v.ordered f.lower_is f.upper_is f.records in
      let (u, d) = f.space (omega (arith, h, v.placed.used, v.placed.heap)) in
      let fe : fence_bytes m ≡ fence_bytes n =
        ap (λ l. length (bytes_or_none l) + length (bytes_or_none (upper_key m))) f.lower_is
        ∙ ap (λ l. length (bytes_or_none (lower_key n)) + length (bytes_or_none l)) f.upper_is in
      let e : slots_end L (count m) ≡ slots_end L (count n) = ap (slots_end L) c in
      let p = v.placed in
      (
        f.records,
        f.lower_is,
        f.upper_is,
        record {
          ordered = compactify-IsOrdered;
          hints = compactify-HintsMatch;
          placed = record {
            word = p.word;
            header = p.header;
            used = omega (arith, u, fe);
            heap = omega (arith, d);
            room = omega (arith, u, d, e, h, p.used, p.heap, p.room);
          };
        },
        omega (arith, u, d, e, h, p.used, p.heap, p.room, p.word),
      )

  -- `requestSpaceFor` says whether there is that much room, now or after compaction; the node keeps its
  -- records and fences, and if the answer is yes then it has the room now.
  pub request_space_for_lem :
      (needed : ℕ)
      → (let (answer, m) = request_space_for L n needed in
          (entries m ≡ entries n)
          × (lower_key m ≡ lower_key n)
          × (upper_key m ≡ upper_key n)
          × IsValid L m
          × (answer ≡ true → needed ≤ free_space L m))
  unfolding request_space_for
  request_space_for_lem needed = elim (Bool-cases (leb needed (free_space L n))) [
    | inl a ↦ rw (a, request_space_for) (refl, refl, refl, v, λ _. ground arith)
    | inr a ↦ elim (Bool-cases (leb needed (free_space_after_compaction L n))) [
      | inl b ↦
          let (r, lo, up, w, fs) = compactify_lem in
          rw (a, b, request_space_for) (r, lo, up, w, λ _. ground (arith, fs))
      | inr b ↦ rw (a, b, request_space_for) (refl, refl, refl, v, λ h. cc)
    ]
  ]

-- A fresh node with room for its fences is valid.
pub fenced_node-IsValid :
    (L : Layout) (leaf : Bool) (lower upper : Option (List ℕ))
    → L.page_bytes < 65536
    → 0 < L.slots_offset
    → L.slots_offset + length (bytes_or_none lower) + length (bytes_or_none upper) ≤ L.page_bytes
    → IsValid L (fenced_node L leaf lower upper)
unfolding heap_total
fenced_node-IsValid L leaf lower upper small header room =
    let m = fenced_node L leaf lower upper in
    let f = fenced_node-IsFilled L lower upper small leaf (omega arith) in
    let h = fenced_node-HasFences L leaf lower upper small (omega arith) in
    let fe : fence_bytes m ≡ length (bytes_or_none lower) + length (bytes_or_none upper) =
      ap (λ l. length (bytes_or_none l) + length (bytes_or_none (upper_key m))) f.lower_is
      ∙ ap (λ l. length (bytes_or_none lower) + length (bytes_or_none l)) f.upper_is in
    let c : count m ≡ 0 = ap (λ (l : List Slot). length l) h.empty in
    let e : slots_end L (count m) ≡ L.slots_offset = ap (slots_end L) c ∙ omega arith in
    record {
      ordered = IsFilled-IsOrdered L m lower upper [] f tt (λ i j p q. absurd (omega arith));
      hints = λ big. absurd (omega arith);
      placed = record {
        word = small;
        header = header;
        used = omega (arith, fe, h.used, ap heap_total h.empty);
        heap = omega (arith, h.offset);
        room = omega (arith, e, h.offset, h.used);
      };
    }
