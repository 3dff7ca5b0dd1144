-- ===== src/Node/Removing.antt =====
-- backend/leanstore/storage/btree/core/BTreeNode.cpp: `remove` and `removeSlot`.
use tree.Prelude.{
  ℕ, zero, suc, ◌+◌, ◌<◌, ◌≡◌, List, [], ◌∷◌, map, arith, refl, sym, ap, subst, ◌∙◌, length,
  remove_at, length-remove_at, if◌then◌else◌, Bool-cases, inl, inr, get_or,
}
use tree.Node.Bytes.{AreBytes, head}
use tree.Node.State.{Layout, Slot, Node, count, no_slot, slots_end, heap_bytes}
use tree.Node.Store.{make_hint}
use tree.Node.Search.{lower_bound}
use tree.Node.LowerBound.{lower_bound_exact-lower_bound}
use tree.Node.Sorted.{Sorted, Sorted-remove_at, All, All-remove_at}
use tree.Node.Fences.{lower_key, upper_key, Between}
use tree.Node.Records.{entry, entries, length-map}
use tree.Node.Valid.{IsOrdered, ByteKeys, IsOrdered-IsSearchable, lower_bound-records, heap_total}
use tree.Node.Space.{IsPlaced}
use tree.Node.Compaction.{IsValid}
use tree.Node.Update.{remove, remove_slot}

map-remove_at :
    {A B : Type 0} (f : A → B) (i : ℕ) (xs : List A)
    → map f (remove_at i xs) ≡ remove_at i (map f xs)
map-remove_at f i [] = refl
map-remove_at f zero (x ∷ xs) = refl
map-remove_at f (suc i) (x ∷ xs) = ap (λ r. f x ∷ r) (map-remove_at f i xs)

heap_total-remove_at :
    (i : ℕ) (l : List Slot)
    → heap_total (remove_at i l) + heap_bytes (get_or l i no_slot) ≡ heap_total l
unfolding heap_total
heap_total-remove_at i [] = omega arith
heap_total-remove_at zero (s ∷ l) = omega arith
heap_total-remove_at (suc i) (s ∷ l) = omega (arith, heap_total-remove_at i l)

module _ (L : Layout) (n : Node) (v : IsValid L n) (i : ℕ) (inside : i < count n) where
  removed-entries : entries (remove_slot n i) ≡ remove_at i (entries n)
  unfolding remove_slot make_hint
  removed-entries = map-remove_at (entry n) i n.slot

  removed-IsOrdered : IsOrdered (remove_slot n i)
  unfolding remove_slot make_hint
  removed-IsOrdered =
      let o = v.ordered in
      let e = map-remove_at (entry n) i n.slot in
      record {
        heads = All-remove_at (λ s. s.head ≡ head s.key) i n.slot o.heads;
        bytes = subst ByteKeys (sym e) (All-remove_at (λ x. AreBytes x.0) i (entries n) o.bytes);
        sorted = subst Sorted (sym e) (
            Sorted-remove_at (entries n) o.sorted i
              (omega (arith, inside, length-map (entry n) n.slot)));
        between =
            subst (λ es. All (λ x. Between (lower_key n) (upper_key n) x.0) es) (sym e)
              (All-remove_at (λ x. Between (lower_key n) (upper_key n) x.0) i (entries n)
                o.between);
        fenced = record { lower_bytes = o.fenced.lower_bytes; common = o.fenced.common };
      }

  removed-IsPlaced : IsPlaced L (remove_slot n i)
  unfolding remove_slot make_hint
  removed-IsPlaced =
      let p = v.placed in
      let t = heap_total-remove_at i n.slot in
      let c = length-remove_at i n.slot inside in
      let e : slots_end L (count n) ≡ slots_end L (length (remove_at i n.slot)) + L.slot_bytes =
        ap (slots_end L) (sym c) ∙ grind arith in
      record {
        word = p.word;
        header = p.header;
        used = omega (arith, t, p.used, p.heap, p.word);
        heap = omega (arith, t, p.used, p.heap, p.word);
        room = omega (arith, p.room, e);
      }

  removed-IsValid : IsValid L (remove_slot n i)
  unfolding remove_slot make_hint
  removed-IsValid = record {
    ordered = removed-IsOrdered;
    hints = λ big j h. refl;
    placed = removed-IsPlaced;
  }

  removed-fences :
      (lower_key (remove_slot n i) ≡ lower_key n) × (upper_key (remove_slot n i) ≡ upper_key n)
  unfolding remove_slot make_hint
  removed-fences = (refl, refl)

-- `remove` answers whether the key is in the valid node. If it is, exactly its record goes and the node
-- stays valid, with its fences, the bytes of the record no longer counted; if not, nothing changes.
pub remove_lem :
    (L : Layout) (n : Node) (key : List ℕ)
    → IsValid L n
    → AreBytes key
    → (let (found, m) = remove n key in
        (found ≡ (lower_bound n key).1)
        × (entries m ≡ (if found then remove_at (lower_bound n key).0 (entries n) else entries n))
        × (lower_key m ≡ lower_key n)
        × (upper_key m ≡ upper_key n)
        × IsValid L m)
unfolding remove
remove_lem L n key v hk =
    let at = lower_bound-records n key v.ordered v.hints hk in
    let e = lower_bound_exact-lower_bound n (IsOrdered-IsSearchable n v.ordered v.hints) key hk in
    elim (Bool-cases (lower_bound n key).1) [
      | inl b ↦
          let inside : (lower_bound n key).0 < count n =
            omega (arith, (at.equal b).0, length-map (entry n) n.slot) in
          let f = removed-fences L n v (lower_bound n key).0 inside in
          rw (e, b, remove)
            (
              refl,
              removed-entries L n v (lower_bound n key).0 inside,
              f.0,
              f.1,
              removed-IsValid L n v (lower_bound n key).0 inside,
            )
      | inr b ↦ rw (e, b, remove) (refl, refl, refl, refl, v)
    ]
