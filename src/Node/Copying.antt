-- ===== src/Node/Copying.antt =====
-- backend/leanstore/storage/btree/core/BTreeNode.cpp: the assertions of `copyKeyValueRange` hold in a copy to an empty
-- node that has the room.
use tree.Prelude.{
  ℕ, ◌+◌, ◌≤◌, ◌<◌, ◌≡◌, ◌==◌, ◌&&◌, true, List, [], ◌∷◌, arith, refl, ap, ◌∙◌, ok, check-true, leb,
  take, drop, Bool-cases, inl, inr, if◌then◌else◌, if_true, if_false,
}
use tree.Node.State.{Layout, Slot, Node, count, slots_end}
use tree.Node.Store.{
  for_each, copy_slot, copy_key_value, copy_key_value_range, rounds_fit, copy_fits, copy_range,
}
use tree.Node.Valid.{heap_total}
use tree.Node.Space.{
  IsTaken, for_each-IsTaken, copy_slot-IsTaken, copy_key_value-IsTaken,
  copy_key_value_range-IsTaken,
}

rounds_fit_lem :
    (bound : ℕ) (body : Slot → Node → Node)
    → ((s : Slot) (dst : Node) → IsTaken dst (body s dst))
    → (range : List Slot) (dst : Node) → dst.data_offset + dst.space_used < 65536
    → bound + heap_total (for_each body range dst).slot ≤ dst.data_offset + heap_total dst.slot
    → rounds_fit bound body range dst ≡ true
unfolding rounds_fit
rounds_fit_lem bound body one [] dst small room = refl
rounds_fit_lem bound body one (s ∷ range) dst small room =
    let next = body s dst in
    let t = one s dst in
    let rest = for_each-IsTaken body one range next in
    let e = t.accounts (omega (arith, room, rest.grows)) small in
    let here : leb bound next.data_offset ≡ true = ground (arith, e.0, room, rest.grows) in
    let later =
      rounds_fit_lem bound body one range next (omega (arith, e, small, t.grows, room, rest.grows))
        (omega (arith, e.0, room)) in
    ground (arith, here, later)

module _ (L : Layout) (src dst : Node) (first number : ℕ) where
  abbrev copied : Node
  copied = copy_key_value_range src dst first number

  pub copy_range-run :
      count dst ≡ 0
      → heap_total dst.slot ≡ 0
      → dst.data_offset + dst.space_used < 65536
      → count copied ≡ number
      → slots_end L number + heap_total copied.slot ≤ dst.data_offset
      → copy_range L src dst first number ≡ ok copied
  unfolding copy_range copy_fits copy_key_value_range
  copy_range-run none no_heap small all room =
      let range = take number (drop first src.slot) in
      let fast = rounds_fit (slots_end L (count dst + number)) copy_slot range dst in
      let slow = rounds_fit (slots_end L (count dst)) (copy_key_value src) range dst in
      let same = src.prefix_length == dst.prefix_length in
      let taken = copy_key_value_range-IsTaken src dst first number in
      let e = taken.accounts (omega (arith, room)) small in
      let plain : slots_end L (0 + number) ≡ slots_end L number = ap (slots_end L) (omega arith) in
      let empty : slots_end L 0 ≡ L.slots_offset = omega arith in
      let end : leb (slots_end L (count copied)) copied.data_offset ≡ true =
        ground (arith, ap (slots_end L) all, e.0, room, no_heap) in
      let rounds : (if same then fast else slow) ≡ true = elim (Bool-cases same) [
        | inl e' ↦
            let f : copied ≡ for_each copy_slot range dst =
              if_true same (for_each copy_slot range dst) _ e' in
            let h = ap (λ (n : Node). heap_total n.slot) f in
            if_true same fast slow e'
            ∙ rounds_fit_lem (slots_end L (count dst + number)) copy_slot copy_slot-IsTaken range
                dst small
                (omega (arith, ap (λ k. slots_end L (k + number)) none, plain, h, no_heap, room))
        | inr e' ↦
            let f : copied ≡ for_each (copy_key_value src) range dst =
              if_false same _ (for_each (copy_key_value src) range dst) e' in
            let h = ap (λ (n : Node). heap_total n.slot) f in
            if_false same fast slow e'
            ∙ rounds_fit_lem (slots_end L (count dst)) (copy_key_value src)
                (copy_key_value-IsTaken src) range dst small
                (omega (arith, ap (slots_end L) none, empty, h, no_heap, room))
      ] in
      check-true
        ((if same then fast else slow) && leb (slots_end L (count copied)) copied.data_offset)
        (ok copied) (ground (arith, rounds, end))
