-- ===== src/Node/Inserting.antt =====
-- backend/leanstore/storage/btree/core/BTreeNode.cpp: `insert`.
use tree.Prelude.{
  ℕ, ◌+◌, ◌≤◌, ◌<◌, ◌≡◌, true, false, List, arith, refl, sym, ap, subst, ◌∙◌, length, drop,
  length-drop, insert_at, length-take, length-take-le,
}
use tree.Node.Bytes.{AreBytes}
use tree.Node.State.{
  Layout, Node, free_space, has_enough_space_for, space_needed, can_insert, get_fence_key,
  HasPrefix,
}
use tree.Node.Store.{store_key_value, update_hint}
use tree.Node.Search.{lower_bound}
use tree.Node.Position.{IsPosition}
use tree.Node.Sorted.{key_of}
use tree.Node.Fences.{lower_key, upper_key, Between, Between-HasPrefix, IsFenced-prefix_fits}
use tree.Node.Records.{entry, entries, length-map, entries-store_key_value, stored_frame}
use tree.Node.Valid.{IsOrdered, lower_bound-records}
use tree.Node.Space.{IsPlaced}
use tree.Node.Compaction.{IsValid, request_space_for_lem, same_prefix_length}
use tree.Node.Update.{request_space_for, prepare_insert, insert}
use tree.Node.Position.{IsPosition-unique}
use tree.Node.Storing.{stored-HintsMatch, stored-IsOrdered, stored-IsPlaced}

prepare_insert_lem :
    (L : Layout) (n : Node)
    → IsValid L n
    → (key_len payload_len : ℕ)
    → (let (answer, m) = prepare_insert L n key_len payload_len in
        (entries m ≡ entries n)
        × (lower_key m ≡ lower_key n)
        × (upper_key m ≡ upper_key n)
        × IsValid L m
        × (answer ≡ true → space_needed L n key_len payload_len ≤ free_space L m))
unfolding prepare_insert
prepare_insert_lem L n v key_len payload_len =
    request_space_for_lem L n v (space_needed L n key_len payload_len)

-- The answer of `canInsert` is that of `prepareInsert`.
can_insert-prepare :
    (L : Layout) (n : Node) (key_len payload_len : ℕ)
    → (prepare_insert L n key_len payload_len).0 ≡ can_insert L n key_len payload_len
unfolding prepare_insert can_insert request_space_for has_enough_space_for
can_insert-prepare L n k p = ground arith

update_hint-entries : (m : Node) (pos : ℕ) → entries (update_hint m pos) ≡ entries m
unfolding update_hint
update_hint-entries m pos = refl

update_hint-fences :
    (m : Node) (pos : ℕ)
    → (lower_key (update_hint m pos) ≡ lower_key m) × (upper_key (update_hint m pos) ≡ upper_key m)
unfolding update_hint
update_hint-fences m pos = (refl, refl)

update_hint-IsOrdered : (m : Node) (pos : ℕ) → IsOrdered m → IsOrdered (update_hint m pos)
unfolding update_hint
update_hint-IsOrdered m pos o = record {
  heads = o.heads;
  bytes = o.bytes;
  sorted = o.sorted;
  between = o.between;
  fenced = record { lower_bytes = o.fenced.lower_bytes; common = o.fenced.common };
}

update_hint-IsPlaced :
    (L : Layout) (m : Node) (pos : ℕ) → IsPlaced L m → IsPlaced L (update_hint m pos)
unfolding update_hint
update_hint-IsPlaced L m pos p = record {
  word = p.word;
  header = p.header;
  used = p.used;
  heap = p.heap;
  room = p.room;
}

HasPrefix-le :
    (n : Node) (key : List ℕ) → IsOrdered n → HasPrefix n key → n.prefix_length ≤ length key
HasPrefix-le n key o h =
    let a = ap (λ (l : List ℕ). length l) h in
    omega (
      arith,
      a,
      length-take n.prefix_length n.lower_fence.bytes (IsFenced-prefix_fits n o.fenced),
      length-take-le n.prefix_length key,
    )

-- Where the node has the room, from the position of the key on.
insert_prepared :
    (L : Layout) (p : Node) (v : IsValid L p) (key payload : List ℕ) (pos : ℕ)
    → AreBytes key
    → Between (lower_key p) (upper_key p) key
    → IsPosition (key_of (entries p)) (length (entries p)) key (pos, false)
    → L.slot_bytes + (length (drop p.prefix_length key) + length payload) ≤ free_space L p
    → (let m = update_hint (store_key_value p pos key payload) pos in
        (entries m ≡ insert_at pos (key, payload) (entries p))
        × (lower_key m ≡ lower_key p)
        × (upper_key m ≡ upper_key p)
        × IsValid L m)
insert_prepared L p v key payload pos hk hb at fits =
    let s = store_key_value p pos key payload in
    let f = stored_frame p pos key payload in
    let g = update_hint-fences s pos in
    (
      update_hint-entries s pos
          ∙ entries-store_key_value p pos key payload (Between-HasPrefix p key v.ordered.fenced hb),
      g.0 ∙ ap get_fence_key f.1,
      g.1 ∙ ap get_fence_key f.2,
      record {
        ordered = update_hint-IsOrdered s pos (stored-IsOrdered L p v key payload pos hk hb at);
        hints =
            stored-HintsMatch L p v key payload pos
              (omega (arith, at.within, length-map (entry p) p.slot));
        placed = update_hint-IsPlaced L s pos (stored-IsPlaced L p v key payload pos fits);
      },
    )

needed_space :
    (L : Layout) (n p : Node) (key payload : List ℕ)
    → IsOrdered n
    → HasPrefix n key
    → p.prefix_length ≡ n.prefix_length
    → L.slot_bytes + length key + length payload < 65536
    → space_needed L n (length key) (length payload)
      ≡ L.slot_bytes + (length (drop p.prefix_length key) + length payload)
unfolding space_needed
needed_space L n p key payload o h e small =
    omega (arith, e, HasPrefix-le n key o h, length-drop p.prefix_length key)

-- In a valid node with room for it, a new key between the fences is stored before the first greater
-- key, at the index that `lowerBound` gave; the other records and the fences stay as they are, and the
-- node stays valid: its records in order, its heads, hints and accounts right, slots and heap apart.
pub insert_lem :
    (L : Layout) (n : Node) (key payload : List ℕ)
    → IsValid L n
    → AreBytes key
    → Between (lower_key n) (upper_key n) key
    → L.slot_bytes + length key + length payload < 65536
    → can_insert L n (length key) (length payload) ≡ true
    → (lower_bound n key).1 ≡ false
    → (let (slot_id, m) = insert L n key payload in
        (slot_id ≡ (lower_bound n key).0)
        × (entries m ≡ insert_at slot_id (key, payload) (entries n))
        × (lower_key m ≡ lower_key n)
        × (upper_key m ≡ upper_key n)
        × IsValid L m)
unfolding insert
insert_lem L n key payload v hk hb small can new =
    let p = (prepare_insert L n (length key) (length payload)).1 in
    let (e, lo, up, w, room) = prepare_insert_lem L n v (length key) (length payload) in
    let at = lower_bound-records n key v.ordered v.hints hk in
    let at' =
      subst (λ es. IsPosition (key_of es) (length es) key (lower_bound p key)) e
        (lower_bound-records p key w.ordered w.hints hk) in
    let (i, b) =
      IsPosition-unique (key_of (entries n)) (length (entries n)) key (lower_bound p key)
        (lower_bound n key) at' at in
    let hb' =
      subst (λ l. Between l (upper_key p) key) (sym lo)
        (subst (λ u. Between (lower_key n) u key) (sym up) hb) in
    let fits =
      needed_space L n p key payload v.ordered (Between-HasPrefix n key v.ordered.fenced hb)
        (same_prefix_length p n w.ordered v.ordered lo up) small in
    let (r, lo', up', v') =
      insert_prepared L p w key payload (lower_bound p key).0 hk hb'
        (subst
          (λ found.
            IsPosition (key_of (entries p)) (length (entries p)) key ((lower_bound p key).0, found))
          (b ∙ new) (lower_bound-records p key w.ordered w.hints hk))
        (omega (arith, fits, room (can_insert-prepare L n (length key) (length payload) ∙ can))) in
    (i, r ∙ ap (insert_at (lower_bound p key).0 (key, payload)) e, lo' ∙ lo, up' ∙ up, v')
