-- ===== src/Node/Storing.antt =====
-- backend/leanstore/storage/btree/core/BTreeNode.cpp: `storeKeyValue` in a node that has the room.
use tree.Prelude.{
  ℕ, ◌+◌, ◌≤◌, ◌≡◌, false, Option, List, arith, sym, ap, subst, ◌∙◌, length, drop, length-insert_at,
}
use tree.Node.Bytes.{AreBytes, head}
use tree.Node.State.{Layout, Node, count, slots_end, free_space, get_fence_key}
use tree.Node.Store.{store_key_value, update_hint, bytes_or_none}
use tree.Node.Position.{IsPosition}
use tree.Node.Hints.{HintsMatch, update_hint-HintsMatch}
use tree.Node.Sorted.{Records, key_of, Sorted, Sorted-insert_at, All, All-insert_at}
use tree.Node.Fences.{lower_key, upper_key, Between, Between-HasPrefix}
use tree.Node.Records.{entries, entries-store_key_value, stored_frame, stored_heads}
use tree.Node.Filled.{IsFenced-frame}
use tree.Node.Valid.{IsOrdered, ByteKeys, heap_total}
use tree.Node.Space.{fence_bytes, IsPlaced, store_key_value-IsTaken, heap_total-insert_at}
use tree.Node.Compaction.{IsValid}

abbrev AllBetweenKeys : Option (List ℕ) → Option (List ℕ) → Records → Type 0
AllBetweenKeys lower upper es = All (λ e. Between lower upper e.0) es

module _ (L : Layout) (p : Node) (v : IsValid L p) (key payload : List ℕ) (pos : ℕ) where
  abbrev pub stored : Node
  stored = store_key_value p pos key payload

  pub stored-HintsMatch : pos ≤ count p → HintsMatch (update_hint stored pos)
  unfolding store_key_value
  stored-HintsMatch le big i h =
      let base : Node = record p {
        data_offset = stored.data_offset;
        space_used = stored.space_used;
      } in
      update_hint-HintsMatch base pos
        (record {
          offset = stored.data_offset;
          key = drop p.prefix_length key;
          payload = payload;
          head = head (drop p.prefix_length key);
        })
        v.hints le i h

  pub stored-IsOrdered :
      AreBytes key
      → Between (lower_key p) (upper_key p) key
      → IsPosition (key_of (entries p)) (length (entries p)) key (pos, false)
      → IsOrdered stored
  stored-IsOrdered hk hb at =
      let o = v.ordered in
      let f = stored_frame p pos key payload in
      let e = entries-store_key_value p pos key payload (Between-HasPrefix p key o.fenced hb) in
      let lo : lower_key stored ≡ lower_key p = ap get_fence_key f.1 in
      let up : upper_key stored ≡ upper_key p = ap get_fence_key f.2 in
      record {
        heads = stored_heads p pos key payload o.heads;
        bytes =
            subst ByteKeys (sym e)
              (All-insert_at (λ x. AreBytes x.0) pos (key, payload) (entries p) hk o.bytes);
        sorted = subst Sorted (sym e) (Sorted-insert_at (entries p) o.sorted pos key payload at);
        between =
            subst (λ l. AllBetweenKeys l (upper_key stored) (entries stored)) (sym lo)
              (subst (λ u. AllBetweenKeys (lower_key p) u (entries stored)) (sym up)
                (subst (λ r. AllBetweenKeys (lower_key p) (upper_key p) r) (sym e)
                  (All-insert_at (λ x. Between (lower_key p) (upper_key p) x.0) pos (key, payload)
                    (entries p) hb o.between)));
        fenced = IsFenced-frame stored p f o.fenced;
      }

  -- What the record takes of the free space.
  abbrev pub rest_bytes : ℕ
  rest_bytes = length (drop p.prefix_length key) + length payload

  stored-count : count stored ≡ count p + 1
  unfolding store_key_value
  stored-count = length-insert_at pos _ p.slot

  stored-total : heap_total stored.slot ≡ heap_total p.slot + rest_bytes
  unfolding store_key_value
  stored-total = heap_total-insert_at pos _ p.slot

  pub stored-IsPlaced : L.slot_bytes + rest_bytes ≤ free_space L p → IsPlaced L stored
  unfolding free_space
  stored-IsPlaced fits =
      let q = v.placed in
      let f = stored_frame p pos key payload in
      let a = (store_key_value-IsTaken p pos key payload).accounts in
      let lo : lower_key stored ≡ lower_key p = ap get_fence_key f.1 in
      let up : upper_key stored ≡ upper_key p = ap get_fence_key f.2 in
      let fe : fence_bytes stored ≡ fence_bytes p =
        ap (λ l. length (bytes_or_none l) + length (bytes_or_none (upper_key stored))) lo
        ∙ ap (λ l. length (bytes_or_none (lower_key p)) + length (bytes_or_none l)) up in
      let room : L.slot_bytes + rest_bytes + slots_end L (count p) ≤ p.data_offset =
        omega (arith, fits, q.room, q.heap, q.word) in
      let (d, u) = a (omega (arith, stored-total, room)) (omega (arith, q.heap, q.word)) in
      let e : slots_end L (count stored) ≡ slots_end L (count p) + L.slot_bytes =
        ap (slots_end L) stored-count ∙ grind arith in
      record {
        word = q.word;
        header = q.header;
        used = omega (arith, fe, u, q.used, stored-total);
        heap = omega (arith, d, u, q.heap, stored-total);
        room = omega (arith, e, d, room, stored-total);
      }
