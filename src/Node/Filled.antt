-- ===== src/Node/Filled.antt =====
-- backend/leanstore/storage/btree/core/BTreeNode.cpp: the node that `compactify`, `merge` and `split` fill
-- with records between two fences.
use tree.Prelude.{
  ℕ, ◌+◌, ◌≤◌, ◌<◌, ◌≡◌, Bool, Option, List, [], ◌∷◌, ◌++◌, map, arith, sym, ap, subst, ◌∙◌, length,
  drop, take, insert_at, insert_at_end, take_all,
}
use tree.Node.State.{Layout, Slot, FenceKey, Node, HasPrefix, count, prefix, get_fence_key}
use tree.Node.Store.{
  store_key_value, copy_key_value_range, fenced_node, bytes_or_none, common_bytes, make_hint,
}
use tree.Node.Sorted.{Records, Sorted, All, All-append}
use tree.Node.Fences.{
  IsFenced, fenced_node-HasFences, Between, Between-HasPrefix, IsFenced-prefix_fits, lower_key,
  upper_key,
}
use tree.Node.Records.{
  entry, entries, HeadsMatch, SameFrame, copy_key_value_range-IsCopied, entries-store_key_value,
  stored_frame, stored_heads, length-map,
}
use tree.Node.Valid.{IsOrdered, ByteKeys, heap_total}
use tree.Node.Space.{IsTaken, store_key_value-IsTaken, copy_key_value_range-IsTaken}

-- The node has these fences and these records, and its accounts of the space are right if they fit.
pub record IsFilled (L : Layout) (m : Node) (lower upper : Option (List ℕ)) (es : Records)
    : Type 0 where
  pub lower_is : lower_key m ≡ lower
  pub upper_is : upper_key m ≡ upper
  pub fenced : IsFenced m
  pub records : entries m ≡ es
  pub heads : HeadsMatch m.slot
  pub between : All (λ e. Between lower upper e.0) es
  pub space :
      length (bytes_or_none lower) + length (bytes_or_none upper) + heap_total m.slot ≤ L.page_bytes
      → (m.space_used
          ≡ length (bytes_or_none lower) + length (bytes_or_none upper) + heap_total m.slot)
        × (m.data_offset + m.space_used ≡ L.page_bytes)

pub IsFenced-frame : (m n : Node) → SameFrame m n → IsFenced n → IsFenced m
IsFenced-frame m n f h = record {
  lower_bytes =
      subst (λ (l : FenceKey). l.bytes ≡ bytes_or_none (get_fence_key l)) (sym f.1) h.lower_bytes;
  common =
      f.0
      ∙ h.common
      ∙ sym (
          ap (λ l. common_bytes (bytes_or_none l) (bytes_or_none (upper_key m)))
            (ap get_fence_key f.1)
          ∙ ap (λ u. common_bytes (bytes_or_none (lower_key n)) (bytes_or_none u))
              (ap get_fence_key f.2));
}

module _ (L : Layout) (lower upper : Option (List ℕ)) (small : L.page_bytes < 65536) where
  pub fenced_node-IsFilled :
      (leaf : Bool)
      → length (bytes_or_none lower) + length (bytes_or_none upper) < L.page_bytes
      → IsFilled L (fenced_node L leaf lower upper) lower upper []
  unfolding heap_total
  fenced_node-IsFilled leaf room =
      let f = fenced_node-HasFences L leaf lower upper small room in
      record {
        lower_is = f.lower_is;
        upper_is = f.upper_is;
        fenced = f.fenced;
        records = ap (map (entry (fenced_node L leaf lower upper))) f.empty;
        heads = subst (λ l. HeadsMatch l) (sym f.empty) tt;
        between = tt;
        space = λ h. omega (arith, f.used, f.offset, ap heap_total f.empty);
      }

  filled_prefix :
      (dst : Node) (es : Records)
      → IsFilled L dst lower upper es
      → (key : List ℕ) → Between lower upper key
      → HasPrefix dst key
  filled_prefix dst es d key h = Between-HasPrefix dst key d.fenced (
      subst (λ l. Between l (upper_key dst) key) (sym d.lower_is)
        (subst (λ u. Between lower u key) (sym d.upper_is) h))

  prefixes :
      (dst : Node) {es : Records}
      → IsFilled L dst lower upper es
      → (src : Node) (range : List Slot)
      → All (λ e. Between lower upper e.0) (map (entry src) range)
      → All (λ s. HasPrefix dst (prefix src ++ s.key)) range
  prefixes dst d src [] h = tt
  prefixes dst {es} d src (s ∷ range) h =
      (filled_prefix dst es d (prefix src ++ s.key) h.0, prefixes dst d src range h.1)

  IsFilled-on :
      (dst res : Node) (es more : Records)
      → IsFilled L dst lower upper es
      → SameFrame res dst
      → entries res ≡ es ++ more
      → HeadsMatch res.slot
      → All (λ e. Between lower upper e.0) more
      → IsTaken dst res
      → IsFilled L res lower upper (es ++ more)
  IsFilled-on dst res es more d f r h b t = record {
    lower_is = ap get_fence_key f.1 ∙ d.lower_is;
    upper_is = ap get_fence_key f.2 ∙ d.upper_is;
    fenced = IsFenced-frame res dst f d.fenced;
    records = r;
    heads = h;
    between = All-append (λ e. Between lower upper e.0) es more d.between b;
    space = λ fits.
        let own = d.space (omega (arith, t.grows)) in
        let grown = t.accounts (omega (arith, own)) (omega (arith, own, small)) in
        (omega (arith, own, grown), omega (arith, own, grown));
  }

  -- Copying a range of slots whose records lie between the fences.
  pub copied-IsFilled :
      (src dst : Node) (es : Records) (first number : ℕ)
      → IsFilled L dst lower upper es
      → src.prefix_length ≤ length src.lower_fence.bytes
      → HeadsMatch (take number (drop first src.slot))
      → All (λ e. Between lower upper e.0) (map (entry src) (take number (drop first src.slot)))
      → IsFilled L
          (copy_key_value_range src dst first number)
          lower
          upper
          (es ++ map (entry src) (take number (drop first src.slot)))
  copied-IsFilled src dst es first number d fits hh hb =
      let range = take number (drop first src.slot) in
      let res = copy_key_value_range src dst first number in
      let c =
        copy_key_value_range-IsCopied src dst first number fits (prefixes dst d src range hb) in
      IsFilled-on dst res es (map (entry src) range) d c.frame
        (c.records ∙ ap (λ l. l ++ map (entry src) range) d.records) (c.heads d.heads hh) hb
        (copy_key_value_range-IsTaken src dst first number)

  -- Copying a whole node.
  pub whole-IsFilled :
      (src dst : Node) (es : Records)
      → IsOrdered src
      → IsFilled L dst lower upper es
      → All (λ e. Between lower upper e.0) (entries src)
      → IsFilled L (copy_key_value_range src dst 0 (count src)) lower upper (es ++ entries src)
  whole-IsFilled src dst es o f h =
      let whole : take (count src) src.slot ≡ src.slot = take_all src.slot in
      subst
        (λ r.
          IsFilled L (copy_key_value_range src dst 0 (count src)) lower upper
            (es ++ map (entry src) r))
        whole
        (copied-IsFilled src dst es 0 (count src) f (IsFenced-prefix_fits src o.fenced)
          (subst (λ r. HeadsMatch r) (sym whole) o.heads)
          (subst (λ r. All (λ e. Between lower upper e.0) (map (entry src) r)) (sym whole) h))

  -- Storing one record behind the others.
  pub stored-IsFilled :
      (dst : Node) (es : Records) (key payload : List ℕ)
      → IsFilled L dst lower upper es
      → Between lower upper key
      → IsFilled L
          (store_key_value dst (count dst) key payload)
          lower
          upper
          (es ++ (key, payload) ∷ [])
  stored-IsFilled dst es key payload d hb =
      let e = entries-store_key_value dst (count dst) key payload (filled_prefix dst es d key hb) in
      let at_end =
        ap (λ k. insert_at k (key, payload) (entries dst)) (sym (length-map (entry dst) dst.slot))
        ∙ insert_at_end (key, payload) (entries dst) in
      IsFilled-on dst _ es ((key, payload) ∷ []) d (stored_frame dst (count dst) key payload)
        (e ∙ at_end ∙ ap (λ l. l ++ (key, payload) ∷ []) d.records)
        (stored_heads dst (count dst) key payload d.heads) (hb, tt)
        (store_key_value-IsTaken dst (count dst) key payload)

  -- Hints and the last child are apart from the records.
  pub make_hint-IsFilled :
      (m : Node) (es : Records) (child : ℕ)
      → IsFilled L m lower upper es
      → IsFilled L (make_hint (record m { upper = child })) lower upper es
  unfolding make_hint
  make_hint-IsFilled m es child f = record {
    lower_is = f.lower_is;
    upper_is = f.upper_is;
    fenced = record { lower_bytes = f.fenced.lower_bytes; common = f.fenced.common };
    records = f.records;
    heads = f.heads;
    between = f.between;
    space = f.space;
  }

pub IsFilled-IsOrdered :
    (L : Layout) (m : Node) (lower upper : Option (List ℕ)) (es : Records)
    → IsFilled L m lower upper es
    → ByteKeys es
    → Sorted es
    → IsOrdered m
IsFilled-IsOrdered L m lower upper es f b s = record {
  heads = f.heads;
  bytes = subst ByteKeys (sym f.records) b;
  sorted = subst Sorted (sym f.records) s;
  between =
      subst (λ l. All (λ e. Between l (upper_key m) e.0) (entries m)) (sym f.lower_is)
        (subst (λ u. All (λ e. Between lower u e.0) (entries m)) (sym f.upper_is)
          (subst (λ r. All (λ e. Between lower upper e.0) r) (sym f.records) f.between));
  fenced = f.fenced;
}
