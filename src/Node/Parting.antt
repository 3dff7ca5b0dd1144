-- ===== src/Node/Parting.antt =====
-- backend/leanstore/storage/btree/core/BTreeNode.cpp: `split`.
use tree.Prelude.{
  ℕ, zero, suc, ◌+◌, ◌-◌, ◌<◌, ◌≡◌, Option, List, [], ◌∷◌, map, refl, sym, ap, subst, ◌∙◌, length,
  take, drop, take_all, length-drop,
}
use tree.Node.Bytes.{AreBytes, head}
use tree.Node.State.{Layout, Node}
use tree.Node.Store.{bytes_or_none, fenced_node, copy_key_value_range, make_hint}
use tree.Node.Hints.{HintsMatch}
use tree.Node.Sorted.{Records, Sorted-take, Sorted-drop, All, All-take, All-drop}
use tree.Node.Fences.{lower_key, upper_key, Between, IsFenced-prefix_fits}
use tree.Node.Records.{entry, entries}
use tree.Node.Valid.{IsOrdered}
use tree.Node.Filled.{
  IsFilled, fenced_node-IsFilled, copied-IsFilled, make_hint-IsFilled, IsFilled-IsOrdered,
}
use tree.Node.Compaction.{make_hint-HintsMatch}

map-take : {A B : Type 0} (f : A → B) (k : ℕ) (xs : List A) → map f (take k xs) ≡ take k (map f xs)
map-take f zero xs = refl
map-take f (suc k) [] = refl
map-take f (suc k) (x ∷ xs) = ap (λ r. f x ∷ r) (map-take f k xs)

map-drop : {A B : Type 0} (f : A → B) (k : ℕ) (xs : List A) → map f (drop k xs) ≡ drop k (map f xs)
map-drop f zero xs = refl
map-drop f (suc k) [] = refl
map-drop f (suc k) (x ∷ xs) = map-drop f k xs

pub All-both :
    {A : Type 0} (P Q : A → Type 0) (xs : List A) → All P xs → All Q xs → All (λ x. P x × Q x) xs
All-both P Q [] h k = tt
All-both P Q (x ∷ xs) h k = ((h.0, k.0), All-both P Q xs h.1 k.1)

pub take_rest : {A : Type 0} (k : ℕ) (xs : List A) → take (length xs - k) (drop k xs) ≡ drop k xs
take_rest k xs = ap (λ m. take m (drop k xs)) (sym (length-drop k xs)) ∙ take_all (drop k xs)

-- A node in which records of another lie between new fences.
pub record IsPart (m : Node) (lower upper : Option (List ℕ)) (es : Records) : Type 0 where
  pub lower_is : lower_key m ≡ lower
  pub upper_is : upper_key m ≡ upper
  pub records : entries m ≡ es
  pub ordered : IsOrdered m
  pub hints : HintsMatch m

module _ (L : Layout) (small : L.page_bytes < 65536) (n : Node) (o : IsOrdered n) where
  -- A range of the node, copied between other fences and with hints.
  pub part :
      (lower upper : Option (List ℕ)) (first number child : ℕ)
      → length (bytes_or_none lower) + length (bytes_or_none upper) < L.page_bytes
      → All (λ e. Between lower upper e.0) (take number (drop first (entries n)))
      → IsPart
          (make_hint
            (record (copy_key_value_range n (fenced_node L n.is_leaf lower upper) first number) {
              upper = child;
            }))
          lower
          upper
          (take number (drop first (entries n)))
  part lower upper first number child room hb =
      let range = take number (drop first n.slot) in
      let es = take number (drop first (entries n)) in
      let e : map (entry n) range ≡ es =
        map-take (entry n) number (drop first n.slot)
        ∙ ap (take number) (map-drop (entry n) first n.slot) in
      let c = copy_key_value_range n (fenced_node L n.is_leaf lower upper) first number in
      let f =
        subst (λ r. IsFilled L c lower upper r) e
          (copied-IsFilled L lower upper small n (fenced_node L n.is_leaf lower upper) [] first
            number (fenced_node-IsFilled L lower upper small n.is_leaf room)
            (IsFenced-prefix_fits n o.fenced)
            (All-take (λ s. s.head ≡ head s.key) number (drop first n.slot)
              (All-drop (λ s. s.head ≡ head s.key) first n.slot o.heads))
            (subst (λ r. All (λ x. Between lower upper x.0) r) (sym e) hb)) in
      let g = make_hint-IsFilled L lower upper small c es child f in
      record {
        lower_is = g.lower_is;
        upper_is = g.upper_is;
        records = g.records;
        ordered =
            IsFilled-IsOrdered L _ lower upper es g
              (All-take (λ x. AreBytes x.0) number (drop first (entries n))
                (All-drop (λ x. AreBytes x.0) first (entries n) o.bytes))
              (Sorted-take (drop first (entries n)) (Sorted-drop (entries n) o.sorted first)
                number);
        hints = make_hint-HintsMatch _;
      }
