-- ===== src/BTree/Contents.antt =====
-- backend/leanstore/storage/btree/BTreeLL.cpp: `lookup` in terms of the records of the tree.
use tree.Prelude.{
  ℕ, zero, suc, ◌≤◌, ◌<◌, ◌≡◌, ◌≢◌, inl, inr, Bool, true, Option, none, some, List, ◌++◌, arith,
  refl, sym, ap, subst, ◌∙◌, ◌==◌, ==→eq, Bool-cases, Ordering,
}
use mathlib.Core.Option
use tree.Node.Bytes.{lex, AreBytes, lex_eq, lex_swap_lt}
use tree.Node.State.{Node, count, full_key}
use tree.Node.Search.{lower_bound}
use tree.Node.Sorted.{Records, All-map}
use tree.Node.Fences.{Above, Between}
use tree.Node.Records.{entry, length-map}
use tree.Node.Valid.{key_of-entries}
use tree.Node.Update.{get_child}
use tree.BTree.Descent.{Pages, find_leaf, lookup, lookup_leaf}
use tree.BTree.Routing.{
  child_lower, child_lower-suc, IsNode, IsTree, position, left_bound, right_bound, step_inner,
  step_leaf, lookup_inner_upper, lookup_inner_child,
}
use tree.BTree.Finding.{find, find-append-missed, find-append-none, find-other, lookup_leaf-find}
use tree.BTree.Bounds.{le_trans, children_records, records, Within, records-Within}

-- The key of a lookup is in none of these records.
above_other :
    (a key : List ℕ) (upper : Option (List ℕ)) (es : Records)
    → lex key a ≢ Ordering.gt
    → Within (some a) upper es
    → find es key ≡ none
above_other a key upper es h w = find-other es key (
    All-map (λ e b g. h (lex_swap_lt a key (sym (ap (λ k. lex a k) (lex_eq e.0 key g)) ∙ b.0))) es
      w)

below_other :
    (a key : List ℕ) (lower : Option (List ℕ)) (es : Records)
    → lex a key ≡ Ordering.lt
    → Within lower (some a) es
    → find es key ≡ none
below_other a key lower es h w =
    find-other es key
      (All-map (λ e b g. b.1 (ap (λ k. lex k a) (lex_eq e.0 key g) ∙ lex_swap_lt a key h)) es w)

module _ (n : Node) {leaf : Bool} {lower upper : Option (List ℕ)} (v : IsNode n leaf lower upper)
    (key : List ℕ) (hk : AreBytes key) (between : Between lower upper key) (below : ℕ → Records)
    (each : (i : ℕ)
      → i < count n
      → Within (child_lower n lower i) (some (full_key n i)) (below (get_child n i))) where
  abbrev pos : ℕ
  pos = (lower_bound n key).0

  ascending : (i j : ℕ) → i < j → j < count n → lex (full_key n i) (full_key n j) ≡ Ordering.lt
  ascending i j h k =
      rw (← key_of-entries n i (omega arith), ← key_of-entries n j k)
        (v.ordered.sorted i j h (omega (arith, length-map (entry n) n.slot)))

  separator_le : (j : ℕ) → pos ≤ j → j < count n → lex key (full_key n j) ≢ Ordering.gt
  separator_le j h k = elim (Bool-cases (pos == j)) [
    | inl e ↦
        subst (λ i. lex key (full_key n i) ≢ Ordering.gt) (==→eq pos j e)
          (right_bound n v key hk between (ground (arith, e)))
    | inr e ↦
        le_trans key (full_key n pos) (full_key n j) (right_bound n v key hk between (omega arith))
          (λ g. cc (g, ascending pos j (ground (arith, e)) k))
  ]

  missed_after :
      (i : ℕ) (upper' : Option (List ℕ)) (es : Records)
      → pos < i
      → i ≤ count n
      → Within (child_lower n lower i) upper' es
      → find es key ≡ none
  missed_after zero upper' es h k w = absurd (omega arith)
  missed_after (suc j) upper' es h k w =
      above_other (full_key n j) key upper' es (separator_le j (omega arith) k)
        (subst (λ l. Within l upper' es) (child_lower-suc n lower j) w)

  missed_before : (i : ℕ) → i < pos → i < count n → find (below (get_child n i)) key ≡ none
  missed_before i h k =
      below_other (full_key n i) key (child_lower n lower i) (below (get_child n i))
        ((position n v key hk between).below i h) (each i k)

  find_before : (k : ℕ) → k ≤ pos → k ≤ count n → find (children_records below n k) key ≡ none
  unfolding children_records find
  find_before zero h g = refl
  find_before (suc k) h g =
      find-append-missed (children_records below n k) (below (get_child n k)) key
        (find_before k (omega arith) (omega arith))
      ∙ missed_before k h g

  find_from :
      (k : ℕ)
      → pos < k
      → k ≤ count n
      → find (children_records below n k) key ≡ find (below (get_child n pos)) key
  unfolding children_records
  find_from zero h g = absurd (omega arith)
  find_from (suc k) h g = elim (Bool-cases (pos == k)) [
    | inl e ↦
        find-append-missed (children_records below n k) (below (get_child n k)) key
          (find_before k (ground (arith, e)) (omega arith))
        ∙ ap (λ i. find (below (get_child n i)) key) (sym (==→eq pos k e))
    | inr e ↦
        find-append-none (children_records below n k) (below (get_child n k)) key (
          missed_after k (some (full_key n k)) (below (get_child n k)) (ground (arith, e))
            (omega arith) (each k g))
        ∙ find_from k (ground (arith, e)) (omega arith)
  ]

  find_in_last :
      (es : Records)
      → pos ≡ count n
      → find (children_records below n (count n) ++ es) key ≡ find es key
  find_in_last es e =
      find-append-missed (children_records below n (count n)) es key
        (find_before (count n) (omega arith) (omega arith))

  find_in_child :
      (es : Records)
      → pos < count n
      → Within (child_lower n lower (count n)) upper es
      → find (children_records below n (count n) ++ es) key ≡ find (below (get_child n pos)) key
  find_in_child es h w =
      find-append-none (children_records below n (count n)) es key
        (missed_after (count n) upper es h (omega arith) w)
      ∙ find_from (count n) h (omega arith)

lookup_step :
    (pages : Pages) (fuel swip next : ℕ) (key : List ℕ)
    → find_leaf pages (suc fuel) swip key ≡ find_leaf pages fuel next key
    → lookup pages (suc fuel) swip key ≡ lookup pages fuel next key
unfolding lookup
lookup_step pages fuel swip next key e = ap (λ r. Option.map (λ leaf. lookup_leaf leaf key) r) e

lookup_last :
    (pages : Pages) (extra swip : ℕ) (key : List ℕ)
    → (pages swip).is_leaf ≡ true
    → lookup pages (suc extra) swip key ≡ some (lookup_leaf (pages swip) key)
unfolding lookup
lookup_last pages extra swip key e =
    ap (λ r. Option.map (λ leaf. lookup_leaf leaf key) r) (step_leaf pages extra swip key e)

-- In a tree of pages, `lookup` of a key between the fences of the root returns, with any fuel above
-- the height of the tree, what the list of all the records of its leaves holds for the key: the payload,
-- or nothing.
pub lookup-find :
    (pages : Pages) (fuel height swip : ℕ) (lower upper : Option (List ℕ)) (key : List ℕ)
    → height < fuel
    → IsTree pages height swip lower upper
    → AreBytes key
    → Between lower upper key
    → lookup pages fuel swip key ≡ some (find (records pages height swip) key)
unfolding records
lookup-find pages zero height swip lower upper key less t hk hb = absurd (omega arith)
lookup-find pages (suc fuel) zero swip lower upper key less v hk hb =
    lookup_last pages fuel swip key v.kind
    ∙ ap some (lookup_leaf-find (pages swip) key v.ordered v.hints hk)
lookup-find pages (suc fuel) (suc height) swip lower upper key less (v, children, last) hk hb =
    let n = pages swip in
    let at = (lower_bound n key).0 in
    let each : ((i : ℕ)
        → i < count n
        → Within (child_lower n lower i) (some (full_key n i))
            (records pages height (get_child n i))) =
      λ i h.
        records-Within pages height (get_child n i) (child_lower n lower i) (some (full_key n i))
          (children i h) in
    elim (Bool-cases (at == count n)) [
      | inl e ↦
          let same : at ≡ count n = ==→eq at (count n) e in
          lookup_step pages fuel swip n.upper key (
            step_inner pages fuel swip key v.kind
            ∙ ap (λ w. find_leaf pages fuel w key) (lookup_inner_upper n key e))
          ∙ lookup-find pages fuel height n.upper (child_lower n lower (count n)) upper key
              (omega arith) last hk
              (
                subst (λ i. Above (child_lower n lower i) key) same
                    (left_bound n v key hk hb at (omega arith)),
                hb.1,
              )
          ∙ ap some (
              sym (
                find_in_last n v key hk hb (records pages height) each
                  (records pages height n.upper) same))
      | inr e ↦
          let p = position n v key hk hb in
          let inside_node : at < count n = ground (arith, p.within) in
          lookup_step pages fuel swip (get_child n at) key (
            step_inner pages fuel swip key v.kind
            ∙ ap (λ w. find_leaf pages fuel w key) (lookup_inner_child n key e))
          ∙ lookup-find pages fuel height (get_child n at) (child_lower n lower at)
              (some (full_key n at)) key (omega arith) (children at inside_node) hk
              (left_bound n v key hk hb at (omega arith), right_bound n v key hk hb inside_node)
          ∙ ap some (
              sym (
                find_in_child n v key hk hb (records pages height) each
                  (records pages height n.upper) inside_node
                  (records-Within pages height n.upper (child_lower n lower (count n)) upper last)))
    ]
