-- ===== src/BTree/Bounds.antt =====
-- backend/leanstore/storage/btree/core/BTreeGeneric.hpp: the records below a page, and that their keys lie
-- between its fences.
use tree.Prelude.{
  ℕ, zero, suc, ◌≤◌, ◌<◌, ◌≡◌, ◌≢◌, Bool, Option, none, some, List, [], ◌++◌, arith, subst,
  Ordering,
}
use tree.Node.Bytes.{lex, lex_eq, lex_lt_trans, lex_swap, lex_swap_lt}
use tree.Node.State.{Node, count, full_key}
use tree.Node.Sorted.{Records, All, All-map, All-append, All-get_or}
use tree.Node.Records.{entry, entries, length-map}
use tree.Node.Fences.{lower_key, Above, NotAbove, Between}
use tree.Node.Valid.{key_of-entries}
use tree.Node.Update.{get_child}
use tree.BTree.Descent.{Pages}
use tree.BTree.Routing.{child_lower, child_lower-suc, IsNode, IsTree}

-- The records of the first `k` children, in their order.
unfoldable pub children_records : (ℕ → Records) → Node → ℕ → Records
children_records below n zero = []
children_records below n (suc k) = children_records below n k ++ below (get_child n k)

-- The records of a tree of this height, from the leftmost leaf to the rightmost one.
unfoldable pub records : Pages → ℕ → ℕ → Records
records pages zero swip = entries (pages swip)
records pages (suc height) swip =
    children_records (records pages height) (pages swip) (count (pages swip))
    ++ records pages height (pages swip).upper

-- All the keys of these records lie between the fences.
abbrev pub Within : Option (List ℕ) → Option (List ℕ) → Records → Type 0
Within lower upper es = All (λ e. Between lower upper e.0) es

Above-trans :
    (lower : Option (List ℕ)) (a key : List ℕ)
    → Above lower a
    → lex a key ≡ Ordering.lt
    → Above lower key
Above-trans none a key h k = tt
Above-trans (some l) a key h k = lex_lt_trans l a key h k

pub le_trans :
    (a b c : List ℕ) → lex a b ≢ Ordering.gt → lex b c ≢ Ordering.gt → lex a c ≢ Ordering.gt
le_trans a b c h k g =
    ground
      (arith, lex_swap a c g, lex_lt_trans c a b, lex_eq a b, lex_swap_lt c b, lex_swap b c, h, k)

NotAbove-trans :
    (upper : Option (List ℕ)) (b key : List ℕ)
    → NotAbove upper b
    → lex key b ≢ Ordering.gt
    → NotAbove upper key
NotAbove-trans none b key h k = tt
NotAbove-trans (some u) b key h k = le_trans key b u k h

module _ (n : Node) {leaf : Bool} {lower upper : Option (List ℕ)}
    (v : IsNode n leaf lower upper) where
  pub entries-Within : Within lower upper (entries n)
  entries-Within =
      subst (λ l. Within l upper (entries n)) v.lower_is
        (subst (λ u. Within (lower_key n) u (entries n)) v.upper_is v.ordered.between)

  key-Between : (i : ℕ) → i < count n → Between lower upper (full_key n i)
  key-Between i h =
      subst (λ k. Between lower upper k) (key_of-entries n i h)
        (All-get_or (λ e. Between lower upper e.0) (entries n) i ([], []) entries-Within
          (omega (arith, length-map (entry n) n.slot)))

  Above-child :
      (i : ℕ) (key : List ℕ) → i ≤ count n → Above (child_lower n lower i) key → Above lower key
  Above-child zero key h a = a
  Above-child (suc i) key h a =
      Above-trans lower (full_key n i) key (key-Between i h).0
        (subst (λ l. Above l key) (child_lower-suc n lower i) a)

  Within-child :
      (i : ℕ) (es : Records)
      → i < count n
      → Within (child_lower n lower i) (some (full_key n i)) es
      → Within lower upper es
  Within-child i es h w =
      All-map
        (λ e b. (
          Above-child i e.0 (omega arith) b.0,
          NotAbove-trans upper (full_key n i) e.0 (key-Between i h).1 b.1,
        ))
        es w

  pub Within-children :
      (below : ℕ → Records)
      → ((i : ℕ)
          → i < count n
          → Within (child_lower n lower i) (some (full_key n i)) (below (get_child n i)))
      → (k : ℕ) → k ≤ count n
      → Within lower upper (children_records below n k)
  unfolding children_records
  Within-children below each zero h = tt
  Within-children below each (suc k) h =
      All-append (λ e. Between lower upper e.0) (children_records below n k) (below (get_child n k))
        (Within-children below each k (omega arith))
        (Within-child k (below (get_child n k)) h (each k h))

  pub Within-last :
      (es : Records) → Within (child_lower n lower (count n)) upper es → Within lower upper es
  Within-last es w = All-map (λ e b. (Above-child (count n) e.0 (omega arith) b.0, b.1)) es w

-- The keys of the records of a tree lie between the fences of its root.
pub records-Within :
    (pages : Pages) (height swip : ℕ) (lower upper : Option (List ℕ))
    → IsTree pages height swip lower upper
    → Within lower upper (records pages height swip)
unfolding records
records-Within pages zero swip lower upper v = entries-Within (pages swip) v
records-Within pages (suc height) swip lower upper (v, each, last) =
    let n = pages swip in
    All-append (λ e. Between lower upper e.0) (children_records (records pages height) n (count n))
      (records pages height n.upper)
      (Within-children n v (records pages height)
        (λ i h.
          records-Within pages height (get_child n i) (child_lower n lower i) (some (full_key n i))
            (each i h))
        (count n) (omega arith))
      (Within-last n v (records pages height n.upper)
        (records-Within pages height n.upper (child_lower n lower (count n)) upper last))
