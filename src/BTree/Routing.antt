-- ===== src/BTree/Routing.antt =====
-- backend/leanstore/storage/btree/core/BTreeGeneric.hpp: the descent reaches the leaf of the key.
use tree.Prelude.{
  ℕ, zero, suc, ◌<◌, ◌-◌, ◌≤◌, ◌<◌, ◌≡◌, Bool, true, false, Option, some, List, arith, refl, sym,
  ap, subst, ◌∙◌, ◌==◌, if◌then◌else◌, if_true, if_false, ==→eq, Bool-cases, inl, inr,
}
use tree.Node.Bytes.{lex, AreBytes, lex_refl}
use tree.Node.State.{Node, count, full_key}
use tree.Node.Search.{lower_bound}
use tree.Node.Position.{IsPosition}
use tree.Node.LowerBound.{lower_bound-IsPosition}
use tree.Node.Hints.{HintsMatch}
use tree.Node.Fences.{lower_key, upper_key, Above, NotAbove, Between}
use tree.Node.Valid.{IsOrdered, IsOrdered-IsSearchable}
use tree.Node.Update.{get_child, lookup_inner, inside, compare_key_with_boundaries}
use tree.Node.Boundaries.{compare_key_with_boundaries-Between}
use tree.BTree.Descent.{Pages, find_leaf}

-- The keys of child `i` are above the key before it, or above the lower fence for the first child.
abbrev pub child_lower : Node → Option (List ℕ) → ℕ → Option (List ℕ)
child_lower n lower i = if i == 0 then lower else some (full_key n (i - 1))

-- A node in order between these fences.
pub record IsNode (n : Node) (leaf : Bool) (lower upper : Option (List ℕ)) : Type 0 where
  pub kind : n.is_leaf ≡ leaf
  pub ordered : IsOrdered n
  pub hints : HintsMatch n
  pub lower_is : lower_key n ≡ lower
  pub upper_is : upper_key n ≡ upper

-- The pages below a swip are a tree of this height between the fences: every child lies between the keys
-- on its two sides.
abbrev pub IsTree : Pages → ℕ → ℕ → Option (List ℕ) → Option (List ℕ) → Type 0
IsTree pages zero swip lower upper = IsNode (pages swip) true lower upper
IsTree pages (suc height) swip lower upper =
    IsNode (pages swip) false lower upper
    × ((i : ℕ)
        → i < count (pages swip)
        → IsTree pages height (get_child (pages swip) i) (child_lower (pages swip) lower i)
            (some (full_key (pages swip) i)))
    × IsTree pages height (pages swip).upper (child_lower (pages swip) lower (count (pages swip)))
        upper

pub child_lower-suc :
    (n : Node) (lower : Option (List ℕ)) (i : ℕ) → child_lower n lower (suc i) ≡ some (full_key n i)
child_lower-suc n lower i =
    if_false (suc i == 0) lower _ (ground arith) ∙ ap (λ j. some (full_key n j)) (omega arith)

module _ (n : Node) {leaf : Bool} {lower upper : Option (List ℕ)} (v : IsNode n leaf lower upper)
    (key : List ℕ) (hk : AreBytes key) (between : Between lower upper key) where
  pub position : IsPosition (full_key n) (count n) key (lower_bound n key)
  position = lower_bound-IsPosition n (IsOrdered-IsSearchable n v.ordered v.hints) key hk

  pub left_bound : (i : ℕ) → i ≤ (lower_bound n key).0 → Above (child_lower n lower i) key
  left_bound zero h = between.0
  left_bound (suc i) h =
      subst (λ l. Above l key) (sym (child_lower-suc n lower i)) (position.below i h)

  pub right_bound :
      (lower_bound n key).0 < count n → NotAbove (some (full_key n (lower_bound n key).0)) key
  right_bound h g = elim (Bool-cases (lower_bound n key).1) [
    | inl e ↦ cc (ap (lex key) (position.equal e).1, lex_refl key, g)
    | inr e ↦ cc (position.above (lower_bound n key).0 (omega arith) h e, g)
  ]

-- The leaf that the descent reaches.
abbrev pub Reaches : Pages → ℕ → ℕ → List ℕ → Node → Type 0
Reaches pages fuel swip key leaf =
    (find_leaf pages fuel swip key ≡ some leaf)
    × (leaf.is_leaf ≡ true)
    × IsOrdered leaf
    × HintsMatch leaf
    × (compare_key_with_boundaries leaf key ≡ inside)

pub lookup_inner_upper :
    (n : Node) (key : List ℕ)
    → ((lower_bound n key).0 == count n) ≡ true
    → lookup_inner n key ≡ n.upper
unfolding lookup_inner
lookup_inner_upper n key e = if_true ((lower_bound n key).0 == count n) n.upper _ e

pub lookup_inner_child :
    (n : Node) (key : List ℕ)
    → ((lower_bound n key).0 == count n) ≡ false
    → lookup_inner n key ≡ get_child n (lower_bound n key).0
unfolding lookup_inner
lookup_inner_child n key e = if_false ((lower_bound n key).0 == count n) n.upper _ e

elim_true : {A : Type 0} → (b : Bool) (x y : A) → b ≡ true → (elim b [ true ↦ x | false ↦ y ]) ≡ x
elim_true true x y e = refl
elim_true false x y e = cc e

elim_false : {A : Type 0} → (b : Bool) (x y : A) → b ≡ false → (elim b [ true ↦ x | false ↦ y ]) ≡ y
elim_false true x y e = cc e
elim_false false x y e = refl

pub step_inner :
    (pages : Pages) (fuel swip : ℕ) (key : List ℕ)
    → (pages swip).is_leaf ≡ false
    → find_leaf pages (suc fuel) swip key ≡ find_leaf pages fuel (lookup_inner (pages swip) key) key
unfolding find_leaf
step_inner pages fuel swip key e =
    elim_false (pages swip).is_leaf (some (pages swip))
      (find_leaf pages fuel (lookup_inner (pages swip) key) key) e

pub step_leaf :
    (pages : Pages) (fuel swip : ℕ) (key : List ℕ)
    → (pages swip).is_leaf ≡ true
    → find_leaf pages (suc fuel) swip key ≡ some (pages swip)
unfolding find_leaf
step_leaf pages fuel swip key e =
    elim_true (pages swip).is_leaf (some (pages swip))
      (find_leaf pages fuel (lookup_inner (pages swip) key) key) e

-- What is reached from the next page is reached from this one, in a step more.
pub through :
    (pages : Pages) (fuel swip next : ℕ) (key : List ℕ)
    → find_leaf pages (suc fuel) swip key ≡ find_leaf pages fuel next key
    → (leaf : Node) × Reaches pages fuel next key leaf
    → (leaf : Node) × Reaches pages (suc fuel) swip key leaf
through pages fuel swip next key e (leaf, (found, kind, ordered, hints, in_leaf)) =
    (leaf, (e ∙ found, kind, ordered, hints, in_leaf))

-- In a tree of pages, the descent for a key between the fences of the root ends with any
-- fuel above the height of the tree, in a leaf whose fences have the key between them: the check of `lookup` by
-- `compareKeyWithBoundaries` passes.
pub find_leaf_lem :
    (pages : Pages) (fuel height swip : ℕ) (lower upper : Option (List ℕ)) (key : List ℕ)
    → height < fuel
    → IsTree pages height swip lower upper
    → AreBytes key
    → Between lower upper key
    → (leaf : Node) × Reaches pages fuel swip key leaf
find_leaf_lem pages zero height swip lower upper key less t hk hb = absurd (omega arith)
find_leaf_lem pages (suc fuel) zero swip lower upper key less t hk hb =
    let hb' =
      subst (λ l. Between l (upper_key (pages swip)) key) (sym t.lower_is)
        (subst (λ u. Between lower u key) (sym t.upper_is) hb) in
    (
      pages swip,
      (
        step_leaf pages fuel swip key t.kind,
        t.kind,
        t.ordered,
        t.hints,
        (compare_key_with_boundaries-Between (pages swip) key).1 hb',
      ),
    )
find_leaf_lem pages (suc fuel) (suc height) swip lower upper key less (v, children, last) hk hb =
    let n = pages swip in
    let pos = (lower_bound n key).0 in
    let p = position n v key hk hb in
    elim (Bool-cases (pos == count n)) [
      | inl e ↦
          through pages fuel swip n.upper key
            (step_inner pages fuel swip key v.kind
              ∙ ap (λ w. find_leaf pages fuel w key) (lookup_inner_upper n key e))
            (find_leaf_lem pages fuel height n.upper (child_lower n lower (count n)) upper key
              (omega arith) last hk
              (
                subst (λ i. Above (child_lower n lower i) key) (==→eq pos (count n) e)
                    (left_bound n v key hk hb pos (omega arith)),
                hb.1,
              ))
      | inr e ↦
          let inside_node : pos < count n = ground (arith, p.within) in
          through pages fuel swip (get_child n pos) key
            (step_inner pages fuel swip key v.kind
              ∙ ap (λ w. find_leaf pages fuel w key) (lookup_inner_child n key e))
            (find_leaf_lem pages fuel height (get_child n pos) (child_lower n lower pos)
              (some (full_key n pos)) key (omega arith) (children pos inside_node) hk
              (left_bound n v key hk hb pos (omega arith), right_bound n v key hk hb inside_node))
    ]
