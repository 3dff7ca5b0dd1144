-- ===== src/Node/LowerBound.antt =====
-- backend/leanstore/storage/btree/core/BTreeNode.hpp: `lowerBound` is the search of the whole keys.
use tree.Prelude.{
  some, none, [], ◌∷◌, ℕ, zero, suc, ◌<◌, ◌≡◌, inl, inr, Bool, List, ◌++◌, arith, sym, subst,
  length, length-take, take, drop, Ordering, if◌then◌else◌,
}
use tree.Node.Bytes.{
  lex, AreBytes, cmp_keys-lex, lex_swap, lex_swap_lt, lex_eq, lex_refl, lex-prefix,
}
use tree.Node.State.{Node, count, slot_at, prefix, full_key}
use tree.Node.Search.{search_slots, lower_bound, lower_bound_exact}
use tree.Node.Position.{IsSearchable, IsPosition, Ordering-cases}
use tree.Node.Searching.{search_slots_rest}

pub AreBytes-drop : (k : ℕ) (xs : List ℕ) → AreBytes xs → AreBytes (drop k xs)
AreBytes-drop zero xs h = h
AreBytes-drop (suc k) [] h = h
AreBytes-drop (suc k) (x ∷ xs) h = AreBytes-drop k xs h.1

short_prefix :
    (key p : List ℕ) → length key < length p → lex (take (length p) key) p ≡ Ordering.eq → ⊥
unfolding lex
short_prefix key [] h e = omega arith
short_prefix [] (x ∷ p) h e = cc
short_prefix (y ∷ key) (x ∷ p) h e = ground (arith, short_prefix key p)

short_prefix_at :
    (key p : List ℕ) (m : ℕ) → length p ≡ m → length key < m → lex (take m key) p ≡ Ordering.eq → ⊥
short_prefix_at key p m e = rw (← e) (short_prefix key p)

lex-prefix_at :
    (key p k : List ℕ) (m : ℕ)
    → length p ≡ m
    → lex key (p ++ k) ≡ elim (lex (take m key) p) [
      | Ordering.eq ↦ lex (drop m key) k
      | Ordering.lt ↦ Ordering.lt
      | Ordering.gt ↦ Ordering.gt
    ]
lex-prefix_at key p k m e =
    subst
      (λ m. lex key (p ++ k) ≡ elim (lex (take m key) p) [
        | Ordering.eq ↦ lex (drop m key) k
        | Ordering.lt ↦ Ordering.lt
        | Ordering.gt ↦ Ordering.gt
      ])
      e (lex-prefix key p k)

module _ (n : Node) (s : IsSearchable n) (key : List ℕ) (hk : AreBytes key) where
  prefix_size : length (prefix n) ≡ n.prefix_length
  prefix_size = length-take n.prefix_length n.lower_fence.bytes s.prefix_fits

  full_key_order :
      (i : ℕ)
      → lex key (full_key n i) ≡ elim (lex (take n.prefix_length key) (prefix n)) [
        | Ordering.eq ↦ lex (drop n.prefix_length key) (slot_at n i).key
        | Ordering.lt ↦ Ordering.lt
        | Ordering.gt ↦ Ordering.gt
      ]
  full_key_order i = lex-prefix_at key (prefix n) (slot_at n i).key n.prefix_length prefix_size

  full_key_before :
      lex (take n.prefix_length key) (prefix n) ≡ Ordering.eq
      → (i : ℕ) → lex (slot_at n i).key (drop n.prefix_length key) ≡ Ordering.lt
      → lex (full_key n i) key ≡ Ordering.lt
  full_key_before e i h = ground (
    arith,
    full_key_order i,
    lex_swap key (full_key n i),
    lex_swap_lt (slot_at n i).key (drop n.prefix_length key),
  )

  IsPosition-full :
      lex (take n.prefix_length key) (prefix n) ≡ Ordering.eq
      → (r : ℕ × Bool) → IsPosition (λ i. (slot_at n i).key) (count n) (drop n.prefix_length key) r
      → IsPosition (full_key n) (count n) key r
  IsPosition-full e r p = record {
    within = p.within;
    below = λ i h. full_key_before e i (p.below i h);
    above = λ i a b c. ground (arith, full_key_order i, p.above i a b c);
    equal = λ h. (
      (p.equal h).0,
      sym (
          lex_eq key (full_key n r.0)
            (ground (arith, full_key_order r.0, p.equal h, lex_refl (drop n.prefix_length key)))),
    );
  }

  search_slots-IsPosition :
      lex (take n.prefix_length key) (prefix n) ≡ Ordering.eq
      → IsPosition (full_key n) (count n) key (search_slots n key)
  unfolding search_slots
  search_slots-IsPosition e =
      let rest : List ℕ = drop n.prefix_length key in
      let hr = AreBytes-drop n.prefix_length key hk in
      IsPosition-full e _ (search_slots_rest n s rest hr)

  -- On a node whose slots ascend, with heads and hints that are theirs, `lowerBound` returns the number
  -- of keys that are less than the given one, and `is_equal` tells exactly whether the key there is the given one.
  pub lower_bound-IsPosition : IsPosition (full_key n) (count n) key (lower_bound n key)
  unfolding lower_bound
  lower_bound-IsPosition = elim (Ordering-cases (lex (take n.prefix_length key) (prefix n))) [
    | inl e ↦
        rw (cmp_keys-lex (take n.prefix_length key) (prefix n), e, lower_bound)
          (record {
            within = omega arith;
            below = λ i p. absurd (omega arith);
            above = λ i p q r. ground (arith, full_key_order i);
            equal = λ r. cc;
          })
    | inr (inl e) ↦
        rw (cmp_keys-lex (take n.prefix_length key) (prefix n), e, lower_bound)
          (search_slots-IsPosition e)
    | inr (inr e) ↦
        rw (cmp_keys-lex (take n.prefix_length key) (prefix n), e, lower_bound)
          (record {
            within = omega arith;
            below = λ i p. ground (arith, full_key_order i, lex_swap key (full_key n i));
            above = λ i p q r. absurd (omega arith);
            equal = λ r. cc;
          })
  ]

  too_short :
      length key < n.prefix_length → lex (take n.prefix_length key) (prefix n) ≡ Ordering.eq → ⊥
  too_short h e = short_prefix_at key (prefix n) n.prefix_length prefix_size h e

  pub lower_bound_exact-lower_bound :
      lower_bound_exact n key ≡ (if (lower_bound n key).1 then some (lower_bound n key).0 else none)
  unfolding lower_bound_exact lower_bound
  lower_bound_exact-lower_bound =
      ground (arith, cmp_keys-lex (take n.prefix_length key) (prefix n), prefix_size, too_short)
