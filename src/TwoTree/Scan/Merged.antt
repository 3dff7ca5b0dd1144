-- ===== src/TwoTree/Scan/Merged.antt =====
-- backend/twotree/ConcurrentTwoBTree.hpp: what a scan hands over, told without buffers, and the loop of
-- `scan` while both buffers have entries.
use tree.Prelude.{
  either, ℕ, ◌≡◌, Bool, true, false, not, ◌&&◌, ◌||◌, Option, none, some, List, [], ◌∷◌, ◌++◌, leb,
  arith, refl, sym, ap, ◌∙◌,
}
use tree.TwoTree.Scan.{Buffer, is_nil, Walk, ended, going, merge_buffers}

pub nil_of : {A : Type 0} → (xs : List A) → is_nil xs ≡ true → xs ≡ []
nil_of [] e = refl
nil_of (x ∷ xs) e = cc

module _ {P : Type 0} where
  -- The entries of both lists by their keys, the first list's entry first where the keys are equal.
  unfoldable pub merge : List (ℕ × P) → List (ℕ × P) → List (ℕ × P)
  merge [] cold = cold
  merge (x ∷ hot) [] = x ∷ hot
  merge (x ∷ hot) (y ∷ cold) = elim (leb x.0 y.0) [
    | true ↦ x ∷ merge hot (y ∷ cold)
    | false ↦ y ∷ merge (x ∷ hot) cold
  ]

  pub merge-nil : (hot : List (ℕ × P)) → merge hot [] ≡ hot
  unfolding merge
  merge-nil [] = refl
  merge-nil (x ∷ hot) = refl

  pub merge_hot :
      (x y : ℕ × P) (hot cold : List (ℕ × P))
      → leb x.0 y.0 ≡ true
      → merge (x ∷ hot) (y ∷ cold) ≡ x ∷ merge hot (y ∷ cold)
  unfolding merge
  merge_hot x y hot cold e = ground (arith, e)

  pub merge_cold :
      (x y : ℕ × P) (hot cold : List (ℕ × P))
      → leb x.0 y.0 ≡ false
      → merge (x ∷ hot) (y ∷ cold) ≡ y ∷ merge (x ∷ hot) cold
  unfolding merge
  merge_cold x y hot cold e = ground (arith, e)

  -- The key of the last entry of a buffer.
  abbrev pub last_of : List (ℕ × P) → List (ℕ × P) → Option ℕ
  last_of [] [] = none
  last_of (x ∷ consumed) [] = some x.0
  last_of consumed (x ∷ rest) = last_of (x ∷ consumed) rest

  abbrev pub last_key : Buffer P → Option ℕ
  last_key b = last_of b.consumed b.rest

  -- How far a round has come: one buffer is consumed; so is the first one if the second is at its end;
  -- a buffer is to be refilled, or both are consumed.
  abbrev pub one_consumed : Buffer P → Buffer P → Bool
  one_consumed h c = is_nil h.rest || is_nil c.rest

  abbrev pub hot_drained : Buffer P → Buffer P → Bool
  hot_drained h c = one_consumed h c && (not (is_nil c.rest && c.tree_end) || is_nil h.rest)

  abbrev pub to_refill : Buffer P → Buffer P → Bool
  to_refill h c =
      (is_nil h.rest && not h.tree_end)
      || (is_nil c.rest && not c.tree_end)
      || (is_nil h.rest && is_nil c.rest)

  -- Entries of the buffer may have been consumed.
  abbrev pub Same : Buffer P → Buffer P → Type 0
  Same b' b = (b'.tree_end ≡ b.tree_end) × (last_key b' ≡ last_key b)

  module _ (processor : List (ℕ × P) → Bool) where
    -- The entries of the list one after another, until the processor stops.
    unfoldable pub hand_over : List (ℕ × P) → List (ℕ × P) → List (ℕ × P)
    hand_over trace [] = trace
    hand_over trace (x ∷ l) = elim (processor (x ∷ trace)) [
      | true ↦ x ∷ trace
      | false ↦ hand_over (x ∷ trace) l
    ]

    pub hand_stopped :
        (trace : List (ℕ × P)) (x : ℕ × P) (l : List (ℕ × P))
        → processor (x ∷ trace) ≡ true
        → hand_over trace (x ∷ l) ≡ x ∷ trace
    unfolding hand_over
    hand_stopped trace x l e = ground (arith, e)

    pub hand_on :
        (trace : List (ℕ × P)) (x : ℕ × P) (l : List (ℕ × P))
        → processor (x ∷ trace) ≡ false
        → hand_over trace (x ∷ l) ≡ hand_over (x ∷ trace) l
    unfolding hand_over
    hand_on trace x l e = ground (arith, e)

    -- What is left to hand over of two buffers and of the lists `X` and `Y` after them.
    abbrev pub left :
        List (ℕ × P) → List (ℕ × P) → List (ℕ × P) → Buffer P → Buffer P → List (ℕ × P)
    left X Y trace h c = hand_over trace (merge (h.rest ++ X) (c.rest ++ Y))

    module _ (X Y : List (ℕ × P)) (hot cold : Buffer P) (goal : List (ℕ × P)) where
      -- The part of the loop comes to `goal` in the end.
      abbrev pub On : (Buffer P → Buffer P → Bool) → Walk P (Buffer P × Buffer P) → Type 0
      On far (ended t) = t ≡ goal
      On far (going t (h, c)) =
          (left X Y t h c ≡ goal) × Same h hot × Same c cold × (far h c ≡ true)

      pub merge_buffers-On :
          (t hs h cs c : List (ℕ × P))
          → hand_over t (merge (h ++ X) (c ++ Y)) ≡ goal
          → last_of hs h ≡ last_key hot
          → last_of cs c ≡ last_key cold
          → On one_consumed (merge_buffers processor t hot.tree_end cold.tree_end hs h cs c)
      unfolding merge_buffers
      merge_buffers-On t hs [] cs c e lh lc = (e, (refl, lh), (refl, lc), refl)
      merge_buffers-On t hs (x ∷ h) cs [] e lh lc = (e, (refl, lh), (refl, lc), refl)
      merge_buffers-On t hs (x ∷ h) cs (y ∷ c) e lh lc =
          either (On one_consumed) (leb x.0 y.0) _ _
            (λ a.
              let e' : hand_over t (x ∷ merge (h ++ X) ((y ∷ c) ++ Y)) ≡ goal =
                ap (hand_over t) (sym (merge_hot x y (h ++ X) (c ++ Y) a)) ∙ e in
              either (On one_consumed) (processor (x ∷ t)) _ _
                (λ p. sym (hand_stopped t x _ p) ∙ e')
                (λ p.
                  merge_buffers-On (x ∷ t) (x ∷ hs) h cs (y ∷ c) (sym (hand_on t x _ p) ∙ e') lh
                    lc))
            (λ a.
              let e' : hand_over t (y ∷ merge ((x ∷ h) ++ X) (c ++ Y)) ≡ goal =
                ap (hand_over t) (sym (merge_cold x y (h ++ X) (c ++ Y) a)) ∙ e in
              either (On one_consumed) (processor (y ∷ t)) _ _
                (λ p. sym (hand_stopped t y _ p) ∙ e')
                (λ p.
                  merge_buffers-On (y ∷ t) hs (x ∷ h) (y ∷ cs) c (sym (hand_on t y _ p) ∙ e') lh
                    lc))
