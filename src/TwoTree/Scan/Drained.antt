-- ===== src/TwoTree/Scan/Drained.antt =====
-- backend/twotree/ConcurrentTwoBTree.hpp: draining a buffer, and a round of the loop of `scan` up to its
-- refills.
use tree.Prelude.{
  ℕ, ◌≡◌, Bool, true, false, not, ◌&&◌, Option, List, [], ◌∷◌, ◌++◌, arith, refl, sym, ap, ◌∙◌,
  either, either_if,
}
use tree.TwoTree.Scan.{Buffer, is_nil, Walk, ended, going, and_then, drain, drain_after, walk}
use tree.TwoTree.Scan.Merged.{
  nil_of, last_of, last_key, Same, merge, merge-nil, hand_over, hand_stopped, hand_on, left, On,
  one_consumed, hot_drained, to_refill, merge_buffers-On,
}

all_three : (a b c : Bool) → (not a && b && c) ≡ true → (a ≡ false) × (b ≡ true) × (c ≡ true)
all_three a b c e = ground arith

module _ {P : Type 0} (processor : List (ℕ × P) → Bool) where
  module _ (X : List (ℕ × P)) (last : Option ℕ) (goal : List (ℕ × P)) where
    abbrev Drained : Walk P (List (ℕ × P)) → Type 0
    Drained (ended t) = t ≡ goal
    Drained (going t consumed) = (hand_over processor t X ≡ goal) × (last_of consumed [] ≡ last)

    drain-Drained :
        (t consumed rest : List (ℕ × P))
        → hand_over processor t (rest ++ X) ≡ goal
        → last_of consumed rest ≡ last
        → Drained (drain processor t consumed rest)
    unfolding drain
    drain-Drained t consumed [] e l = (e, l)
    drain-Drained t consumed (x ∷ rest) e l =
        either Drained (processor (x ∷ t)) _ _
          (λ p. sym (hand_stopped processor t x (rest ++ X) p) ∙ e)
          (λ p.
            drain-Drained (x ∷ t) (x ∷ consumed) rest
              (sym (hand_on processor t x (rest ++ X) p) ∙ e) l)

  module _ (X Y : List (ℕ × P)) (hot cold : Buffer P) (goal : List (ℕ × P)) where
    hot_left :
        (t : List (ℕ × P)) (h c : Buffer P)
        → c.rest ≡ []
        → Y ≡ []
        → left processor X Y t h c ≡ hand_over processor t (h.rest ++ X)
    hot_left t h c e y =
        ap (λ l. hand_over processor t (merge (h.rest ++ X) (l ++ Y))) e
        ∙ ap (λ l. hand_over processor t (merge (h.rest ++ X) l)) y
        ∙ ap (hand_over processor t) (merge-nil (h.rest ++ X))

    cold_left :
        (t : List (ℕ × P)) (h c : Buffer P)
        → h.rest ≡ []
        → X ≡ []
        → left processor X Y t h c ≡ hand_over processor t (c.rest ++ Y)
    unfolding merge
    cold_left t h c e x =
        ap (λ l. hand_over processor t (merge (l ++ X) (c.rest ++ Y))) e
        ∙ ap (λ l. hand_over processor t (merge l (c.rest ++ Y))) x

    after_hot :
        (h c : Buffer P)
        → Same h hot
        → Same c cold
        → c.rest ≡ []
        → Y ≡ []
        → (w : Walk P (List (ℕ × P))) → Drained X (last_key hot) goal w
        → On processor X Y hot cold goal hot_drained (
            and_then
              (and_then w (λ t consumed. going t (record h { consumed = consumed; rest = [] })))
              (λ t h. going t (h, c)))
    after_hot h c sh sc e y (ended t) d = d
    after_hot h c sh sc e y (going t consumed) d = (
      hot_left t (record h { consumed = consumed; rest = [] }) c e y ∙ d.0,
      (sh.0, d.1),
      sc,
      ground arith,
    )

    hot_drained-On :
        (t : List (ℕ × P)) (h c : Buffer P)
        → On processor X Y hot cold goal one_consumed (going t (h, c))
        → (c.tree_end ≡ true → Y ≡ [])
        → On processor X Y hot cold goal hot_drained
            (and_then (drain_after processor t h c) (λ t h. going t (h, c)))
    unfolding drain_after
    hot_drained-On t h c (e, sh, sc, far) y =
        either_if
          (λ w. On processor X Y hot cold goal hot_drained (and_then w (λ t h. going t (h, c))))
          (not (is_nil h.rest) && is_nil c.rest && c.tree_end) _ _
          (λ b.
            let (_, nc, ce) = all_three (is_nil h.rest) (is_nil c.rest) c.tree_end b in
            let empty = nil_of c.rest nc in
            after_hot h c sh sc empty (y ce) (drain processor t h.consumed h.rest) (
              drain-Drained X (last_key hot) goal t h.consumed h.rest
                (sym (hot_left t h c empty (y ce)) ∙ e) sh.1))
          (λ b. (e, sh, sc, ground arith))

    after_cold :
        (h c : Buffer P)
        → Same h hot
        → Same c cold
        → h.rest ≡ []
        → X ≡ []
        → (w : Walk P (List (ℕ × P))) → Drained Y (last_key cold) goal w
        → On processor X Y hot cold goal to_refill (
            and_then
              (and_then w (λ t consumed. going t (record c { consumed = consumed; rest = [] })))
              (λ t c. going t (h, c)))
    after_cold h c sh sc e x (ended t) d = d
    after_cold h c sh sc e x (going t consumed) d = (
      cold_left t h (record c { consumed = consumed; rest = [] }) e x ∙ d.0,
      sh,
      (sc.0, d.1),
      rw e (ground arith),
    )

    cold_drained-On :
        (t : List (ℕ × P)) (h c : Buffer P)
        → On processor X Y hot cold goal hot_drained (going t (h, c))
        → (h.tree_end ≡ true → X ≡ [])
        → On processor X Y hot cold goal to_refill
            (and_then (drain_after processor t c h) (λ t c. going t (h, c)))
    unfolding drain_after
    cold_drained-On t h c (e, sh, sc, far) x =
        either_if
          (λ w. On processor X Y hot cold goal to_refill (and_then w (λ t c. going t (h, c))))
          (not (is_nil c.rest) && is_nil h.rest && h.tree_end) _ _
          (λ b.
            let (_, nh, he) = all_three (is_nil c.rest) (is_nil h.rest) h.tree_end b in
            let empty = nil_of h.rest nh in
            after_cold h c sh sc empty (x he) (drain processor t c.consumed c.rest) (
              drain-Drained Y (last_key cold) goal t c.consumed c.rest
                (sym (cold_left t h c empty (x he)) ∙ e) sc.1))
          (λ b. (e, sh, sc, ground arith))

    then_cold :
        (c : Buffer P) (w : Walk P (Buffer P))
        → (hot.tree_end ≡ true → X ≡ [])
        → On processor X Y hot cold goal hot_drained (and_then w (λ t h. going t (h, c)))
        → On processor X Y hot cold goal to_refill
            (and_then w (λ t h. and_then (drain_after processor t c h) (λ t c. going t (h, c))))
    then_cold c (ended t) x o = o
    then_cold c (going t h) x o = cold_drained-On t h c o (λ e. x (sym (o.1.0) ∙ e))

    then_drain :
        (w : Walk P (Buffer P × Buffer P))
        → (hot.tree_end ≡ true → X ≡ [])
        → (cold.tree_end ≡ true → Y ≡ [])
        → On processor X Y hot cold goal one_consumed w
        → On processor X Y hot cold goal to_refill (
            and_then w (λ t bs.
              and_then
                (drain_after processor t bs.0 bs.1)
                (λ t h. and_then (drain_after processor t bs.1 h) (λ t c. going t (h, c)))))
    then_drain (ended t) x y o = o
    then_drain (going t (h, c)) x y o =
        then_cold c (drain_after processor t h c) x
          (hot_drained-On t h c o (λ e. y (sym (o.2.0) ∙ e)))

  -- What a round does before it refills comes to what is left, where a tree at its end has no more entries.
  pub walk-On :
      (X Y t : List (ℕ × P)) (hot cold : Buffer P)
      → (hot.tree_end ≡ true → X ≡ [])
      → (cold.tree_end ≡ true → Y ≡ [])
      → On processor X Y hot cold
          (left processor X Y t hot cold)
          to_refill
          (walk processor t hot cold)
  unfolding walk
  walk-On X Y t hot cold x y = then_drain X Y hot cold (left processor X Y t hot cold) _ x y (
      merge_buffers-On processor X Y hot cold (left processor X Y t hot cold) t hot.consumed
        hot.rest cold.consumed cold.rest refl refl refl)
