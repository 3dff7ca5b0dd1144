-- ===== src/TwoTree/Scan/Loop.antt =====
-- backend/twotree/ConcurrentTwoBTree.hpp: the loop of `scan` from its first fill to its end.
use tree.Prelude.{
  either_if, ℕ, zero, suc, ◌+◌, ◌≤◌, ◌<◌, ◌≡◌, Bool, true, false, not, ◌&&◌, ◌||◌, some, List, [],
  ◌∷◌, ◌++◌, arith, refl, sym, ap, subst, ◌∙◌, if◌then◌else◌, length, take, drop, take-append-drop,
  Run, ok, ◌>>=◌,
}
use tree.TwoTree.Scan.{
  Buffer, is_nil, Walk, ended, going, walk, refill, scan_round, scan_loop, scan_from,
}
use tree.TwoTree.Scan.Merged.{nil_of, Same, merge, hand_over, left, On, to_refill}
use tree.TwoTree.Scan.Drained.{walk-On}
use tree.TwoTree.Scan.Filled.{Readable, Fed, filled, filled-Fed, fill_fresh}
use tree.TwoTree.Scan.Refilled.{Refilled, refill-Refilled, weight-filled}

module _ {P V W : Type 0} (read : V → Run P) (read' : W → Run P) (hot_scan : ℕ → List (ℕ × V))
    (cold_scan : ℕ → List (ℕ × W))
    (hot_continues : (low k : ℕ) (v : V) (before after : List (ℕ × V))
      → hot_scan low ≡ before ++ ((k, v) ∷ after)
      → hot_scan (suc k) ≡ after)
    (cold_continues : (low k : ℕ) (v : W) (before after : List (ℕ × W))
      → cold_scan low ≡ before ++ ((k, v) ∷ after)
      → cold_scan (suc k) ≡ after)
    (processor : List (ℕ × P) → Bool) where
  abbrev HotFed : Buffer P → List (ℕ × P) → Type 0
  HotFed = Fed read hot_scan

  abbrev ColdFed : Buffer P → List (ℕ × P) → Type 0
  ColdFed = Fed read' cold_scan

  abbrev heavy : Buffer P → Buffer P → List (ℕ × P) → List (ℕ × P) → ℕ
  heavy h c X Y =
      length X + (if h.tree_end then 0 else 1) + (length Y + (if c.tree_end then 0 else 1))

  -- A round of the loop comes to `goal`, or goes on towards it with less ahead.
  abbrev Rounded : List (ℕ × P) → ℕ → Walk P (Buffer P × Buffer P) → Type 0
  Rounded goal n (ended t) = t ≡ goal
  Rounded goal n (going t (h, c)) =
      (X : List (ℕ × P)) × (Y : List (ℕ × P)) × (left processor X Y t h c ≡ goal)
      × HotFed h X
      × ColdFed c Y
      × (heavy h c X Y < n)

  abbrev continue : List (ℕ × P) → Buffer P → Buffer P → Walk P (Buffer P × Buffer P)
  continue t h c =
      if is_nil c.rest && c.tree_end && is_nil h.rest && h.tree_end then ended t else going t (h, c)

  all_four :
      (a b c d : Bool)
      → (a && b && c && d) ≡ true
      → (a ≡ true) × (b ≡ true) × (c ≡ true) × (d ≡ true)
  all_four a b c d e = ground arith

  nothing_left :
      (X Y t : List (ℕ × P)) (h c : Buffer P)
      → HotFed h X
      → ColdFed c Y
      → (is_nil c.rest && c.tree_end && is_nil h.rest && h.tree_end) ≡ true
      → t ≡ left processor X Y t h c
  unfolding merge hand_over
  nothing_left X Y t h c fh fc e =
      let (nc, ce, nh, he) = all_four (is_nil c.rest) c.tree_end (is_nil h.rest) h.tree_end e in
      sym (
        ap (λ l. hand_over processor t (merge (l ++ X) (c.rest ++ Y))) (nil_of h.rest nh)
        ∙ ap (λ l. hand_over processor t (merge l (c.rest ++ Y))) (fh.at_end he)
        ∙ ap (λ l. hand_over processor t (l ++ Y)) (nil_of c.rest nc)
        ∙ ap (λ l. hand_over processor t l) (fc.at_end ce))

  Fed-Same :
      {Q : Type 0} (get : Q → Run P) (scan : ℕ → List (ℕ × Q)) (b b' : Buffer P) (X : List (ℕ × P))
      → Fed get scan b X
      → Same b' b
      → Fed get scan b' X
  Fed-Same get scan b b' X f s = record {
    at_end = λ e. f.at_end (sym s.0 ∙ e);
    more = λ e. let (k, last, small, r) = f.more (sym s.0 ∙ e) in (k, s.1 ∙ last, small, r);
  }

  nil-append : (xs ys : List (ℕ × P)) → xs ++ ys ≡ [] → is_nil xs ≡ true
  nil-append [] ys e = refl
  nil-append (x ∷ xs) ys e = cc

  -- A consumed buffer of a tree at its end stays so.
  stays_done :
      {Q : Type 0} (get : Q → Run P) (scan : ℕ → List (ℕ × Q))
      (continues : (low k : ℕ) (v : Q) (before after : List (ℕ × Q))
        → scan low ≡ before ++ ((k, v) ∷ after)
        → scan (suc k) ≡ after)
      (b b' : Buffer P) (X X' : List (ℕ × P))
      → Fed get scan b X
      → Refilled get scan continues b X b' X'
      → is_nil b.rest ≡ true
      → b.tree_end ≡ true
      → (is_nil b'.rest ≡ true) × (b'.tree_end ≡ true)
  stays_done get scan continues b b' X X' f r n e = (
    nil-append b'.rest X' (r.shows ∙ ap (λ l. l ++ X) (nil_of b.rest n) ∙ f.at_end e),
    ground (arith, r.lighter, ap length (f.at_end e), e),
  )

  implied :
      (a b a' b' : Bool)
      → (a ≡ true → b ≡ true → (a' ≡ true) × (b' ≡ true))
      → (not (a && b) || (a' && b')) ≡ true
  implied true true a' b' f = let (x, y) = f refl refl in ground arith
  implied true false a' b' f = refl
  implied false b a' b' f = refl

  equal_weight :
      (h c hot cold : Buffer P) (X Y : List (ℕ × P))
      → Same h hot
      → Same c cold
      → heavy h c X Y ≡ heavy hot cold X Y
  equal_weight h c hot cold X Y sh sc =
      ap
        (λ (e : Bool). length X + (if e then 0 else 1) + (length Y + (if c.tree_end then 0 else 1)))
        sh.0
      ∙ ap
          (λ (e : Bool).
            length X + (if hot.tree_end then 0 else 1) + (length Y + (if e then 0 else 1)))
          sc.0

  round_lighter :
      (nh he nc ce nh' he' nc' ce' : Bool) (v v' w w' : ℕ)
      → v' + (if nh && not he then 1 else 0) ≤ v
      → w' + (if nc && not ce then 1 else 0) ≤ w
      → ((nh && not he) || (nc && not ce) || (nh && nc)) ≡ true
      → (nc' && ce' && nh' && he') ≡ false
      → (not (nh && he) || (nh' && he')) ≡ true
      → (not (nc && ce) || (nc' && ce')) ≡ true
      → v' + w' < v + w
  round_lighter nh he nc ce nh' he' nc' ce' v v' w w' a b far more kh kc = ground arith

  after_walk :
      (X Y : List (ℕ × P)) (hot cold : Buffer P) (goal : List (ℕ × P))
      → HotFed hot X
      → ColdFed cold Y
      → (w : Walk P (Buffer P × Buffer P)) → On processor X Y hot cold goal to_refill w
      → (r : Walk P (Buffer P × Buffer P)) × ((elim w [
        | ended t ↦ ok (ended t)
        | going t (h, c) ↦ refill read hot_scan h >>= λ h'.
            refill read' cold_scan c >>= λ c'. ok (continue t h' c')
      ])
          ≡ ok r)
        × Rounded goal (heavy hot cold X Y) r
  after_walk X Y hot cold goal fh fc (ended t) o = (ended t, refl, o)
  after_walk X Y hot cold goal fh fc (going t (h, c)) (e, sh, sc, far) =
      let (h', X', r) =
        refill-Refilled read hot_scan hot_continues h X (Fed-Same read hot_scan hot h X fh sh) in
      let (c', Y', r') =
        refill-Refilled read' cold_scan cold_continues c Y
          (Fed-Same read' cold_scan cold c Y fc sc) in
      let shown : left processor X' Y' t h' c' ≡ goal =
        ap (λ l. hand_over processor t (merge l (c'.rest ++ Y'))) r.shows
        ∙ ap (λ l. hand_over processor t (merge (h.rest ++ X) l)) r'.shows
        ∙ e in
      (
        continue t h' c',
        rw (r.run, r'.run),
        either_if (Rounded goal (heavy hot cold X Y))
            (is_nil c'.rest && c'.tree_end && is_nil h'.rest && h'.tree_end) _ _
            (λ q. nothing_left X' Y' t h' c' r.fed r'.fed q ∙ shown)
            (λ q. (
              X',
              Y',
              shown,
              r.fed,
              r'.fed,
              subst (λ n. heavy h' c' X' Y' < n) (equal_weight h c hot cold X Y sh sc)
                  (round_lighter (is_nil h.rest) h.tree_end (is_nil c.rest) c.tree_end
                    (is_nil h'.rest) h'.tree_end (is_nil c'.rest) c'.tree_end _ _ _ _ r.lighter
                    r'.lighter far q
                    (implied (is_nil h.rest) h.tree_end _ _ (
                      stays_done read hot_scan hot_continues h h' X X'
                        (Fed-Same read hot_scan hot h X fh sh) r))
                    (implied (is_nil c.rest) c.tree_end _ _ (
                      stays_done read' cold_scan cold_continues c c' Y Y'
                        (Fed-Same read' cold_scan cold c Y fc sc) r'))),
            )),
      )

  scan_round_lem :
      (X Y t : List (ℕ × P)) (hot cold : Buffer P)
      → HotFed hot X
      → ColdFed cold Y
      → (r : Walk P (Buffer P × Buffer P)) × (scan_round processor read hot_scan read' cold_scan t
            hot cold
          ≡ ok r)
        × Rounded (left processor X Y t hot cold) (heavy hot cold X Y) r
  unfolding scan_round
  scan_round_lem X Y t hot cold fh fc =
      after_walk X Y hot cold (left processor X Y t hot cold) fh fc (walk processor t hot cold)
        (walk-On processor X Y t hot cold fh.at_end fc.at_end)

  abbrev LoopEnds : ℕ → Type 0
  LoopEnds fuel =
      (X Y t : List (ℕ × P)) (hot cold : Buffer P)
      → HotFed hot X
      → ColdFed cold Y
      → heavy hot cold X Y < fuel
      → scan_loop processor read hot_scan read' cold_scan fuel t hot cold
        ≡ ok (some (left processor X Y t hot cold))

  after_round :
      (fuel : ℕ)
      → LoopEnds fuel
      → (goal : List (ℕ × P)) (n : ℕ) (r : Walk P (Buffer P × Buffer P)) → Rounded goal n r
      → n < suc fuel
      → (elim r [
        | ended t ↦ ok (some t)
        | going t (h, c) ↦ scan_loop processor read hot_scan read' cold_scan fuel t h c
      ])
        ≡ ok (some goal)
  after_round fuel ends goal n (ended t) e h = ap (λ l. ok (some l)) e
  after_round fuel ends goal n (going t (hot, cold)) (X, Y, e, fh, fc, less) h =
      ends X Y t hot cold fh fc (omega arith) ∙ ap (λ l. ok (some l)) e

  scan_loop_lem : (fuel : ℕ) → LoopEnds fuel
  unfolding scan_loop
  scan_loop_lem zero X Y t hot cold fh fc h = absurd (omega arith)
  scan_loop_lem (suc fuel) X Y t hot cold fh fc h =
      let (r, run, next) = scan_round_lem X Y t hot cold fh fc in
      rw run (
        after_round fuel (scan_loop_lem fuel) (left processor X Y t hot cold) (heavy hot cold X Y) r
          next (omega arith))

  merge-take-drop :
      (hs cs : List (ℕ × P)) → merge (take 8 hs ++ drop 8 hs) (take 8 cs ++ drop 8 cs) ≡ merge hs cs
  merge-take-drop hs cs = rw (take-append-drop 8 hs, take-append-drop 8 cs)

  -- The loop, with more fuel than the trees have entries from the start key on, hands over their merge.
  pub scan_from_lem :
      (fuel start_key : ℕ) (hs cs : List (ℕ × P))
      → Readable read (hot_scan start_key) hs
      → Readable read' (cold_scan start_key) cs
      → length hs + length cs < fuel
      → scan_from processor read hot_scan read' cold_scan fuel start_key
        ≡ ok (some (hand_over processor [] (merge hs cs)))
  unfolding scan_from
  scan_from_lem fuel start_key hs cs rh rc h =
      rw (fill_fresh read hot_scan start_key hs rh, fill_fresh read' cold_scan start_key cs rc)
        (scan_loop_lem fuel (drop 8 hs) (drop 8 cs) [] (filled read hs) (filled read' cs)
            (filled-Fed read hot_scan hot_continues start_key hs rh)
            (filled-Fed read' cold_scan cold_continues start_key cs rc)
            (omega (
              arith,
              weight-filled read hot_scan hot_continues hs,
              weight-filled read' cold_scan cold_continues cs,
            ))
          ∙ ap (λ l. ok (some (hand_over processor [] l))) (merge-take-drop hs cs))
