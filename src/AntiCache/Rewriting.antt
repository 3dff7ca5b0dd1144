-- ===== src/AntiCache/Rewriting.antt =====
-- backend/anti-caching/AntiCache.hpp: a new payload in the node of a key.
use tree.Prelude.{
  ℕ, ◌≡◌, ◌==◌, inl, inr, some, List, arith, ap, ==→eq, Bool-cases, Option-cases, if◌then◌else◌,
  update,
}
use tree.AntiCache.Tables.{Table, Blocks}
use tree.AntiCache.Adapter.{AntiCache}
use tree.AntiCache.Valid.{Valid, view}

module _ {P : Type 0} {C : Table ℕ} {E : Table (ℕ × ℕ)} {B : Blocks P} where
  abbrev pub rewritten : ℕ → ℕ → P → AntiCache C E B → AntiCache C E B
  rewritten p k v s = record s {
    heap = record s.heap { tuple = update s.heap.tuple p (some (k, v)) };
  }

  module _ (p k : ℕ) (v : P) (s : AntiCache C E B) (l : List ℕ) (valid : Valid s l)
      (cached : C.find s.cache k ≡ some p) where
    here : (w : P) × (s.heap.tuple p ≡ some (k, w))
    here = let (_, w, t) = valid.shown k p cached in (w, t)

    pub rewritten-Valid : Valid (rewritten p k v s) l
    rewritten-Valid = record {
      ring = record { chain = valid.ring.chain; once = valid.ring.once; real = valid.ring.real };
      shown = λ j x c.
          let (h, w, t) = valid.shown j x c in
          let (u, t') = here in
          elim (Bool-cases (p == x)) [
            | inl q ↦ (h, v, ground (arith, t, t', q, ap s.heap.tuple (==→eq p x q)))
            | inr q ↦ (h, w, ground (arith, t, q))
          ];
      known = λ x h.
          let (j, w, t, c) = valid.known x h in
          let (u, t') = here in
          elim (Bool-cases (p == x)) [
            | inl q ↦ (j, v, ground (arith, t, t', q, ap s.heap.tuple (==→eq p x q)), c)
            | inr q ↦ (j, w, ground (arith, t, q), c)
          ];
      single = valid.single;
      stored = valid.stored;
      tombs = valid.tombs;
      allocated = valid.allocated;
      keys = valid.keys;
      room = valid.room;
      counted = valid.counted;
    }

    pub rewritten-view :
        (j : ℕ) → view (rewritten p k v s) j ≡ (if k == j then some v else view s j)
    rewritten-view j = elim (Bool-cases (k == j)) [
      | inl e ↦ ground (arith, e, cached)
      | inr e ↦ elim (Option-cases (C.find s.cache j)) [
        | inl n ↦ ground (arith, e, n)
        | inr (x, n) ↦
            let (_, w, t) = valid.shown j x n in let (u, t') = here in ground (arith, e, n, t, t')
      ]
    ]
