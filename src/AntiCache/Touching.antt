-- ===== src/AntiCache/Touching.antt =====
-- backend/anti-caching/AntiCache.hpp: what a hit does to the list of the cached tuples.
use tree.Prelude.{
  ℕ, length, length-append, ◌≡◌, ◌==◌, inl, inr, true, false, Bool, Option, List, [], ◌∷◌, ◌++◌,
  arith, refl, sym, ap, subst, ◌∙◌, ==→eq, Bool-cases, Option-cases, add64,
}
use tree.AntiCache.Lru.{Heap, lru_head, null, lru_move_to_head}
use tree.AntiCache.Chain.{has, has-append, Once-middle}
use tree.AntiCache.Ring.{Ring, remove-Ring, move_to_head-Ring}
use tree.AntiCache.Tables.{Table, Blocks}
use tree.AntiCache.Adapter.{AntiCache}
use tree.AntiCache.Valid.{Valid, view}
use tree.AntiCache.Access.{touch}

split_at :
    (a : ℕ) (l : List ℕ) → has a l ≡ true → (xs : List ℕ) × (ys : List ℕ) × (l ≡ xs ++ (a ∷ ys))
split_at a [] h = absurd (ground (arith, h))
split_at a (x ∷ l) h = elim (Bool-cases (a == x)) [
  | inl e ↦ ([], l, ap (λ b. b ∷ l) (sym (==→eq a x e)))
  | inr e ↦ let (xs, ys, p) = split_at a l (ground (arith, h, e)) in (x ∷ xs, ys, ap (λ m. x ∷ m) p)
]

module _ {P : Type 0} where
  moved_first :
      (h : Heap P) (p : ℕ) (xs ys : List ℕ)
      → Ring h (xs ++ (p ∷ ys))
      → Ring (lru_move_to_head h p) (p ∷ (xs ++ ys)) × ((lru_move_to_head h p).tuple ≡ h.tuple)
  moved_first h p xs ys ring =
      let (r, _, t) = remove-Ring h p xs ys ring in
      let (out, _) = Once-middle p (lru_head ∷ xs) ys ring.once in
      let (r', t') =
        move_to_head-Ring h p (xs ++ ys) r (ground (arith, out))
          (ground (arith, ring.real, has-append null xs (p ∷ ys))) in
      (r', t' ∙ t)

module _ {P : Type 0} {C : Table ℕ} {E : Table (ℕ × ℕ)} {B : Blocks P} where
  -- Only the tuples and which nodes the ring has matter.
  pub same-Ring-Valid :
      (s : AntiCache C E B) (l l' : List ℕ) (h : Heap P) (hits misses : ℕ)
      → Valid s l
      → Ring h l'
      → h.tuple ≡ s.heap.tuple
      → ((x : ℕ) → has x l' ≡ has x l)
      → length l' ≡ length l
      → Valid (record s { heap = h; hit_count = hits; miss_count = misses }) l'
  same-Ring-Valid s l l' h hits misses valid ring t e long = record {
    ring = ring;
    shown = λ k a c.
        let (i, v, u) = valid.shown k a c in
        (e a ∙ i, v, ap (λ (f : ℕ → Option (ℕ × P)). f a) t ∙ u);
    known = λ a i.
        let (k, v, u, c) = valid.known a (sym (e a) ∙ i) in
        (k, v, ap (λ (f : ℕ → Option (ℕ × P)). f a) t ∙ u, c);
    single = valid.single;
    stored = valid.stored;
    tombs = valid.tombs;
    allocated = λ a i. valid.allocated a (sym (e a) ∙ i);
    keys = valid.keys;
    room = valid.room;
    counted = valid.counted ∙ sym long;
  }

  -- What a hit leaves.
  pub record Touched (draw : Bool) (p : ℕ) (s : AntiCache C E B) : Type 0 where
    pub l' : List ℕ
    pub valid : Valid (touch draw p s) l'
    pub same : (j : ℕ) → view (touch draw p s) j ≡ view s j

  pub touched :
      (draw : Bool) (p : ℕ) (s : AntiCache C E B) (l : List ℕ)
      → Valid s l
      → has p l ≡ true
      → Touched draw p s
  touched false p s l valid h = record {
    l' = l;
    valid =
        same-Ring-Valid s l l s.heap (add64 s.hit_count 1) s.miss_count valid valid.ring refl
          (λ x. refl) refl;
    same = λ j. refl;
  }
  touched true p s l valid h =
      let (xs, ys, parts) = split_at p l h in
      let (ring, t) = moved_first s.heap p xs ys (subst (Ring s.heap) parts valid.ring) in
      record {
        l' = p ∷ (xs ++ ys);
        valid =
            same-Ring-Valid s l (p ∷ (xs ++ ys)) (lru_move_to_head s.heap p) (add64 s.hit_count 1)
              s.miss_count valid ring t
              (λ x. ground (arith, has-append x xs ys, has-append x xs (p ∷ ys), ap (has x) parts))
              (omega (arith, ap length parts, length-append xs ys, length-append xs (p ∷ ys)));
        same = λ j. elim (Option-cases (C.find s.cache j)) [
          | inl e ↦ ground (arith, e)
          | inr (x, e) ↦ ground (arith, e, ap (λ (f : ℕ → Option (ℕ × P)). f x) t)
        ];
      }
