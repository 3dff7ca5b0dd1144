-- ===== src/AntiCache/Evicting.antt =====
-- backend/anti-caching/AntiCache.hpp: a round of `evict_bunch`, which moves the tuple used least recently from
-- the cache to the block.
use tree.Prelude.{
  ℕ, ◌<◌, ◌≡◌, length-append, ◌==◌, inl, inr, true, false, Option, none, some, List, [], ◌∷◌, ◌++◌,
  arith, ap, subst, ◌∙◌, ==→eq, Bool-cases, Option-cases, if◌then◌else◌, ◌&&◌,
}
use mathlib.Core.List.{append-nil}
use tree.AntiCache.Lru.{lru_head, lru_remove_self}
use tree.AntiCache.Chain.{has, has-append, Once-middle, apart}
use tree.AntiCache.Ring.{Ring, remove-Ring}
use tree.AntiCache.Tables.{Table, Blocks}
use tree.AntiCache.Adapter.{AntiCache, delete_node}
use tree.AntiCache.Valid.{
  Keys, Keys-snoc, Valid, view, find_tuple, find_tuple-append, find_tuple-append_other, in_block,
}

module _ {P : Type 0} {C : Table ℕ} {E : Table (ℕ × ℕ)} {B : Blocks P} where
  -- The state as it will be when the block is stored.
  abbrev pub stored_block : ℕ → List (ℕ × P) → AntiCache C E B → AntiCache C E B
  stored_block b block s = record s { block_table = B.put s.block_table b block }

  abbrev pub evicted_one : ℕ → ℕ → ℕ → ℕ → AntiCache C E B → AntiCache C E B
  evicted_one b o a k s = record s {
    evict_table = E.assign s.evict_table k (b, o);
    heap = delete_node (lru_remove_self s.heap a) a;
    cache = C.erase s.cache k;
  }

  module _ (b o a k : ℕ) (v : P) (block : List (ℕ × P)) (s : AntiCache C E B) (xs : List ℕ)
      (valid : Valid (stored_block b block s) (xs ++ (a ∷ []))) (small : b < s.block_id_counter)
      (here : s.heap.tuple a ≡ some (k, v)) (cache : C.find s.cache k ≡ some a) where
    unfoldable pub after : AntiCache C E B
    after = stored_block b (block ++ ((k, v) ∷ [])) (evicted_one b o a k s)

    block_self : (l : List (ℕ × P)) → B.get (B.put s.block_table b l) b ≡ some l
    block_self l = ground (arith, B.get-put s.block_table b b l)

    new_in_block : find_tuple k block ≡ none
    new_in_block = elim (Option-cases (find_tuple k block)) [
      | inl e ↦ e
      | inr (w, e) ↦
          let (o', tomb) = valid.tombs k b w (ap (in_block k) (block_self block) ∙ e) in
          cc (tomb, valid.single k a cache)
    ]

    pub removed :
        Ring (lru_remove_self s.heap a) xs × ((lru_remove_self s.heap a).tuple ≡ s.heap.tuple)
    removed =
        let (r, _, t) = remove-Ring s.heap a xs [] valid.ring in
        (subst (Ring (lru_remove_self s.heap a)) (append-nil xs) r, t)

    tuple_after : (x : ℕ) → after.heap.tuple x ≡ (if a == x then none else s.heap.tuple x)
    unfolding after delete_node
    tuple_after x = ap (λ (t : ℕ → Option (ℕ × P)). if a == x then none else t x) removed.1

    cache_after : (j : ℕ) → C.find after.cache j ≡ (if k == j then none else C.find s.cache j)
    unfolding after
    cache_after j = C.find-erase s.cache k j

    tomb_after :
        (j : ℕ)
        → E.find after.evict_table j ≡ (if k == j then some (b, o) else E.find s.evict_table j)
    unfolding after
    tomb_after j = E.find-assign s.evict_table k j (b, o)

    block_after :
        (c : ℕ)
        → B.get after.block_table c
          ≡ (if b == c then some (block ++ ((k, v) ∷ [])) else B.get s.block_table c)
    unfolding after
    block_after c = B.get-put s.block_table b c (block ++ ((k, v) ∷ []))

    block_before :
        (c : ℕ)
        → B.get (B.put s.block_table b block) c
          ≡ (if b == c then some block else B.get s.block_table c)
    block_before c = B.get-put s.block_table b c block

    in_block_after :
        (j c : ℕ)
        → in_block j (B.get after.block_table c) ≡ (
            if b == c && k == j then some v else in_block j (B.get (B.put s.block_table b block) c))
    in_block_after j c = ground (
      arith,
      block_after c,
      block_before c,
      find_tuple-append j block ((k, v) ∷ []),
      find_tuple-append_other j block ((k, v) ∷ []),
      new_in_block,
    )

    other_node : (j x : ℕ) → C.find s.cache j ≡ some x → (k == j) ≡ false → (a == x) ≡ false
    other_node j x e ne = let (_, w, t) = valid.shown j x e in ground (arith, t, here, ne)

    pub same_view : (j : ℕ) → view after j ≡ view (stored_block b block s) j
    same_view j = elim (Bool-cases (k == j)) [
      | inl e ↦ ground (arith, e, cache_after j, tomb_after j, in_block_after j b, cache, here)
      | inr e ↦ elim (Option-cases (C.find s.cache j)) [
        | inl n ↦ elim (Option-cases (E.find s.evict_table j)) [
          | inl m ↦ ground (arith, e, n, m, cache_after j, tomb_after j)
          | inr ((c, o'), m) ↦
              ground (arith, e, n, m, cache_after j, tomb_after j, in_block_after j c)
        ]
        | inr (x, n) ↦
            let (_, w, t) = valid.shown j x n in
            ground (arith, e, n, t, cache_after j, tuple_after x, other_node j x n e)
      ]
    ]

    not_in_rest : has a xs ≡ false
    not_in_rest =
        ground (arith, (Once-middle a (lru_head ∷ xs) [] valid.ring.once).0, has-append a xs [])

    was_listed : (x : ℕ) → has x xs ≡ true → has x (xs ++ (a ∷ [])) ≡ true
    was_listed x h = ground (arith, has-append x xs (a ∷ []))

    still_listed : (x : ℕ) → has x (xs ++ (a ∷ [])) ≡ true → (a == x) ≡ false → has x xs ≡ true
    still_listed x h e = ground (arith, has-append x xs (a ∷ []))

    was_cached :
        (j x : ℕ) → C.find after.cache j ≡ some x → (C.find s.cache j ≡ some x) × ((k == j) ≡ false)
    was_cached j x e = ground (arith, cache_after j, e)

    no_tomb : (j : ℕ) (r : ℕ × ℕ) → E.find s.evict_table j ≡ some r → (k == j) ≡ false
    no_tomb j r e = elim (Bool-cases (k == j)) [
      | inl q ↦ cc (e, valid.single k a cache, ap (E.find s.evict_table) (==→eq k j q))
      | inr q ↦ q
    ]

    other_key : (j x : ℕ) → C.find s.cache j ≡ some x → (a == x) ≡ false → (k == j) ≡ false
    other_key j x c other = elim (Bool-cases (k == j)) [
      | inl q ↦ ground (arith, c, cache, ap (C.find s.cache) (==→eq k j q), other)
      | inr q ↦ q
    ]

    after-Keys : (c : ℕ) (m : List (ℕ × P)) → B.get after.block_table c ≡ some m → Keys m
    after-Keys c m e = elim (Bool-cases (b == c)) [
      | inl q ↦
          let same : block ++ ((k, v) ∷ []) ≡ m = ground (arith, block_after c, e, q) in
          subst Keys same (Keys-snoc block k v (valid.keys b block (block_self block)) new_in_block)
      | inr q ↦ valid.keys c m (ground (arith, block_after c, block_before c, e, q))
    ]

    pub after-Valid : Valid after xs
    unfolding after delete_node
    after-Valid = record {
      ring = record { chain = removed.0.chain; once = removed.0.once; real = removed.0.real };
      shown = λ j x e.
          let (c, ne) = was_cached j x e in
          let (h, w, t) = valid.shown j x c in
          let other = other_node j x c ne in
          (still_listed x h other, w, tuple_after x ∙ ground (arith, t, other));
      known = λ x h.
          let (j, w, t, c) = valid.known x (was_listed x h) in
          let other : (a == x) ≡ false = ground (arith, apart a x xs, not_in_rest) in
          let ne : (k == j) ≡ false = other_key j x c other in
          (j, w, tuple_after x ∙ ground (arith, t, other), cache_after j ∙ ground (arith, c, ne));
      single = λ j x e.
          let (c, ne) = was_cached j x e in tomb_after j ∙ ground (arith, ne, valid.single j x c);
      stored = λ j c o' e. elim (Bool-cases (k == j)) [
        | inl q ↦ (
          ground (arith, tomb_after j, e, small),
          v,
          ground (arith, tomb_after j, e, q, in_block_after j c),
        )
        | inr q ↦
            let (lt, w, t) = valid.stored j c o' (ground (arith, tomb_after j, e, q)) in
            (lt, w, in_block_after j c ∙ ground (arith, q, t))
      ];
      tombs = λ j c w e. elim (Bool-cases (b == c && k == j)) [
        | inl q ↦ (o, tomb_after j ∙ ground (arith, q))
        | inr q ↦
            let (o', t) = valid.tombs j c w (ground (arith, in_block_after j c, e, q)) in
            (o', tomb_after j ∙ ground (arith, t, no_tomb j (c, o') t))
      ];
      allocated = λ x h. valid.allocated x (was_listed x h);
      keys = λ c m e. after-Keys c m e;
      room = valid.room;
      counted =
          ground (arith, C.count-erase s.cache k, cache, valid.counted, length-append xs (a ∷ []));
    }
