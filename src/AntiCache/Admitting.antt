-- ===== src/AntiCache/Admitting.antt =====
-- backend/anti-caching/AntiCache.hpp: a tuple that comes back from a block to the cache.
use tree.Prelude.{
  ℕ, ◌≡◌, ◌==◌, inl, inr, false, Bool, none, some, List, ◌∷◌, arith, ap, subst, ◌∙◌, ==→eq,
  Bool-cases, Option-cases, if◌then◌else◌, ◌&&◌,
}
use tree.AntiCache.Tables.{Table, Blocks}
use tree.AntiCache.Adapter.{AntiCache}
use tree.AntiCache.Valid.{Valid, view, find_tuple, in_block, Keys}
use tree.AntiCache.Evicting.{stored_block}
use tree.AntiCache.Joining.{
  listed, joined, tuple_now, cache_now, listed_before, relinked, shown_now, known_now, was_cached,
  allocated_now, counted_now,
}

module _ {P : Type 0} {C : Table ℕ} {E : Table (ℕ × ℕ)} {B : Blocks P} where
  abbrev pub admitted : Bool → ℕ → P → AntiCache C E B → AntiCache C E B
  admitted head k v s = record (joined head k v s) { evict_table = E.erase s.evict_table k }

  module _ (head : Bool) (b k : ℕ) (v : P) (rest : List (ℕ × P)) (s : AntiCache C E B) (l : List ℕ)
      (valid : Valid (stored_block b ((k, v) ∷ rest) s) l) where
    abbrev pub back : AntiCache C E B
    back = stored_block b rest (admitted head k v s)

    pub not_cached : C.find s.cache k ≡ none
    not_cached = elim (Option-cases (C.find s.cache k)) [
      | inl e ↦ e
      | inr (a, e) ↦
          let (o, t) =
            valid.tombs k b v (ground (arith, B.get-put s.block_table b b ((k, v) ∷ rest))) in
          cc (t, valid.single k a e)
    ]

    abbrev before : AntiCache C E B
    before = stored_block b ((k, v) ∷ rest) s

    tuple_back :
        (x : ℕ) → back.heap.tuple x ≡ (if s.next_address == x then some (k, v) else s.heap.tuple x)
    tuple_back x = tuple_now head k v before l valid not_cached x

    cache_back :
        (j : ℕ) → C.find back.cache j ≡ (if k == j then some s.next_address else C.find s.cache j)
    cache_back j = cache_now head k v before l valid not_cached j

    pub tomb_back :
        (j : ℕ) → E.find back.evict_table j ≡ (if k == j then none else E.find s.evict_table j)
    tomb_back j = E.find-erase s.evict_table k j

    in_block_back :
        (j c : ℕ)
        → in_block j (B.get (B.put s.block_table b ((k, v) ∷ rest)) c)
          ≡ (if b == c && k == j then some v else in_block j (B.get back.block_table c))
    in_block_back j c =
        ground
          (arith, B.get-put s.block_table b c ((k, v) ∷ rest), B.get-put s.block_table b c rest)

    pub tomb_before : (o : ℕ) × (E.find s.evict_table k ≡ some (b, o))
    tomb_before = valid.tombs k b v (ground (arith, B.get-put s.block_table b b ((k, v) ∷ rest)))

    pub same_back : (j : ℕ) → view back j ≡ view (stored_block b ((k, v) ∷ rest) s) j
    same_back j = elim (Bool-cases (k == j)) [
      | inl e ↦
          let (o, t) = tomb_before in
          let x = s.next_address in
          ground (arith, e, t, cache_back j, tuple_back x, not_cached, in_block_back j b)
      | inr e ↦ elim (Option-cases (C.find s.cache j)) [
        | inl n ↦ elim (Option-cases (E.find s.evict_table j)) [
          | inl m ↦ ground (arith, e, n, m, cache_back j, tomb_back j)
          | inr ((c, o), m) ↦ ground (arith, e, n, m, cache_back j, tomb_back j, in_block_back j c)
        ]
        | inr (x, n) ↦
            let (_, w, t) = valid.shown j x n in
            ground (
              arith,
              e,
              n,
              t,
              cache_back j,
              tuple_back x,
              listed_before head k v before l valid not_cached j x n,
            )
      ]
    ]

    whole : B.get (B.put s.block_table b ((k, v) ∷ rest)) b ≡ some ((k, v) ∷ rest)
    whole = ground (arith, B.get-put s.block_table b b ((k, v) ∷ rest))

    no_twice : find_tuple k rest ≡ none
    no_twice = (valid.keys b ((k, v) ∷ rest) whole).0

    back-Keys : (c : ℕ) (m : List (ℕ × P)) → B.get back.block_table c ≡ some m → Keys m
    back-Keys c m e = elim (Bool-cases (b == c)) [
      | inl q ↦
          let same : rest ≡ m = ground (arith, B.get-put s.block_table b c rest, e, q) in
          subst Keys same (valid.keys b ((k, v) ∷ rest) whole).1
      | inr q ↦ valid.keys c m (
          ground (
            arith,
            B.get-put s.block_table b c rest,
            B.get-put s.block_table b c ((k, v) ∷ rest),
            e,
            q,
          ))
    ]

    block_of :
        (j c : ℕ) (w : P)
        → in_block j (B.get back.block_table c) ≡ some w
        → (in_block j (B.get (B.put s.block_table b ((k, v) ∷ rest)) c) ≡ some w)
          × ((b == c && k == j) ≡ false)
    block_of j c w e =
        ground (arith, in_block_back j c, B.get-put s.block_table b c rest, no_twice, e)

    back_tombs :
        (j c : ℕ) (w : P)
        → in_block j (B.get back.block_table c) ≡ some w
        → (o : ℕ) × (E.find back.evict_table j ≡ some (c, o))
    back_tombs j c w e =
        let (e', other) = block_of j c w e in
        let (o, t) = valid.tombs j c w e' in
        let (o', t') = tomb_before in
        let ne : (k == j) ≡ false = elim (Bool-cases (k == j)) [
          | inl q ↦
              absurd (ground (arith, t, t', other, q, ap (E.find s.evict_table) (==→eq k j q)))
          | inr q ↦ q
        ] in
        (o, tomb_back j ∙ ground (arith, t, ne))

    pub back-Valid : Valid back (listed head s.next_address l)
    back-Valid = record {
      ring = (relinked head k v before l valid not_cached).0;
      shown = shown_now head k v before l valid not_cached;
      known = known_now head k v before l valid not_cached;
      single = λ j x e. elim (Bool-cases (k == j)) [
        | inl q ↦ ground (arith, tomb_back j, q)
        | inr q ↦
            let old = was_cached head k v before l valid not_cached j x e q in
            ground (arith, tomb_back j, q, valid.single j x old)
      ];
      stored = λ j c o e.
          let q : (k == j) ≡ false = ground (arith, tomb_back j, e) in
          let (lt, w, t) = valid.stored j c o (ground (arith, tomb_back j, e)) in
          (lt, w, ground (arith, in_block_back j c, t, q));
      tombs = back_tombs;
      allocated = allocated_now head k v before l valid not_cached;
      keys = back-Keys;
      room = omega (arith, valid.room);
      counted = counted_now head k v before l valid not_cached;
    }
