-- ===== src/AntiCache/Bunch.antt =====
-- backend/anti-caching/AntiCache.hpp: the loop of `evict_bunch`.
use tree.Prelude.{
  ℕ, zero, suc, ◌+◌, ◌*◌, ◌%◌, ◌^◌, ◌<◌, ◌≡◌, ◌==◌, ◌⊎◌, inl, inr, true, Option, none, some, List,
  [], ◌∷◌, ◌++◌, arith, refl, sym, ap, subst, ◌∙◌, length, length-append, Run, ok, fault, ◌>>=◌,
  leb, either,
}
use mathlib.Core.List.{append-nil, append_assoc}
use tree.AntiCache.Lru.{lru_head, lru_remove_self}
use tree.AntiCache.Chain.{prev-last, prev-last-but-one, has-append}
use tree.AntiCache.Ring.{Ring}
use tree.AntiCache.Tables.{Table, Blocks}
use tree.AntiCache.Adapter.{
  AntiCache, evict_block_size, move_tuple, evict_tuple, evict_loop, evict_bunch, delete_node,
}
use tree.AntiCache.Valid.{Valid, view}
use tree.AntiCache.Evicting.{stored_block, evicted_one, after, same_view, after-Valid, removed}
use tree.AntiCache.Begun.{begun-Valid, begun-view}

empty_block : (n bytes : ℕ) → leb evict_block_size (n * bytes) ≡ true → n ≡ 0 → ⊥
empty_block n bytes q z = ground (arith, q, ap (λ (m : ℕ). m * bytes) z)

List-last :
    {A : Type 0} → (l : List A) → (l ≡ []) ⊎ ((xs : List A) × (a : A) × (l ≡ xs ++ (a ∷ [])))
List-last [] = inl refl
List-last (x ∷ l) = elim (List-last l) [
  | inl e ↦ inr ([], x, ap (λ m. x ∷ m) e)
  | inr (xs, a, e) ↦ inr (x ∷ xs, a, ap (λ m. x ∷ m) e)
]

module _ {P : Type 0} {C : Table ℕ} {E : Table (ℕ × ℕ)} {B : Blocks P} where
  move_tuple_lem :
      (b o a k : ℕ) (v : P) (block : List (ℕ × P)) (s : AntiCache C E B)
      → E.find s.evict_table k ≡ none
      → move_tuple b o block a s (k, v)
        ≡ ok (
          (o + s.config.tuple_bytes) % 2 ^ 32,
          block ++ ((k, v) ∷ []),
          s.heap.prev a,
          evicted_one b o a k s,
        )
  unfolding move_tuple
  move_tuple_lem b o a k v block s e = ground (arith, e)

  evict_tuple_lem :
      (b o a k : ℕ) (v : P) (block : List (ℕ × P)) (s : AntiCache C E B)
      → s.heap.tuple a ≡ some (k, v)
      → evict_tuple b o block a s ≡ move_tuple b o block a s (k, v)
  unfolding evict_tuple
  evict_tuple_lem b o a k v block s e =
      ap (λ (t : Option (ℕ × P)). elim t [ none ↦ fault | some u ↦ move_tuple b o block a s u ]) e

  -- What the loop does to a state whose ring shows `l`: it moves some nodes at the end of the list.
  record Moved (b : ℕ) (block : List (ℕ × P)) (s : AntiCache C E B) (l : List ℕ)
      (r : Run (Option (List (ℕ × P) × AntiCache C E B))) : Type 0 where
    block' : List (ℕ × P)
    s' : AntiCache C E B
    kept : List ℕ
    moved : List ℕ
    run : r ≡ ok (some (block', s'))
    parts : l ≡ kept ++ moved
    valid : Valid (stored_block b block' s') kept
    same : (j : ℕ) → view (stored_block b block' s') j ≡ view (stored_block b block s) j
    counter : s'.block_id_counter ≡ s.block_id_counter
    progress : length block ≡ 0 → 0 < length l → length kept < length l

  stopped :
      (b : ℕ) (block : List (ℕ × P)) (s : AntiCache C E B) (l : List ℕ)
      → Valid (stored_block b block s) l
      → (length block ≡ 0 → 0 < length l → ⊥)
      → Moved b block s l (ok (some (block, s)))
  stopped b block s l valid done = record {
    block' = block;
    s' = s;
    kept = l;
    moved = [];
    run = refl;
    parts = sym (append-nil l);
    valid = valid;
    same = λ j. refl;
    counter = refl;
    progress = λ e h. absurd (done e h);
  }

abbrev LoopMoves : {P : Type 0} → Table ℕ → Table (ℕ × ℕ) → Blocks P → ℕ → Type 0
LoopMoves C E B fuel =
    (b o p : ℕ) (block : List (ℕ × _)) (s : AntiCache C E B) (l : List ℕ)
    → Valid (stored_block b block s) l
    → b < s.block_id_counter
    → p ≡ s.heap.prev lru_head
    → length l < fuel
    → Moved b block s l (evict_loop fuel b o block p s)

module _ {P : Type 0} {C : Table ℕ} {E : Table (ℕ × ℕ)} {B : Blocks P} where
  at_head_nil :
      (s : AntiCache C E B) (l : List ℕ) (p : ℕ)
      → Ring s.heap l
      → p ≡ s.heap.prev lru_head
      → (p == lru_head) ≡ true
      → 0 < length l
      → ⊥
  at_head_nil s l p ring at e h = elim (List-last l) [
    | inl nil ↦ omega (arith, ap length nil)
    | inr (xs, a, parts) ↦
        let r = subst (Ring s.heap) parts ring in
        let links = prev-last-but-one s.heap.next s.heap.prev lru_head lru_head a xs r.chain in
        ground (arith, links.1, at, e, r.once.0, has-append lru_head xs (a ∷ []))
  ]

  move_last :
      (fuel b o p : ℕ) (block : List (ℕ × P)) (s : AntiCache C E B) (xs : List ℕ) (a : ℕ)
      → LoopMoves C E B fuel
      → Valid (stored_block b block s) (xs ++ (a ∷ []))
      → b < s.block_id_counter
      → p ≡ s.heap.prev lru_head
      → length xs < fuel
      → Moved b block s
          (xs ++ (a ∷ []))
          (evict_tuple b o block p s >>= λ r. evict_loop fuel b r.0 r.1 r.2 r.3)
  unfolding after delete_node
  move_last fuel b o p block s xs a loop valid small at h =
      let (k, v, t, c) = valid.known a (ground (arith, has-append a xs (a ∷ []))) in
      let links =
        prev-last-but-one s.heap.next s.heap.prev lru_head lru_head a xs valid.ring.chain in
      let o' = (o + s.config.tuple_bytes) % 2 ^ 32 in
      let s₁ = evicted_one b o a k s in
      let ring = (removed b o a k v block s xs valid small t c).0 in
      let m =
        loop b o' (s.heap.prev a) (block ++ ((k, v) ∷ [])) s₁ xs
          (after-Valid b o a k v block s xs valid small t c) small
          (links.0
            ∙ sym (
                prev-last (lru_remove_self s.heap a).next (lru_remove_self s.heap a).prev lru_head
                  lru_head xs ring.chain))
          h in
      record {
        block' = m.block';
        s' = m.s';
        kept = m.kept;
        moved = m.moved ++ (a ∷ []);
        run =
            ap (λ q. evict_tuple b o block q s >>= λ r. evict_loop fuel b r.0 r.1 r.2 r.3)
              (at ∙ links.1)
            ∙ ap (λ e. e >>= λ r. evict_loop fuel b r.0 r.1 r.2 r.3)
                (evict_tuple_lem b o a k v block s t
                  ∙ move_tuple_lem b o a k v block s (valid.single k a c))
            ∙ m.run;
        parts = ap (λ l. l ++ (a ∷ [])) m.parts ∙ append_assoc m.kept m.moved (a ∷ []);
        valid = m.valid;
        same = λ j. m.same j ∙ same_view b o a k v block s xs valid small t c j;
        counter = m.counter;
        progress = λ e g.
            omega
              (arith, ap length m.parts, length-append m.kept m.moved, length-append xs (a ∷ []));
      }

  evict_loop_lem : (fuel : ℕ) → LoopMoves C E B fuel
  unfolding evict_loop
  evict_loop_lem zero b o p block s l valid small at h = absurd (omega arith)
  evict_loop_lem (suc fuel) b o p block s l valid small at h =
      either (Moved b block s l) (p == lru_head) _ _
        (λ e. stopped b block s l valid (λ _ g. at_head_nil s l p valid.ring at e g))
        (λ e.
          either (Moved b block s l) (leb evict_block_size (length block * s.config.tuple_bytes)) _
            _
            (λ q.
              stopped b block s l valid
                (λ z _. empty_block (length block) s.config.tuple_bytes q z))
            (λ q. elim (List-last l) [
              | inl nil ↦ absurd (
                  ground
                    (arith, at, e, (subst (Valid (stored_block b block s)) nil valid).ring.chain.1))
              | inr (xs, a, parts) ↦
                  subst
                    (λ l.
                      Moved b block s l
                        (evict_tuple b o block p s >>= λ r. evict_loop fuel b r.0 r.1 r.2 r.3))
                    (sym parts)
                    (move_last fuel b o p block s xs a (evict_loop_lem fuel)
                      (subst (Valid (stored_block b block s)) parts valid) small at
                      (omega (arith, ap length parts, length-append xs (a ∷ []))))
            ]))

  -- In a valid state, as long as there are block ids, `evict_bunch` does not fail an assertion and ends
  -- within as many rounds as there are cached tuples. It takes the tuples that were used least recently out
  -- of the cache, at least one if there is any, takes one block id, leaves a valid state, and changes nothing
  -- that a client sees.
  pub evict_bunch_lem :
      (fuel : ℕ) (s : AntiCache C E B) (l : List ℕ)
      → Valid s l
      → s.block_id_counter + 1 < 2 ^ 32
      → length l < fuel
      → (s' : AntiCache C E B) × (kept : List ℕ) × (moved : List ℕ) × (evict_bunch fuel s
          ≡ ok (some s'))
        × (l ≡ kept ++ moved)
        × (0 < length l → length kept < length l)
        × Valid s' kept
        × (s'.block_id_counter ≡ s.block_id_counter + 1)
        × ((k : ℕ) → view s' k ≡ view s k)
  unfolding evict_bunch
  evict_bunch_lem fuel s l valid ids h =
      let n = (s.block_id_counter + 1) % 2 ^ 32 in
      let above : s.block_id_counter < n = omega arith in
      let s₁ = record s { block_id_counter = n } in
      let m =
        evict_loop_lem fuel s.block_id_counter 0 (s.heap.prev lru_head) [] s₁ l
          (begun-Valid s l valid n above) above refl h in
      (
        stored_block s.block_id_counter m.block' m.s',
        m.kept,
        m.moved,
        ap
            (λ (e : Run (Option (List (ℕ × P) × AntiCache C E B))). e >>= λ r. elim r [
              | none ↦ ok none
              | some (block, s₂) ↦
                  ok (
                    some
                      (record s₂ { block_table = B.put s₂.block_table s.block_id_counter block }))
            ])
            m.run,
        m.parts,
        m.progress refl,
        m.valid,
        omega (arith, m.counter),
        λ k. m.same k ∙ begun-view s l valid n above k,
      )
