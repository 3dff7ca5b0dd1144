-- ===== src/AntiCache/Updating.antt =====
-- backend/anti-caching/AntiCache.hpp: the branches of `update`, and the calls of a client.
use tree.Prelude.{
  ℕ, suc, ◌≡◌, ◌==◌, inl, inr, true, false, Bool, Option, none, some, List, ◌∷◌, arith, ap, ◌∙◌,
  Option-cases, if◌then◌else◌, Run, ok, ◌>>=◌, add64, if_false,
}
use tree.AntiCache.Tables.{Table, Blocks}
use tree.AntiCache.Adapter.{
  insert, AntiCache, cache_under_pressure, admit_element, admit_element_no_eviction,
}
use tree.AntiCache.Valid.{Valid, view}
use tree.AntiCache.Access.{
  bring_block, bring_tuple_from_block_table, touch, update_cached, update_key, lookup,
}
use tree.AntiCache.Joining.{listed, joined, admit_run, joined-Valid, joined-view}
use tree.AntiCache.Touching.{touched}
use tree.AntiCache.Found.{missed, block_here, bring_calm, now_cached, evicted_view, lookup_lem}
use tree.AntiCache.Rewriting.{rewritten, rewritten-Valid, rewritten-view}

module _ {P : Type 0} {C : Table ℕ} {E : Table (ℕ × ℕ)} {B : Blocks P} where
  -- An update that ends in a valid state, where a client sees the new payload and nothing else changed.
  abbrev Updated : ℕ → ℕ → ℕ → ℕ → P → Bool → AntiCache C E B → Type 0
  Updated bunch fuel rounds k v draw s =
      (s' : AntiCache C E B) × (l' : List ℕ) × (update_key bunch fuel rounds draw s k v
        ≡ ok (some s'))
      × Valid s' l'
      × ((j : ℕ) → view s' j ≡ (if k == j then some v else view s j))

  -- The parts of `update_key`: with what the two tables answer, and after the block came.
  abbrev again :
      ℕ → ℕ → ℕ → Bool → ℕ → P → Run (Option (AntiCache C E B)) → Run (Option (AntiCache C E B))
  again bunch fuel rounds draw k v r =
      r >>= λ b. elim b [ none ↦ ok none | some s₁ ↦ update_key bunch fuel rounds draw s₁ k v ]

  abbrev cached_or :
      ℕ
      → ℕ
      → ℕ
      → Bool
      → AntiCache C E B
      → ℕ
      → P
      → Option (ℕ × ℕ)
      → Option ℕ
      → Run (Option (AntiCache C E B))
  cached_or bunch fuel rounds draw s k v t c = elim c [
    | some p ↦ update_cached draw p v s >>= λ s₁. ok (some s₁)
    | none ↦ elim t [
      | none ↦ admit_element bunch fuel s k v true
      | some r ↦ again bunch fuel rounds draw k v (
          bring_tuple_from_block_table bunch fuel k r.0
            (record s { miss_count = add64 s.miss_count 1 }))
    ]
  ]

  module _ (bunch fuel rounds k : ℕ) (v : P) (draw : Bool) where
    update_cached-run :
        (s : AntiCache C E B) (p : ℕ) (w : P)
        → s.heap.tuple p ≡ some (k, w)
        → update_cached draw p v s ≡ ok (touch draw p (rewritten p k v s))
    unfolding update_cached
    update_cached-run s p w t = ground (arith, t)

    hit :
        (s : AntiCache C E B) (l : List ℕ) (p : ℕ)
        → Valid s l
        → C.find s.cache k ≡ some p
        → Updated bunch fuel (suc rounds) k v draw s
    unfolding update_key
    hit s l p valid e =
        let (h, w, t) = valid.shown k p e in
        let after = touched draw p (rewritten p k v s) l (rewritten-Valid p k v s l valid e) h in
        (
          touch draw p (rewritten p k v s),
          after.l',
          ap (cached_or bunch fuel rounds draw s k v (E.find s.evict_table k)) e
              ∙ ap (λ (r : Run (AntiCache C E B)). r >>= λ s₁. ok (some s₁))
                  (update_cached-run s p w t),
          after.valid,
          λ j. after.same j ∙ rewritten-view p k v s l valid e j,
        )

    admit_calm :
        (s : AntiCache C E B)
        → C.find s.cache k ≡ none
        → cache_under_pressure s ≡ false
        → admit_element bunch fuel s k v true ≡ ok (some (joined true k v s))
    unfolding admit_element
    admit_calm s e calm =
        ap
          (λ (r : Run (Option (AntiCache C E B))). r >>= λ b. elim b [
            | none ↦ ok none
            | some s' ↦ admit_element_no_eviction s' k v true >>= λ t. ok (some t)
          ])
          (if_false (cache_under_pressure s) _ _ calm)
        ∙ ap (λ (r : Run (AntiCache C E B)). r >>= λ t. ok (some t)) (admit_run s k v true e)

    new_key :
        (s : AntiCache C E B) (l : List ℕ)
        → Valid s l
        → C.find s.cache k ≡ none
        → E.find s.evict_table k ≡ none
        → cache_under_pressure s ≡ false
        → Updated bunch fuel (suc rounds) k v draw s
    unfolding update_key
    new_key s l valid e t calm = (
      joined true k v s,
      listed true s.next_address l,
      ap (cached_or bunch fuel rounds draw s k v (E.find s.evict_table k)) e
          ∙ ap (λ q. cached_or bunch fuel rounds draw s k v q none) t
          ∙ admit_calm s e calm,
      joined-Valid true k v s l valid e t,
      joined-view true k v s l valid e t,
    )

    miss_run :
        (s s' : AntiCache C E B) (b o : ℕ)
        → C.find s.cache k ≡ none
        → E.find s.evict_table k ≡ some (b, o)
        → bring_tuple_from_block_table bunch fuel k b
            (record s { miss_count = add64 s.miss_count 1 })
          ≡ ok (some s')
        → update_key bunch fuel (suc rounds) draw s k v ≡ update_key bunch fuel rounds draw s' k v
    unfolding update_key
    miss_run s s' b o e t r =
        ap (cached_or bunch fuel rounds draw s k v (E.find s.evict_table k)) e
        ∙ ap (λ q. cached_or bunch fuel rounds draw s k v q none) t
        ∙ ap (again bunch fuel rounds draw k v) r

  update_lem :
      (bunch fuel rounds k : ℕ) (v : P) (draw : Bool) (s : AntiCache C E B) (l : List ℕ)
      → Valid s l
      → cache_under_pressure s ≡ false
      → ((b : ℕ) (s₁ : AntiCache C E B)
          → bring_block k b (record s { miss_count = add64 s.miss_count 1 }) ≡ ok s₁
          → cache_under_pressure s₁ ≡ false)
      → Updated bunch fuel (suc (suc rounds)) k v draw s
  update_lem bunch fuel rounds k v draw s l valid now calm =
      elim (Option-cases (C.find s.cache k)) [
        | inr (p, e) ↦ hit bunch fuel (suc rounds) k v draw s l p valid e
        | inl e ↦ elim (Option-cases (E.find s.evict_table k)) [
          | inl t ↦ new_key bunch fuel (suc rounds) k v draw s l valid e t now
          | inr ((b, o), t) ↦
              let f = block_here bunch fuel rounds k draw s l b o valid t in
              let (w, u) = evicted_view s l k b o valid t e in
              let (p, c) = now_cached bunch fuel rounds k draw f.s' w (f.same k ∙ u) f.back in
              let a = hit bunch fuel rounds k v draw f.s' f.l' p f.valid c in
              (
                a.0,
                a.1,
                miss_run bunch fuel (suc rounds) k v draw s f.s' b o e t (
                      bring_calm bunch fuel rounds k draw (missed bunch fuel rounds k draw s) f.s' b
                        f.run (calm b f.s' f.run))
                    ∙ a.2,
                a.3,
                λ j. a.4 j ∙ ap (λ q. if k == j then some v else q) (f.same j),
              )
        ]
      ]

  -- In a valid state below the threshold, `insert` of a key that a client does not see, without a tombstone,
  -- puts the tuple first in the list and changes what a client sees of this key alone.
  insert_lem :
      (bunch fuel k : ℕ) (v : P) (s : AntiCache C E B) (l : List ℕ)
      → Valid s l
      → C.find s.cache k ≡ none
      → E.find s.evict_table k ≡ none
      → cache_under_pressure s ≡ false
      → (s' : AntiCache C E B) × (insert bunch fuel s k v ≡ ok (some s'))
        × Valid s' (s.next_address ∷ l)
        × ((j : ℕ) → view s' j ≡ (if k == j then some v else view s j))
  unfolding insert
  insert_lem bunch fuel k v s l valid e t calm = (
    joined true k v s,
    admit_calm bunch fuel 0 k v true s e calm,
    joined-Valid true k v s l valid e t,
    joined-view true k v s l valid e t,
  )

  -- In a valid state below the threshold, and when the cache is still below it after a block came back,
  -- `lookup` and `update` of a key fail no assertion and call themselves at most once. `lookup` answers what a
  -- client sees of the key and changes nothing that a client sees; after `update` a client sees the new payload
  -- under the key, and the same under every other key. Both leave a valid state.
  pub lookup-update :
      (bunch fuel rounds k : ℕ) (v : P) (draw : Bool) (s : AntiCache C E B) (l : List ℕ)
      → Valid s l
      → cache_under_pressure s ≡ false
      → ((b : ℕ) (s₁ : AntiCache C E B)
          → bring_block k b (record s { miss_count = add64 s.miss_count 1 }) ≡ ok s₁
          → cache_under_pressure s₁ ≡ false)
      → ((s' : AntiCache C E B) × (l' : List ℕ) × (lookup bunch fuel (suc (suc rounds)) draw s k
            ≡ ok (some (view s k, s')))
          × Valid s' l'
          × ((j : ℕ) → view s' j ≡ view s j))
        × ((s' : AntiCache C E B) × (l' : List ℕ) × (update_key bunch fuel
                (suc (suc rounds))
                draw
                s
                k
                v
              ≡ ok (some s'))
            × Valid s' l'
            × ((j : ℕ) → view s' j ≡ (if k == j then some v else view s j)))
  lookup-update bunch fuel rounds k v draw s l valid now calm = (
    lookup_lem bunch fuel rounds k draw s l valid calm,
    update_lem bunch fuel rounds k v draw s l valid now calm,
  )
