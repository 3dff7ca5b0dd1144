-- ===== src/AntiCache/Found.antt =====
-- backend/anti-caching/AntiCache.hpp: the branches of `lookup`.
use tree.Prelude.{
  ℕ, suc, ◌≡◌, inl, inr, false, Bool, Option, none, some, List, arith, refl, ap, ◌∙◌, Option-cases,
  if◌then◌else◌, Run, ok, fault, ◌>>=◌, add64, if_false,
}
use tree.AntiCache.Tables.{Table, Blocks}
use tree.AntiCache.Adapter.{AntiCache, cache_under_pressure, evict_till_safe}
use tree.AntiCache.Valid.{Valid, view}
use tree.AntiCache.Access.{bring_block, bring_tuple_from_block_table, touch, lookup}
use tree.AntiCache.Fetching.{Fetched, fetched}
use tree.AntiCache.Touching.{same-Ring-Valid, touched}

module _ {P : Type 0} {C : Table ℕ} {E : Table (ℕ × ℕ)} {B : Blocks P} where
  -- The parts of `lookup`: with what the two tables answer, and after the block came.
  abbrev again :
      ℕ
      → ℕ
      → ℕ
      → Bool
      → ℕ
      → Run (Option (AntiCache C E B))
      → Run (Option (Option P × AntiCache C E B))
  again bunch fuel rounds draw k r =
      r >>= λ b. elim b [ none ↦ ok none | some s₁ ↦ lookup bunch fuel rounds draw s₁ k ]

  abbrev cached_or :
      ℕ
      → ℕ
      → ℕ
      → Bool
      → AntiCache C E B
      → ℕ
      → Option (ℕ × ℕ)
      → Option ℕ
      → Run (Option (Option P × AntiCache C E B))
  cached_or bunch fuel rounds draw s k t c = elim c [
    | some p ↦ elim (s.heap.tuple p) [
      | none ↦ fault
      | some t ↦ ok (some (some t.1, touch draw p s))
    ]
    | none ↦ elim t [
      | none ↦ ok (some (none, s))
      | some r ↦ again bunch fuel rounds draw k (
          bring_tuple_from_block_table bunch fuel k r.0
            (record s { miss_count = add64 s.miss_count 1 }))
    ]
  ]

  -- A lookup that ends with what the client sees, in a valid state that looks the same.
  abbrev Answered : ℕ → ℕ → ℕ → ℕ → Bool → AntiCache C E B → Type 0
  Answered bunch fuel rounds k draw s =
      (s' : AntiCache C E B) × (l' : List ℕ) × (lookup bunch fuel rounds draw s k
        ≡ ok (some (view s k, s')))
      × Valid s' l'
      × ((j : ℕ) → view s' j ≡ view s j)

  module _ (bunch fuel rounds k : ℕ) (draw : Bool) where
    hit :
        (s : AntiCache C E B) (l : List ℕ) (p : ℕ)
        → Valid s l
        → C.find s.cache k ≡ some p
        → Answered bunch fuel (suc rounds) k draw s
    unfolding lookup
    hit s l p valid e =
        let (h, v, t) = valid.shown k p e in
        let after = touched draw p s l valid h in
        (touch draw p s, after.l', ground (arith, e, t), after.valid, after.same)

    absent :
        (s : AntiCache C E B) (l : List ℕ)
        → Valid s l
        → C.find s.cache k ≡ none
        → E.find s.evict_table k ≡ none
        → Answered bunch fuel (suc rounds) k draw s
    unfolding lookup
    absent s l valid e t = (s, l, ground (arith, e, t), valid, λ j. refl)

    abbrev pub missed : AntiCache C E B → AntiCache C E B
    missed s = record s { miss_count = add64 s.miss_count 1 }

    pub missed-Valid : (s : AntiCache C E B) (l : List ℕ) → Valid s l → Valid (missed s) l
    missed-Valid s l valid =
        same-Ring-Valid s l l s.heap s.hit_count (add64 s.miss_count 1) valid valid.ring refl
          (λ x. refl) refl

    -- The block of a tombstone is there.
    pub block_here :
        (s : AntiCache C E B) (l : List ℕ) (b o : ℕ)
        → Valid s l
        → E.find s.evict_table k ≡ some (b, o)
        → Fetched k b (missed s)
    block_here s l b o valid t = elim (Option-cases (B.get s.block_table b)) [
      | inl e ↦ let (_, v, i) = valid.stored k b o t in absurd (ground (arith, e, i))
      | inr (block, e) ↦ fetched (missed s) l (missed-Valid s l valid) k b o t block e
    ]

    pub bring_calm :
        (s s' : AntiCache C E B) (b : ℕ)
        → bring_block k b s ≡ ok s'
        → cache_under_pressure s' ≡ false
        → bring_tuple_from_block_table bunch fuel k b s ≡ ok (some s')
    unfolding bring_tuple_from_block_table
    bring_calm s s' b e calm =
        ap
          (λ (r : Run (AntiCache C E B)). r >>= λ s₁.
            if cache_under_pressure s₁ then evict_till_safe bunch fuel s₁ else ok (some s₁))
          e
        ∙ if_false (cache_under_pressure s') _ _ calm

    pub now_cached :
        (s : AntiCache C E B) (v : P)
        → view s k ≡ some v
        → E.find s.evict_table k ≡ none
        → (p : ℕ) × (C.find s.cache k ≡ some p)
    now_cached s v e t = elim (Option-cases (C.find s.cache k)) [
      | inl n ↦ absurd (ground (arith, e, t, n))
      | inr r ↦ r
    ]

    miss_run :
        (s s' : AntiCache C E B) (b o : ℕ)
        → C.find s.cache k ≡ none
        → E.find s.evict_table k ≡ some (b, o)
        → bring_tuple_from_block_table bunch fuel k b (missed s) ≡ ok (some s')
        → lookup bunch fuel (suc rounds) draw s k ≡ lookup bunch fuel rounds draw s' k
    unfolding lookup
    miss_run s s' b o e t r =
        ap (cached_or bunch fuel rounds draw s k (E.find s.evict_table k)) e
        ∙ ap (λ q. cached_or bunch fuel rounds draw s k q none) t
        ∙ ap (again bunch fuel rounds draw k) r

  pub evicted_view :
      (s : AntiCache C E B) (l : List ℕ) (k b o : ℕ)
      → Valid s l
      → E.find s.evict_table k ≡ some (b, o)
      → C.find s.cache k ≡ none
      → (v : P) × (view s k ≡ some v)
  evicted_view s l k b o valid t e =
      let (_, v, i) = valid.stored k b o t in (v, ground (arith, e, t, i))

  pub lookup_lem :
      (bunch fuel rounds k : ℕ) (draw : Bool) (s : AntiCache C E B) (l : List ℕ)
      → Valid s l
      → ((b : ℕ) (s₁ : AntiCache C E B)
          → bring_block k b (record s { miss_count = add64 s.miss_count 1 }) ≡ ok s₁
          → cache_under_pressure s₁ ≡ false)
      → (s' : AntiCache C E B) × (l' : List ℕ) × (lookup bunch fuel (suc (suc rounds)) draw s k
          ≡ ok (some (view s k, s')))
        × Valid s' l'
        × ((j : ℕ) → view s' j ≡ view s j)
  lookup_lem bunch fuel rounds k draw s l valid calm = elim (Option-cases (C.find s.cache k)) [
    | inr (p, e) ↦ (hit bunch fuel (suc rounds) k draw s l p valid e)
    | inl e ↦ elim (Option-cases (E.find s.evict_table k)) [
      | inl t ↦ (absent bunch fuel (suc rounds) k draw s l valid e t)
      | inr ((b, o), t) ↦
          let f = block_here bunch fuel rounds k draw s l b o valid t in
          let (v, w) = evicted_view s l k b o valid t e in
          let (p, c) = now_cached bunch fuel rounds k draw f.s' v (f.same k ∙ w) f.back in
          let a = hit bunch fuel rounds k draw f.s' f.l' p f.valid c in
          (
            a.0,
            a.1,
            miss_run bunch fuel (suc rounds) k draw s f.s' b o e t (
                  bring_calm bunch fuel rounds k draw (missed bunch fuel rounds k draw s) f.s' b
                    f.run (calm b f.s' f.run))
                ∙ a.2
                ∙ ap (λ q. ok (some (q, a.0))) (f.same k),
            a.3,
            λ j. a.4 j ∙ f.same j,
          )
    ]
  ]
