-- ===== src/AntiCache/Access.antt =====
-- backend/anti-caching/AntiCache.hpp: the way back from a block, and the operations that a client calls.
-- `draw` is the answer of `maintain_lru`, which is random.
use tree.Prelude.{
  ℕ, zero, suc, ◌==◌, Bool, true, if◌then◌else◌, is_some, Option, none, some, List, [], ◌∷◌, Run,
  ok, fault, check, ◌>>=◌, ◌>>◌, add64, update,
}
use tree.AntiCache.Lru.{lru_move_to_head}
use tree.AntiCache.Tables.{Table, Blocks}
use tree.AntiCache.Adapter.{
  AntiCache, cache_under_pressure, evict_bunch, evict_till_safe, admit_element_no_eviction,
  admit_element,
}

module _ {P : Type 0} {C : Table ℕ} {E : Table (ℕ × ℕ)} {B : Blocks P} where
  -- The loop over the tuples of a block.
  unfoldable pub admit_tuples : ℕ → List (ℕ × P) → AntiCache C E B → Run (AntiCache C E B)
  unfolding admit_element_no_eviction
  admit_tuples k [] s = ok s
  admit_tuples k (t ∷ ts) s = admit_element_no_eviction s t.0 t.1 (t.0 == k) >>= λ s₁.
      check (is_some (E.find s₁.evict_table t.0))
      >> admit_tuples k ts (record s₁ { evict_table = E.erase s₁.evict_table t.0 })

  -- `bring_tuple_from_block_table` up to its last test.
  unfoldable pub bring_block : ℕ → ℕ → AntiCache C E B → Run (AntiCache C E B)
  unfolding admit_tuples
  bring_block k block_id s =
      check (is_some (E.find s.evict_table k)) >> elim (B.get s.block_table block_id) [
        | none ↦ fault
        | some block ↦ admit_tuples k block s >>= λ s₁.
            ok (record s₁ { block_table = B.delete s₁.block_table block_id })
      ]

  unfoldable pub bring_tuple_from_block_table :
      ℕ → ℕ → ℕ → ℕ → AntiCache C E B → Run (Option (AntiCache C E B))
  unfolding bring_block cache_under_pressure evict_till_safe
  bring_tuple_from_block_table bunch fuel k block_id s = bring_block k block_id s >>= λ s₁.
      if cache_under_pressure s₁ then evict_till_safe bunch fuel s₁ else ok (some s₁)

  -- What a hit does with the node at `p`.
  abbrev pub touch : Bool → ℕ → AntiCache C E B → AntiCache C E B
  touch draw p s = record s {
    heap = if draw then lru_move_to_head s.heap p else s.heap;
    hit_count = add64 s.hit_count 1;
  }

  -- `rounds` bounds the calls of `lookup` by itself; `none` means that a bound was met.
  unfoldable pub lookup :
      ℕ → ℕ → ℕ → Bool → AntiCache C E B → ℕ → Run (Option (Option P × AntiCache C E B))
  unfolding bring_tuple_from_block_table
  lookup bunch fuel zero draw s k = ok none
  lookup bunch fuel (suc rounds) draw s k = elim (C.find s.cache k) [
    | some p ↦ elim (s.heap.tuple p) [
      | none ↦ fault
      | some t ↦ ok (some (some t.1, touch draw p s))
    ]
    | none ↦ elim (E.find s.evict_table k) [
      | none ↦ ok (some (none, s))
      | some r ↦
          bring_tuple_from_block_table bunch fuel k r.0
            (record s { miss_count = add64 s.miss_count 1 })
          >>= λ b. elim b [ none ↦ ok none | some s₁ ↦ lookup bunch fuel rounds draw s₁ k ]
    ]
  ]

  unfoldable pub update_cached : Bool → ℕ → P → AntiCache C E B → Run (AntiCache C E B)
  update_cached draw p v s = elim (s.heap.tuple p) [
    | none ↦ fault
    | some t ↦ ok (
        touch draw p
          (record s { heap = record s.heap { tuple = update s.heap.tuple p (some (t.0, v)) } }))
  ]

  unfoldable pub update_key :
      ℕ → ℕ → ℕ → Bool → AntiCache C E B → ℕ → P → Run (Option (AntiCache C E B))
  unfolding bring_tuple_from_block_table update_cached admit_element
  update_key bunch fuel zero draw s k v = ok none
  update_key bunch fuel (suc rounds) draw s k v = elim (C.find s.cache k) [
    | some p ↦ update_cached draw p v s >>= λ s₁. ok (some s₁)
    | none ↦ elim (E.find s.evict_table k) [
      | none ↦ admit_element bunch fuel s k v true
      | some r ↦
          bring_tuple_from_block_table bunch fuel k r.0
            (record s { miss_count = add64 s.miss_count 1 })
          >>= λ b. elim b [ none ↦ ok none | some s₁ ↦ update_key bunch fuel rounds draw s₁ k v ]
    ]
  ]

  unfoldable pub put : ℕ → ℕ → ℕ → Bool → AntiCache C E B → ℕ → P → Run (Option (AntiCache C E B))
  unfolding update_key
  put bunch fuel rounds draw s k v = update_key bunch fuel rounds draw s k v

  unfoldable pub clear_stats : AntiCache C E B → AntiCache C E B
  clear_stats s = record s { hit_count = 0; miss_count = 0 }

  -- `fuel` bounds the rounds.
  unfoldable pub evict_all : ℕ → ℕ → AntiCache C E B → Run (Option (AntiCache C E B))
  unfolding evict_bunch
  evict_all bunch zero s = ok none
  evict_all bunch (suc fuel) s = elim (C.item_count s.cache) [
    | zero ↦ ok (some s)
    | suc n ↦
        evict_bunch bunch s >>= λ r. elim r [ none ↦ ok none | some s₁ ↦ evict_all bunch fuel s₁ ]
  ]
