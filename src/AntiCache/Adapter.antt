-- ===== src/AntiCache/Adapter.antt =====
-- backend/anti-caching/AntiCache.hpp: `AntiCacheAdapter`. `fault` is a failed assertion, an access through
-- an iterator at the end or to a freed node.
use tree.Prelude.{
  ℕ, zero, suc, ◌+◌, ◌*◌, ◌%◌, ◌^◌, ◌==◌, Bool, true, false, if◌then◌else◌, leb, is_some, Option,
  none, some, List, [], ◌∷◌, ◌++◌, length, Run, ok, fault, check, ◌>>=◌, ◌>>◌, not, update,
}
use tree.AntiCache.Lru.{Heap, null, lru_head, lru_remove_self, lru_move_to_head, lru_move_to_tail}
use tree.AntiCache.Tables.{Table, Blocks}

-- `eviction_bytes` is the least integer that is not below `cache_capacity_bytes * eviction_threshold`;
-- `tagged_bytes` is `sizeof(TaggedPayload)`, and `tuple_bytes` its part without the two links.
pub record Config : Type 0 where
  pub eviction_bytes : ℕ
  pub tagged_bytes : ℕ
  pub tuple_bytes : ℕ

abbrev pub evict_block_size : ℕ
evict_block_size = 4096

-- New nodes are put at ascending addresses, from `next_address` on.
pub record AntiCache {P : Type 0} (C : Table ℕ) (E : Table (ℕ × ℕ)) (B : Blocks P) : Type 0 where
  pub config : Config
  pub heap : Heap P
  pub next_address : ℕ
  pub cache : C.Map
  pub evict_table : E.Map
  pub block_table : B.Db
  pub block_id_counter : ℕ
  pub hit_count : ℕ
  pub miss_count : ℕ

-- `delete p`
unfoldable pub delete_node : {P : Type 0} → Heap P → ℕ → Heap P
delete_node h p = record h { tuple = update h.tuple p none }

module _ {P : Type 0} {C : Table ℕ} {E : Table (ℕ × ℕ)} {B : Blocks P} where
  -- The constructor, with the tables that it gets: `lru_head` is linked to itself.
  unfoldable pub new_adapter : Config → C.Map → E.Map → B.Db → AntiCache C E B
  new_adapter config cache evict_table block_table = record {
    config = config;
    heap = record {
      next = λ a. if a == lru_head then lru_head else null;
      prev = λ a. if a == lru_head then lru_head else null;
      tuple = λ a. none;
    };
    next_address = 2;
    cache = cache;
    evict_table = evict_table;
    block_table = block_table;
    block_id_counter = 0;
    hit_count = 0;
    miss_count = 0;
  }

  unfoldable pub cache_under_pressure : AntiCache C E B → Bool
  cache_under_pressure s =
      leb s.config.eviction_bytes
        (C.bytes s.cache + C.item_count s.cache * s.config.tagged_bytes + E.bytes s.evict_table)

  -- What a round does with the tuple `t` at `p`.
  unfoldable pub move_tuple :
      ℕ
      → ℕ
      → List (ℕ × P)
      → ℕ
      → AntiCache C E B
      → ℕ × P
      → Run (ℕ × List (ℕ × P) × ℕ × AntiCache C E B)
  unfolding delete_node
  move_tuple block_id tuple_offset block p s t =
      check (not (is_some (E.find s.evict_table t.0)))
      >> ok (
        (tuple_offset + s.config.tuple_bytes) % 2 ^ 32,
        block ++ (t ∷ []),
        s.heap.prev p,
        record s {
          evict_table = E.assign s.evict_table t.0 (block_id, tuple_offset);
          heap = delete_node (lru_remove_self s.heap p) p;
          cache = C.erase s.cache t.0;
        },
      )

  -- The part of a round after its tests: the tuple at `p` goes to the block.
  unfoldable pub evict_tuple :
      ℕ → ℕ → List (ℕ × P) → ℕ → AntiCache C E B → Run (ℕ × List (ℕ × P) × ℕ × AntiCache C E B)
  unfolding move_tuple
  evict_tuple block_id tuple_offset block p s = elim (s.heap.tuple p) [
    | none ↦ fault
    | some t ↦ move_tuple block_id tuple_offset block p s t
  ]

  -- The loop from the tail of the list backward; `none` means that the fuel ran out.
  unfoldable pub evict_loop :
      ℕ → ℕ → ℕ → List (ℕ × P) → ℕ → AntiCache C E B → Run (Option (List (ℕ × P) × AntiCache C E B))
  unfolding evict_tuple
  evict_loop zero block_id tuple_offset block p s = ok none
  evict_loop (suc fuel) block_id tuple_offset block p s = elim (p == lru_head) [
    | true ↦ ok (some (block, s))
    | false ↦ elim (leb evict_block_size (length block * s.config.tuple_bytes)) [
      | true ↦ ok (some (block, s))
      | false ↦ evict_tuple block_id tuple_offset block p s >>= λ r.
          evict_loop fuel block_id r.0 r.1 r.2 r.3
    ]
  ]

  unfoldable pub evict_bunch : ℕ → AntiCache C E B → Run (Option (AntiCache C E B))
  unfolding evict_loop
  evict_bunch fuel s =
      let s₁ = record s { block_id_counter = (s.block_id_counter + 1) % 2 ^ 32 } in
      evict_loop fuel s.block_id_counter 0 [] (s.heap.prev lru_head) s₁ >>= λ r. elim r [
        | none ↦ ok none
        | some (block, s₂) ↦
            ok (some (record s₂ { block_table = B.put s₂.block_table s.block_id_counter block }))
      ]

  -- The loop ends where the tables need little room; `none` means that it took more rounds than the fuel.
  unfoldable pub evict_till_safe : ℕ → ℕ → AntiCache C E B → Run (Option (AntiCache C E B))
  unfolding cache_under_pressure evict_bunch
  evict_till_safe bunch zero s = ok none
  evict_till_safe bunch (suc fuel) s = elim (cache_under_pressure s) [
    | false ↦ ok (some s)
    | true ↦ evict_bunch bunch s >>= λ r. elim r [
      | none ↦ ok none
      | some s' ↦ evict_till_safe bunch fuel s'
    ]
  ]

  unfoldable pub admit_element_no_eviction : AntiCache C E B → ℕ → P → Bool → Run (AntiCache C E B)
  admit_element_no_eviction s k v head =
      check (not (is_some (C.find s.cache k)))
      >> (let p = s.next_address in
          let new : Heap P = record {
            next = update s.heap.next p null;
            prev = update s.heap.prev p null;
            tuple = update s.heap.tuple p (some (k, v));
          } in
          ok (record s {
            next_address = p + 1;
            cache = C.assign s.cache k p;
            heap = if head then lru_move_to_head new p else lru_move_to_tail new p;
          }))

  unfoldable pub admit_element :
      ℕ → ℕ → AntiCache C E B → ℕ → P → Bool → Run (Option (AntiCache C E B))
  unfolding cache_under_pressure evict_till_safe admit_element_no_eviction
  admit_element bunch fuel s k v head =
      (if cache_under_pressure s then evict_till_safe bunch fuel s else ok (some s)) >>= λ r.
      elim r [
        | none ↦ ok none
        | some s' ↦ admit_element_no_eviction s' k v head >>= λ t. ok (some t)
      ]

  unfoldable pub insert : ℕ → ℕ → AntiCache C E B → ℕ → P → Run (Option (AntiCache C E B))
  unfolding admit_element
  insert bunch fuel s k v = admit_element bunch fuel s k v true
