-- ===== src/AntiCache/Opened.antt =====
-- backend/anti-caching/AntiCache.hpp: the state that the constructor leaves.
use tree.Prelude.{ℕ, ◌≡◌, none, [], arith, refl}
use tree.AntiCache.Tables.{Table, Blocks}
use tree.AntiCache.Adapter.{Config, new_adapter}
use tree.AntiCache.Valid.{Valid}

module _ {P : Type 0} {C : Table ℕ} {E : Table (ℕ × ℕ)} {B : Blocks P} where
  -- With empty tables, the constructor leaves a valid state with an empty list.
  new_adapter-Valid :
      (config : Config) (cache : C.Map) (evict_table : E.Map) (block_table : B.Db)
      → ((k : ℕ) → C.find cache k ≡ none)
      → C.item_count cache ≡ 0
      → ((k : ℕ) → E.find evict_table k ≡ none)
      → ((b : ℕ) → B.get block_table b ≡ none)
      → Valid (new_adapter {C = C} {E = E} {B = B} config cache evict_table block_table) []
  unfolding new_adapter
  new_adapter-Valid config cache evict_table block_table c n t d = record {
    ring = record { chain = (refl, refl); once = (refl, tt); real = refl };
    shown = λ k a e. absurd (ground (arith, c k, e));
    known = λ a h. absurd (ground (arith, h));
    single = λ k a e. t k;
    stored = λ k b o e. absurd (ground (arith, t k, e));
    tombs = λ k b v e. absurd (ground (arith, d b, e));
    allocated = λ a h. absurd (ground (arith, h));
    keys = λ b m e. absurd (ground (arith, d b, e));
    room = omega arith;
    counted = n;
  }
