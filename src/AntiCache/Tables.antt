-- ===== src/AntiCache/Tables.antt =====
-- backend/anti-caching/AntiCache.hpp: what the adapter asks of its two `stx::btree_map`s and of RocksDB.
use tree.Prelude.{ℕ, ◌≡◌, ◌==◌, if◌then◌else◌, Option, none, some, List, is_some, ◌+◌, ◌-◌}

-- `assign` is an assignment through `operator[]`; `bytes` is what the leaves and the inner nodes take, and
-- `item_count` the number of keys.
pub record Table (V : Type 0) : Type 1 where
  pub Map : Type 0
  pub find : Map → ℕ → Option V
  pub assign : Map → ℕ → V → Map
  pub erase : Map → ℕ → Map
  pub bytes : Map → ℕ
  pub item_count : Map → ℕ
  pub find-assign :
      (m : Map) (k j : ℕ) (v : V) → find (assign m k v) j ≡ (if k == j then some v else find m j)
  pub count-assign :
      (m : Map) (k : ℕ) (v : V)
      → item_count (assign m k v) ≡ (if is_some (find m k) then item_count m else item_count m + 1)
  pub count-erase :
      (m : Map) (k : ℕ)
      → item_count (erase m k) ≡ (if is_some (find m k) then item_count m - 1 else item_count m)
  pub find-erase : (m : Map) (k j : ℕ) → find (erase m k) j ≡ (if k == j then none else find m j)

-- A block is the list of its tuples; the key of a block is its id.
pub record Blocks (P : Type 0) : Type 1 where
  pub Db : Type 0
  pub get : Db → ℕ → Option (List (ℕ × P))
  pub put : Db → ℕ → List (ℕ × P) → Db
  pub delete : Db → ℕ → Db
  pub get-put :
      (d : Db) (b c : ℕ) (l : List (ℕ × P))
      → get (put d b l) c ≡ (if b == c then some l else get d c)
  pub get-delete : (d : Db) (b c : ℕ) → get (delete d b) c ≡ (if b == c then none else get d c)
