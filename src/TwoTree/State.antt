-- ===== src/TwoTree/State.antt =====
-- backend/twotree/ConcurrentTwoBTree.hpp: the state of the adapter. Counters that only reports read
-- are left out, as are the I/O statistics.
use tree.Prelude.{ℕ, ◌*◌, leb, Bool, true, if◌then◌else◌, ltb}
use tree.Index.{Index}
use tree.TwoTree.Record.{HotRecord}

-- `soft_capacity_bytes` is the least integer that is not below `hot_partition_capacity_bytes *
-- 0.97`. The three byte sizes are `sizeof(Key)`, `sizeof(TaggedPayload)` and
-- `leanstore::storage::PAGE_SIZE`.
pub record Config : Type 0 where
  pub hot_partition_capacity_bytes : ℕ
  pub soft_capacity_bytes : ℕ
  pub inclusive : Bool
  pub lazy_migration : Bool
  pub lazy_migration_threshold : ℕ
  pub key_bytes : ℕ
  pub tagged_bytes : ℕ

module _ {P : Type 0} (H : Index (HotRecord P)) (C : Index P) where
  -- The distributed counters are 64-bit words.
  pub record TwoTree : Type 0 where
    pub config : Config
    pub hot : H.Tree
    pub cold : C.Tree
    pub clock_hand : ℕ
    pub eviction_round : ℕ
    pub eviction_round_ref_counter : ℕ × ℕ
    pub hot_partition_item_count : ℕ
    pub hot_partition_size_bytes : ℕ
    pub upward_migrations : ℕ
    pub failed_upward_migrations : ℕ
    pub downward_migrations : ℕ
    pub eviction_items : ℕ
    pub total_lookups : ℕ
    pub lookups_hit_top : ℕ

-- What an operation learns from outside: the hot pages that the buffer manager counts at each of
-- the tests of `cache_under_pressure_soft` and `cache_under_pressure`, and the random numbers below
-- 100 that `should_migrate` and the admission draw.
pub record Draws : Type 0 where
  pub soft_pages : ℕ
  pub hard_pages : ℕ
  pub migrate_roll : ℕ
  pub admit_roll : ℕ

abbrev pub page_size : ℕ
page_size = 16384

unfoldable pub cache_under_pressure : Config → ℕ → Bool
cache_under_pressure c hot_pages = leb c.hot_partition_capacity_bytes (hot_pages * page_size)

unfoldable pub cache_under_pressure_soft : Config → ℕ → Bool
cache_under_pressure_soft c hot_pages = leb c.soft_capacity_bytes (hot_pages * page_size)

unfoldable pub should_migrate : Config → ℕ → Bool
should_migrate c roll = if c.lazy_migration then ltb roll c.lazy_migration_threshold else true
