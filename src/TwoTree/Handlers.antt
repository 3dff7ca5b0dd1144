-- ===== src/TwoTree/Handlers.antt =====
-- backend/twotree/ConcurrentTwoBTree.hpp: the public operations from their first line on, with the
-- eviction that all but `remove` and `scan` try first.
use tree.Prelude.{ℕ, Bool, Option, List, Run, ◌>>=◌}
use tree.Index.{Index}
use tree.TwoTree.Record.{HotRecord}
use tree.TwoTree.State.{TwoTree, Draws}
use tree.TwoTree.Access.{Round, lookup_rounds, insert_locked, update_locked, put_locked}
use tree.TwoTree.Evict.{Locks, try_eviction}

-- `hot_pages` and `locks` are what the eviction meets.
module _ {P : Type 0} (H : Index (HotRecord P)) (C : Index P) (hot_pages : ℕ) (locks : Locks) where
  unfoldable pub lookup : TwoTree H C → List Round → ℕ → P → Run (Option (Bool × P) × TwoTree H C)
  lookup s rounds k v = do s' ← try_eviction H C s hot_pages locks; lookup_rounds H C s' rounds k v

  unfoldable pub insert : TwoTree H C → ℕ → P → Run (TwoTree H C)
  insert s k v = do s' ← try_eviction H C s hot_pages locks; insert_locked H C s' k v

  unfoldable pub update : TwoTree H C → Draws → ℕ → P → Run (TwoTree H C)
  update s d k v = do s' ← try_eviction H C s hot_pages locks; update_locked H C s' d k v

  unfoldable pub put : TwoTree H C → ℕ → P → Run (TwoTree H C)
  put s k v = do s' ← try_eviction H C s hot_pages locks; put_locked H C s' k v
