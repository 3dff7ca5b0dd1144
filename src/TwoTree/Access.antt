-- ===== src/TwoTree/Access.antt =====
-- backend/twotree/ConcurrentTwoBTree.hpp: `lookup`, `insert`, `remove`, `update` and `put`, from
-- where they have the lock of their key; `Handlers` adds what comes before.
use tree.Prelude.{
  ℕ, ◌+◌, Bool, true, false, not, if◌then◌else◌, ◌&&◌, ltb, Option, none, some, List, [], ◌∷◌, Run,
  ok, fault, check, ◌>>=◌, ◌>>◌, add64, sub64, is_some,
}
use tree.Index.{Index, is_ok}
use tree.TwoTree.Record.{
  HotRecord, TaggedPayload, tagged, delete_mark, set_modified, set_referenced, referenced,
  get_reference_count, bump_reference_count,
}
use tree.TwoTree.State.{
  TwoTree, Draws, cache_under_pressure, cache_under_pressure_soft, should_migrate,
}
use tree.TwoTree.Admit.{admit_element, admit_element_might_fail, admit_delete_mark_element}

-- What the lookup callback does to a hot record in place.
unfoldable pub touch : {P : Type 0} → HotRecord P → HotRecord P
unfolding referenced set_referenced get_reference_count bump_reference_count
touch delete_mark = delete_mark
touch (tagged tp) =
    let tp' : TaggedPayload _ = if referenced tp then tp else set_referenced tp in
    tagged (if ltb (get_reference_count tp') 7 then bump_reference_count tp' else tp')

-- What the update callback does to a hot record in place.
unfoldable pub overwrite : {P : Type 0} → P → HotRecord P → HotRecord P
unfolding set_referenced set_modified
overwrite v delete_mark = delete_mark
overwrite v (tagged tp) = tagged (record (set_modified (set_referenced tp)) { payload = v })

-- A found record, the payload `v` that the caller sees, and whether migration failed.
pub record Found (P : Type 0) : Type 0 where
  pub res : Bool
  pub value : P
  pub migration_failed : Bool

-- One round of the loop of `lookup`: the outcomes of `read_lock`, of the upgrade and of
-- `validate`.
pub record Round : Type 0 where
  pub read_ok : Bool
  pub upgraded : Bool
  pub valid : Bool
  pub draws : Draws

module _ {P : Type 0} (H : Index (HotRecord P)) (C : Index P) where
  -- The branches of `lookup_internal` for a record found in the cold tree, once the write lock is
  -- there.
  unfoldable pub migrate_up : TwoTree H C → Draws → ℕ → P → Run (Found P × TwoTree H C)
  unfolding cache_under_pressure cache_under_pressure_soft
  migrate_up s d k v = do
    (moved, s₁) ←
        if cache_under_pressure_soft s.config d.soft_pages
          && not (cache_under_pressure s.config d.hard_pages)
          && not (ltb d.admit_roll 5)
        then admit_element_might_fail H C s k v false false
        else (admit_element H C s k v false false >>= λ s'. ok (true, s'))
    let s₂ : TwoTree H C =
        if moved
        then record s₁ { upward_migrations = add64 s₁.upward_migrations 1 }
        else record s₁ { failed_upward_migrations = add64 s₁.failed_upward_migrations 1 }
    let found : Found P = record { res = true; value = v; migration_failed = not moved }
    if not s₂.config.inclusive && moved
        then (let (op_res, cold) = C.remove s₂.cold k in
            do check (is_ok op_res); ok (found, record s₂ { cold = cold }))
        else ok (found, s₂)

  -- `upgraded` is what `upgrade_to_write_lock` returns, if it is called.
  unfoldable pub lookup_internal : TwoTree H C → Draws → Bool → ℕ → P → Run (Found P × TwoTree H C)
  unfolding should_migrate
  lookup_internal s d upgraded k v =
      let s₀ : TwoTree H C = record s { total_lookups = add64 s.total_lookups 1 } in
      elim (H.lookup s₀.hot k) [
        | some delete_mark ↦ ok (record { res = false; value = v; migration_failed = false }, s₀)
        | some (tagged tp) ↦ ok (
          record { res = true; value = tp.payload; migration_failed = false },
          record s₀ { hot = (H.update s₀.hot k touch).1 },
        )
        | none ↦ elim (C.lookup s₀.cold k) [
          | none ↦ ok (record { res = false; value = v; migration_failed = false }, s₀)
          | some w ↦
              if should_migrate s₀.config d.migrate_roll
              then (if upgraded
                  then migrate_up s₀ d k w
                  else ok (record { res = false; value = w; migration_failed = false }, s₀))
              else ok (record { res = true; value = w; migration_failed = false }, s₀)
        ]
      ]

  -- The loop, over what its rounds meet; `none` while it goes on after the rounds of the list.
  unfoldable pub lookup_rounds :
      TwoTree H C → List Round → ℕ → P → Run (Option (Bool × P) × TwoTree H C)
  unfolding lookup_internal
  lookup_rounds s [] k v = ok (none, s)
  lookup_rounds s (r ∷ rest) k v = if not r.read_ok then lookup_rounds s rest k v else do
    (found, s') ← lookup_internal s r.draws r.upgraded k v
    let again = lookup_rounds s' rest k found.value
    if r.valid then ok (some (found.res, found.value), s') else again

  unfoldable pub insert_locked : TwoTree H C → ℕ → P → Run (TwoTree H C)
  insert_locked s k v = admit_element H C s k v true false

  unfoldable pub remove : TwoTree H C → ℕ → Run (Bool × TwoTree H C)
  remove s k = elim (H.lookup s.hot k) [
    | some delete_mark ↦ ok (true, s)
    | none ↦ (admit_delete_mark_element H C s k >>= λ s'. ok (true, s'))
    | some (tagged tp) ↦
        (let (op_res, hot) = H.remove s.hot k in
          do
            let s₁ : TwoTree H C = record s {
              hot = hot;
              hot_partition_item_count = sub64 s.hot_partition_item_count 1;
              hot_partition_size_bytes =
                  sub64 s.hot_partition_size_bytes (s.config.key_bytes + s.config.tagged_bytes);
            }
            check (is_ok op_res)
            s₂ ← admit_delete_mark_element H C s₁ k
            ok (true, s₂))
  ]

  -- `update` for a key that the hot tree does not hold and the cold tree does.
  unfoldable pub update_cold : TwoTree H C → Draws → ℕ → P → Run (TwoTree H C)
  update_cold s d k v =
      if should_migrate s.config d.migrate_roll
      then (do
        (moved, s₁) ←
            if cache_under_pressure_soft s.config d.soft_pages
            then admit_element_might_fail H C s k v false true
            else (admit_element H C s k v true false >>= λ s'. ok (true, s'))
        let s₂ : TwoTree H C =
            if moved
            then record s₁ { upward_migrations = add64 s₁.upward_migrations 1 }
            else record s₁ { failed_upward_migrations = add64 s₁.failed_upward_migrations 1 }
        if not s₂.config.inclusive && moved
            then ok (record s₂ { cold = (C.remove s₂.cold k).1 })
            else ok s₂)
      else ok (record s { cold = (C.update s.cold k (λ _. v)).1 })

  unfoldable pub update_locked : TwoTree H C → Draws → ℕ → P → Run (TwoTree H C)
  update_locked s d k v =
      let s₀ : TwoTree H C = record s { total_lookups = add64 s.total_lookups 1 } in
      let (op_res, hot) = H.update s₀.hot k (overwrite v) in
      if is_ok op_res
      then ok (record s₀ { hot = hot; lookups_hit_top = add64 s₀.lookups_hit_top 1 })
      else do check (is_some (C.lookup s₀.cold k)); update_cold s₀ d k v

  -- The callback of `put` takes every hot record for a tagged payload, and writes past the single
  -- byte of a delete mark.
  unfoldable pub put_locked : TwoTree H C → ℕ → P → Run (TwoTree H C)
  put_locked s k v = elim (H.lookup s.hot k) [
    | some delete_mark ↦ fault
    | some (tagged tp) ↦ ok (record s { hot = (H.update s.hot k (overwrite v)).1 })
    | none ↦ do
      s₁ ← admit_element H C s k v true false
      if not s₁.config.inclusive
          then (let (op_res, cold) = C.remove s₁.cold k in
              do check (is_ok op_res); ok (record s₁ { cold = cold }))
          else ok s₁
  ]
