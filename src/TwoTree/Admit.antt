-- ===== src/TwoTree/Admit.antt =====
-- backend/twotree/ConcurrentTwoBTree.hpp: writes to one of the two trees, and the admission of
-- records into the hot tree.
use tree.Prelude.{ℕ, ◌+◌, Bool, true, false, if◌then◌else◌, Run, ok, check, ◌>>=◌, ◌>>◌, add64}
use tree.Index.{Index, OpResult, is_ok}
use tree.TwoTree.Record.{
  HotRecord, TaggedPayload, tagged, delete_mark, set_modified, clear_modified, set_referenced,
  clear_referenced, bump_reference_count,
}
use tree.TwoTree.State.{TwoTree}

-- The tagged payload that both insertions into the hot tree build.
unfoldable pub new_tag : {P : Type 0} → P → Bool → Bool → TaggedPayload P
unfolding set_modified clear_modified set_referenced clear_referenced bump_reference_count
new_tag v is_modified is_referenced =
    let tp : TaggedPayload _ = record { payload = v; bits = 0 } in
    let tp' : TaggedPayload _ =
      if is_referenced then bump_reference_count (set_referenced tp) else clear_referenced tp in
    if is_modified then set_modified tp' else clear_modified tp'

abbrev pub is_not_enough_space : OpResult → Bool
is_not_enough_space OpResult.not_enough_space = true
is_not_enough_space _ = false

-- `sizeof(kDeletedBits)`
abbrev pub mark_bytes : ℕ
mark_bytes = 1

module _ {P : Type 0} (H : Index (HotRecord P)) (C : Index P) where
  unfoldable pub upsert_cold_partition : TwoTree H C → ℕ → P → Run (TwoTree H C)
  upsert_cold_partition s k v =
      let (res, cold) = C.upsert s.cold k v in do check (is_ok res); ok (record s { cold = cold })

  unfoldable pub insert_cold_partition : TwoTree H C → ℕ → P → Run (TwoTree H C)
  insert_cold_partition s k v =
      let (res, cold) = C.insert s.cold k v in do check (is_ok res); ok (record s { cold = cold })

  unfoldable pub insert_hot_partition_might_fail :
      TwoTree H C → ℕ → P → Bool → Bool → Run (Bool × TwoTree H C)
  insert_hot_partition_might_fail s k v is_modified is_referenced =
      let (res, hot) = H.insert_might_fail s.hot k (tagged (new_tag v is_modified is_referenced)) in
      if is_ok res
      then ok (
        true,
        record s { hot = hot; hot_partition_item_count = add64 s.hot_partition_item_count 1 },
      )
      else do check (is_not_enough_space res); ok (false, record s { hot = hot })

  unfoldable pub insert_hot_partition : TwoTree H C → ℕ → P → Bool → Bool → Run (TwoTree H C)
  insert_hot_partition s k v is_modified is_referenced =
      let (res, hot) = H.insert s.hot k (tagged (new_tag v is_modified is_referenced)) in
      do
        check (is_ok res)
        ok (record s { hot = hot; hot_partition_item_count = add64 s.hot_partition_item_count 1 })

  unfoldable pub insert_hot_partition_deleted_mark : TwoTree H C → ℕ → Run (TwoTree H C)
  insert_hot_partition_deleted_mark s k =
      let (res, hot) = H.insert s.hot k delete_mark in
      do
        check (is_ok res)
        ok (record s { hot = hot; hot_partition_item_count = add64 s.hot_partition_item_count 1 })

  abbrev pub grown : TwoTree H C → ℕ → TwoTree H C
  grown s bytes = record s {
    hot_partition_size_bytes = add64 s.hot_partition_size_bytes (s.config.key_bytes + bytes);
  }

  unfoldable pub admit_element_might_fail :
      TwoTree H C → ℕ → P → Bool → Bool → Run (Bool × TwoTree H C)
  unfolding insert_hot_partition_might_fail
  admit_element_might_fail s k v dirty is_referenced = do
    (done, s') ← insert_hot_partition_might_fail s k v dirty is_referenced
    if done then ok (true, grown s' s'.config.tagged_bytes) else ok (false, s')

  unfoldable pub admit_element : TwoTree H C → ℕ → P → Bool → Bool → Run (TwoTree H C)
  unfolding insert_hot_partition
  admit_element s k v dirty is_referenced = do
    s' ← insert_hot_partition s k v dirty is_referenced
    ok (grown s' s'.config.tagged_bytes)

  unfoldable pub admit_delete_mark_element : TwoTree H C → ℕ → Run (TwoTree H C)
  unfolding insert_hot_partition_deleted_mark
  admit_delete_mark_element s k = do
    s' ← insert_hot_partition_deleted_mark s k
    ok (grown s' mark_bytes)
