-- ===== src/TwoTree/Evict.antt =====
-- backend/twotree/ConcurrentTwoBTree.hpp: `evict_a_bunch`, in its three parts (the choice of a key
-- range under `eviction_mutex`, the scan of that range, the write-back of each victim), and
-- `evict_all`.
use tree.Prelude.{
  ℕ, ◌+◌, ◌%◌, ◌^◌, ◌==◌, Bool, true, not, if◌then◌else◌, ◌&&◌, ltb, Option, none, some, List, [],
  ◌∷◌, Run, ok, fault, check, ◌>>=◌, ◌>>◌, add64, sub64, length,
}
use tree.Index.{Index, OpResult, is_ok}
use tree.TwoTree.Record.{
  HotRecord, TaggedPayload, tagged, delete_mark, modified, referenced, clear_referenced,
  dec_reference_count,
}
use tree.TwoTree.State.{TwoTree, cache_under_pressure}
use tree.TwoTree.Admit.{upsert_cold_partition, insert_cold_partition}

abbrev pub clock_walk_steps : ℕ
clock_walk_steps = 10

-- A key that the scan chose, with the copy of its record, and the lock version of its word then.
pub record Victim (P : Type 0) : Type 0 where
  pub key : ℕ
  pub copy : TaggedPayload P
  pub lock_version : ℕ

-- What the locks answer: the version that `read_lock` reads at the scan, if it succeeds, and
-- whether `write_lock` succeeds later, with the answer of `more_than_one_writer_since` then.
pub record Locks : Type 0 where
  pub read_lock : ℕ → Option ℕ
  pub write_lock : ℕ → Option Bool

-- What the scan callback does to a record in place.
unfoldable pub age : {P : Type 0} → TaggedPayload P → TaggedPayload P
unfolding referenced clear_referenced dec_reference_count
age tp =
    let tp' : TaggedPayload _ = dec_reference_count tp in
    if referenced tp' then clear_referenced tp' else tp'

abbrev pub age_record : {P : Type 0} → HotRecord P → HotRecord P
age_record (tagged tp) = tagged (age tp)
age_record delete_mark = delete_mark

-- The victim that the callback records for one entry of the scan, if any.
unfoldable pub choose : {P : Type 0} → Locks → ℕ → TaggedPayload P → Option (Victim P)
unfolding referenced dec_reference_count
choose locks k tp =
    let tp' : TaggedPayload _ = dec_reference_count tp in
    if referenced tp' then none else elim (locks.read_lock k) [
      | none ↦ none
      | some version ↦ some (record { key = k; copy = tp'; lock_version = version })
    ]

abbrev pub add_victim : {P : Type 0} → Option (Victim P) → List (Victim P) → List (Victim P)
add_victim none vs = vs
add_victim (some v) vs = v ∷ vs

module _ {P : Type 0} (H : Index (HotRecord P)) (C : Index P) where
  -- `none`: evictors of the previous round are at work, or the tree gave no boundary.
  unfoldable pub choose_range : TwoTree H C → Option (ℕ × ℕ × TwoTree H C)
  choose_range s =
      let start_key = s.clock_hand in
      let round = s.eviction_round in
      let parity = round % 2 in
      let others =
        if parity == 0 then s.eviction_round_ref_counter.1 else s.eviction_round_ref_counter.0 in
      let (even_count, odd_count) = s.eviction_round_ref_counter in
      let counters : ℕ × ℕ =
        if parity == 0 then (add64 even_count 1, odd_count) else (even_count, add64 odd_count 1) in
      if not (others == 0) then none else elim (H.boundary s.hot start_key clock_walk_steps) [
        | none ↦ none
        | some (end_key, rewind) ↦ some (
          end_key,
          parity,
          record s {
            clock_hand = if rewind then 0 else add64 end_key 1;
            eviction_round = if rewind then add64 round 1 else round;
            eviction_round_ref_counter = counters;
          },
        )
      ]

  -- The scan callback over the entries that `scanAsc` gives it: the hot tree with aged records, and
  -- the victims in order. A delete mark fails the assertion on the record's length.
  unfoldable pub collect :
      Locks → ℕ → List (ℕ × HotRecord P) → H.Tree → Run (List (Victim P) × H.Tree)
  unfolding choose age
  collect locks end_key [] t = ok ([], t)
  collect locks end_key ((k, delete_mark) ∷ rest) t = if ltb end_key k then ok ([], t) else fault
  collect locks end_key ((k, tagged tp) ∷ rest) t =
      let onward = collect locks end_key rest (H.update t k age_record).1 in
      if ltb end_key k
      then ok ([], t)
      else if ltb k end_key
      then (onward >>= λ r. ok (add_victim (choose locks k tp) r.0, r.1))
      else ok (add_victim (choose locks k tp) [], (H.update t k age_record).1)

  -- The record that goes down: re-read if other writers came since the scan.
  unfoldable pub reread : TwoTree H C → Victim P → Bool → Run (TaggedPayload P)
  reread s v stale =
      if stale
      then elim (H.lookup s.hot v.key) [
        | some (tagged tp) ↦ ok tp
        | some delete_mark ↦ fault
        | none ↦ fault
      ]
      else ok v.copy

  -- The body of the write-back loop, for a victim whose write lock is taken.
  unfoldable pub evict_one : TwoTree H C → Victim P → Bool → Run (TwoTree H C)
  unfolding reread modified
  evict_one s v stale = do
    tp ← reread s v stale
    s₁ ←
        if s.config.inclusive
        then (if modified tp
            then (upsert_cold_partition H C s v.key tp.payload >>= λ s'.
                ok (record s' { downward_migrations = add64 s'.downward_migrations 1 }))
            else ok s)
        else (insert_cold_partition H C s v.key tp.payload >>= λ s'.
            ok (record s' { downward_migrations = add64 s'.downward_migrations 1 }))
    let res : OpResult = (H.remove s₁.hot v.key).0
    check (is_ok res)
    ok (record s₁ {
      hot = (H.remove s₁.hot v.key).1;
      hot_partition_item_count = sub64 s₁.hot_partition_item_count 1;
      hot_partition_size_bytes =
          sub64 s₁.hot_partition_size_bytes (s₁.config.key_bytes + s₁.config.tagged_bytes);
    })

  unfoldable pub evict_victims : TwoTree H C → Locks → List (Victim P) → Run (TwoTree H C)
  evict_victims s locks [] = ok s
  evict_victims s locks (v ∷ vs) = elim (locks.write_lock v.key) [
    | none ↦ evict_victims s locks vs
    | some stale ↦ evict_one s v stale >>= λ s'. evict_victims s' locks vs
  ]

  abbrev pub leave_round : TwoTree H C → ℕ → TwoTree H C
  leave_round s parity =
      let (even_count, odd_count) = s.eviction_round_ref_counter in
      record s {
        eviction_round_ref_counter =
            if parity == 0
            then (sub64 even_count 1, odd_count)
            else (even_count, sub64 odd_count 1);
      }

  unfoldable pub evict_a_bunch : TwoTree H C → Locks → Run (TwoTree H C)
  evict_a_bunch s locks = elim (choose_range s) [
    | none ↦ ok s
    | some (end_key, parity, s₁) ↦ do
      (victims, hot) ← collect locks end_key (H.scan_asc s₁.hot s.clock_hand) s₁.hot
      s₂ ← evict_victims (record s₁ { hot = hot }) locks victims
      ok (
          leave_round (record s₂ { eviction_items = add64 s₂.eviction_items (length victims) })
            parity)
  ]

  -- `hot_partition_item_count > 10`, on a signed count.
  abbrev pub above_ten : ℕ → Bool
  above_ten n = ltb 10 n && ltb n (2 ^ 63)

  -- One round of the loop for each answer of the locks; the flag is false if the last of them has
  -- not ended it.
  unfoldable pub evict_all : TwoTree H C → List Locks → Run (Bool × TwoTree H C)
  evict_all s [] = ok (not (above_ten s.hot_partition_item_count), s)
  evict_all s (locks ∷ rest) =
      let round = evict_a_bunch s locks >>= λ s'. evict_all s' rest in
      if above_ten s.hot_partition_item_count then round else ok (true, s)

  unfoldable pub try_eviction : TwoTree H C → ℕ → Locks → Run (TwoTree H C)
  try_eviction s hot_pages locks =
      if cache_under_pressure s.config hot_pages then evict_a_bunch s locks else ok s
