-- ===== src/Linear/Split.antt =====
-- backend/leanstore/storage/hashing/LinearHashing.cpp: `LinearHashTable::split`, in a run that no other thread
-- disturbs. The counters that only reports read are left out.
use tree.Prelude.{
  ℕ, ◌+◌, ◌-◌, ◌*◌, ◌%◌, ◌==◌, ◌&&◌, Bool, true, false, Option, none, some, List, [], ◌∷◌, ◌++◌,
  if◌then◌else◌, leb, ltb, length, Run, ok, check, ◌>>=◌, ◌>>◌, u32_mod, update,
}
use tree.Linear.Page.{Geometry, Slot, Page, new_page, can_insert, insert}
use tree.Linear.Table.{
  Functions, Table, initial_buckets, load_power, load_buddy_bucket, compare_swap, power2,
  hash_bucket,
}

-- `kNTempNodes`, the guards that a split has.
abbrev pub temp_nodes : ℕ
temp_nodes = 10

-- A vector of pages with at least one.
pub record Pages : Type 0 where
  pub full : List Page
  pub back : Page

abbrev pub pages : Pages → List Page
pages v = v.full ++ (v.back ∷ [])

abbrev pub size : Pages → ℕ
size v = length v.full + 1

module _ (G : Geometry) (F : Functions) where
  -- A record goes to the last page, or to a new one behind it.
  unfoldable pub place : ℕ → Pages → Slot → Run Pages
  unfolding new_page
  place bucket v s =
      let w =
        if can_insert G v.back (length s.key) (length s.payload)
        then v
        else record { full = v.full ++ (v.back ∷ []); back = new_page G true bucket } in
      check (can_insert G w.back (length s.key) (length s.payload))
      >> (insert G F.fingerprint w.back s.key s.payload >>= λ p. ok (record w { back = p }))

  unfoldable pub part_slot : ℕ → ℕ → ℕ → Slot → Pages × Pages → Run (Pages × Pages)
  unfolding place hash_bucket
  part_slot i split_bucket buddy_bucket s v = hash_bucket F s.key i >>= λ original_bucket.
      hash_bucket F s.key (i + 1) >>= λ target_bucket.
      check (original_bucket == split_bucket)
      >> (if target_bucket == split_bucket
          then (place split_bucket v.0 s >>= λ l. ok (l, v.1))
          else check (target_bucket == buddy_bucket)
            >> (place buddy_bucket v.1 s >>= λ r. ok (v.0, r)))

  -- The loop over the slots of a page, and the one over the pages of the chain.
  unfoldable pub part_slots : ℕ → ℕ → ℕ → List Slot → Pages × Pages → Run (Pages × Pages)
  unfolding part_slot
  part_slots i split_bucket buddy_bucket [] v = ok v
  part_slots i split_bucket buddy_bucket (s ∷ ss) v =
      part_slot i split_bucket buddy_bucket s v >>= part_slots i split_bucket buddy_bucket ss

  unfoldable pub part_chain : ℕ → ℕ → ℕ → List Page → Pages × Pages → Run (Pages × Pages)
  unfolding part_slots
  part_chain i split_bucket buddy_bucket [] v = ok v
  part_chain i split_bucket buddy_bucket (p ∷ ps) v =
      part_slots i split_bucket buddy_bucket p.slots v >>= part_chain i split_bucket buddy_bucket ps

-- The pages of the split bucket keep their flags.
abbrev pub write_split : List Page → List Page → List Page
write_split old [] = []
write_split [] (p ∷ ps) = []
write_split (o ∷ old) (p ∷ ps) = record p { is_overflow = o.is_overflow } ∷ write_split old ps

abbrev pub write_buddy : ℕ → Bool → List Page → List Page
write_buddy bucket overflow [] = []
write_buddy bucket overflow (p ∷ ps) =
    record p { bucket = bucket; is_overflow = overflow } ∷ write_buddy bucket true ps

-- The guards after the temporary pages were added.
unfoldable pub guards : ℕ → ℕ → ℕ → ℕ
guards used left right =
    if ltb (used - left) right
    then (if ltb (used + 1 - left) right then used + 2 else used + 1)
    else used

-- The counters of the round, and the next round after the last split.
unfoldable pub finish_split : Table → Run Table
unfolding load_power load_buddy_bucket compare_swap power2
finish_split t =
    let finished = t.this_round_finished_splits + 1 in
    check (leb finished t.this_round_started_splits)
    >> (if finished == t.this_round_started_splits
          && t.this_round_started_splits == t.this_round_split_target
        then (let old_power = load_power t.sp in
            let old_buddy_bucket = load_buddy_bucket t.sp in
            let r = compare_swap t.sp old_power old_buddy_bucket (old_power + 1) old_buddy_bucket in
            power2 (old_power + 1) >>= λ m.
            check r.0
            >> ok (record t {
              sp = r.1;
              this_round_started_splits = 0;
              this_round_finished_splits = 0;
              this_round_split_target = initial_buckets * m;
            }))
        else ok (record t { this_round_finished_splits = finished }))

module _ (G : Geometry) (F : Functions) where
  -- The part of a split that moves the records, from where it has its bucket.
  unfoldable pub move_records : ℕ → ℕ → ℕ → Table → Run Table
  unfolding part_chain new_page guards
  move_records i split_bucket buddy_bucket t =
      let chain = t.chain split_bucket in
      let used = length chain in
      check (ltb 0 used)
      >> (check (leb used temp_nodes)
          >> (part_chain G F i split_bucket buddy_bucket chain (
            record { full = []; back = new_page G false split_bucket },
            record { full = []; back = new_page G false buddy_bucket },
          )
              >>= λ v.
                  check (leb (size v.0) used)
                  >> (check (leb (size v.1) (guards used (size v.0) (size v.1) - size v.0))
                      >> (check (leb (guards used (size v.0) (size v.1)) temp_nodes)
                          >> (check (length (t.chain buddy_bucket) == 0)
                              >> ok (record t {
                                chain =
                                    update
                                      (update t.chain split_bucket (write_split chain (pages v.0)))
                                      buddy_bucket (write_buddy buddy_bucket false (pages v.1));
                              }))))))

  -- `none` means that the first loop goes on until another thread ends the round.
  unfoldable pub split : Table → Run (Option Table)
  unfolding load_power load_buddy_bucket compare_swap power2 move_records finish_split
  split t =
      let local_i = load_power t.sp in
      let buddy_bucket = load_buddy_bucket t.sp in
      if ltb t.this_round_split_target (t.this_round_started_splits + 1)
      then (power2 (local_i + 1) >>= λ m. check (buddy_bucket == m * initial_buckets) >> ok none)
      else (let r = compare_swap t.sp local_i buddy_bucket local_i ((buddy_bucket + 1) % u32_mod) in
          check r.0
          >> (power2 local_i >>= λ m.
              check (leb (m * initial_buckets) buddy_bucket)
              >> (move_records local_i (buddy_bucket - m * initial_buckets) buddy_bucket (record t {
                sp = r.1;
                this_round_started_splits = t.this_round_started_splits + 1;
              })
                  >>= λ t₁. finish_split t₁ >>= λ t₂. ok (some t₂))))
