-- ===== src/Linear/Access.antt =====
-- backend/leanstore/storage/hashing/LinearHashing.cpp: the operations of `LinearHashTable` on a key, in a run that
-- no other thread disturbs. `none` means that an operation starts over until another thread changes the table.
use tree.Prelude.{
  ℕ, ◌+◌, ◌&&◌, Bool, true, false, Option, none, some, is_some, List, [], ◌∷◌, if◌then◌else◌, leb,
  length, Run, ok, fault, check, ◌>>=◌, ◌>>◌, add64, sub64, update,
}
use tree.Linear.Page.{
  Geometry, Slot, Page, slot_at, heap_bytes, find, remove_slot, new_page, can_insert, insert,
  has_enough_space_for, space_used_for_data, request_space_for, copy_key_value_range,
  free_space_after_compaction,
}
use tree.Linear.Page as Node
use tree.Linear.Table.{Functions, Table, load_buddy_bucket, bucket_of}
use tree.Linear.Split.{split}

-- The payload that the loop over the pages of a chain meets first.
unfoldable pub find_in_chain : (List ℕ → ℕ) → List Page → List ℕ → Option (List ℕ)
unfolding find
find_in_chain f [] key = none
find_in_chain f (p ∷ ps) key = elim (find f p key) [
  | some i ↦ some (slot_at p i).payload
  | none ↦ find_in_chain f ps key
]

module _ (G : Geometry) (F : Functions) where
  -- What an operation does with the chain of its key.
  abbrev pub with_chain :
      {A : Type 0} → Table → List ℕ → (ℕ → List Page → Run (Option A)) → Run (Option A)
  with_chain t key f =
      bucket_of F t key >>= λ c. elim (t.chain c) [ [] ↦ ok none | p ∷ ps ↦ f c (p ∷ ps) ]

  unfoldable pub lookup : Table → List ℕ → Run (Option (Option (List ℕ)))
  unfolding bucket_of find_in_chain
  lookup t key = with_chain t key (λ c ps. ok (some (find_in_chain F.fingerprint ps key)))

  -- A new page at the end of a chain, with one record.
  unfoldable pub overflow_page : ℕ → List ℕ → List ℕ → Run Page
  unfolding new_page can_insert insert
  overflow_page bucket key payload =
      check (can_insert G (new_page G true bucket) (length key) (length payload))
      >> insert G F.fingerprint (new_page G true bucket) key payload

  -- The loop over the pages after the first.
  unfoldable pub insert_overflow : ℕ → List ℕ → List ℕ → List Page → Run (List Page)
  unfolding overflow_page can_insert insert
  insert_overflow bucket key payload [] = overflow_page bucket key payload >>= λ q. ok (q ∷ [])
  insert_overflow bucket key payload (p ∷ ps) =
      elim (can_insert G p (length key) (length payload)) [
        | true ↦ insert G F.fingerprint p key payload >>= λ q. ok (q ∷ ps)
        | false ↦ insert_overflow bucket key payload ps >>= λ qs. ok (p ∷ qs)
      ]

  unfoldable pub insert_chain : ℕ → List ℕ → List ℕ → List Page → Run (List Page)
  unfolding insert_overflow can_insert insert find
  insert_chain bucket key payload [] = fault
  insert_chain bucket key payload (p ∷ ps) = elim (can_insert G p (length key) (length payload)) [
    | true ↦ insert G F.fingerprint p key payload >>= λ q.
        check (is_some (find F.fingerprint q key)) >> ok (q ∷ ps)
    | false ↦ insert_overflow bucket key payload ps >>= λ qs. ok (p ∷ qs)
  ]

  -- The part of `insert` before the test for a split.
  unfoldable pub insert_record : Table → List ℕ → List ℕ → Run (Option Table)
  unfolding bucket_of insert_chain
  insert_record t key payload = with_chain t key (λ c ps. insert_chain c key payload ps >>= λ qs.
      ok (
        some (record t {
          chain = update t.chain c qs;
          data_stored = add64 t.data_stored (length key + length payload);
        })))

  -- "Controlled Split"
  unfoldable pub controlled_split : Table → Run (Option Table)
  unfolding split load_buddy_bucket
  controlled_split t =
      if F.over_load t.data_stored (load_buddy_bucket t.sp) then split G F t else ok (some t)

  unfoldable pub insert_key : Table → List ℕ → List ℕ → Run (Option Table)
  unfolding insert_record controlled_split
  insert_key t key payload =
      insert_record t key payload >>= λ r. elim r [ none ↦ ok none | some t₁ ↦ controlled_split t₁ ]

  -- `none` when no page of the chain has room.
  unfoldable pub insert_in_room : List ℕ → List ℕ → List Page → Run (Option (List Page))
  unfolding can_insert insert
  insert_in_room key payload [] = ok none
  insert_in_room key payload (p ∷ ps) = elim (can_insert G p (length key) (length payload)) [
    | true ↦ insert G F.fingerprint p key payload >>= λ q. ok (some (q ∷ ps))
    | false ↦ insert_in_room key payload ps >>= λ r. elim r [
      | none ↦ ok none
      | some qs ↦ ok (some (p ∷ qs))
    ]
  ]

  -- The answer is false for NOT_ENOUGH_SPACE.
  unfoldable pub insert_might_fail : Table → List ℕ → List ℕ → Run (Option (Bool × Table))
  unfolding bucket_of insert_in_room
  insert_might_fail t key payload = with_chain t key (λ c ps. insert_in_room key payload ps >>= λ r.
      elim r [
        | none ↦ ok (some (false, t))
        | some qs ↦ ok (
            some (
              true,
              record t {
                chain = update t.chain c qs;
                data_stored = add64 t.data_stored (length key + length payload);
              },
            ))
      ])

  -- The chain after `upsert`, and the bytes that a record had before.
  unfoldable pub upsert_chain : ℕ → List ℕ → List ℕ → List Page → Run (List Page × ℕ)
  unfolding overflow_page can_insert insert find Node.update
  upsert_chain bucket key payload [] = overflow_page bucket key payload >>= λ q. ok (q ∷ [], 0)
  upsert_chain bucket key payload (p ∷ ps) = elim (find F.fingerprint p key) [
    | some i ↦ Node.update p i key payload >>= λ q. ok (q ∷ ps, heap_bytes (slot_at p i))
    | none ↦ elim (leb (length ps) 0 && can_insert G p (length key) (length payload)) [
      | true ↦ insert G F.fingerprint p key payload >>= λ q. ok (q ∷ ps, 0)
      | false ↦ upsert_chain bucket key payload ps >>= λ r. ok (p ∷ r.0, r.1)
    ]
  ]

  unfoldable pub upsert : Table → List ℕ → List ℕ → Run (Option Table)
  unfolding bucket_of upsert_chain controlled_split
  upsert t key payload = with_chain t key (λ c ps. upsert_chain c key payload ps >>= λ r.
      controlled_split (record t {
        chain = update t.chain c r.0;
        data_stored = add64 (sub64 t.data_stored r.1) (length key + length payload);
      }))
