-- ===== src/Linear/Remove.antt =====
-- backend/leanstore/storage/hashing/LinearHashing.cpp: `remove` and `merge_chain`, in a run that no other thread
-- disturbs.
use tree.Prelude.{
  ℕ, ◌/◌, ◌||◌, ◌&&◌, ◌==◌, Bool, true, false, not, Option, none, some, List, [], ◌∷◌,
  if◌then◌else◌, ltb, length, Run, ok, ◌>>=◌, sub64, update,
}
use tree.Linear.Page.{
  Geometry, Page, slot_at, heap_bytes, find, remove_slot, has_enough_space_for, space_used_for_data,
  request_space_for, copy_key_value_range, free_space_after_compaction,
}
use tree.Linear.Table.{Functions, Table, bucket_of}
use tree.Linear.Access.{with_chain}

-- Whether the key was found, the chain after it, the bytes of its record, and whether a page seen is underfull.
pub record Removed : Type 0 where
  pub found : Bool
  pub pages : List Page
  pub bytes : ℕ
  pub try_merge : Bool

module _ (G : Geometry) (F : Functions) where
  -- `underFullSize` is half a page.
  unfoldable pub remove_loop : Bool → List Page → List ℕ → Removed
  unfolding find remove_slot free_space_after_compaction
  remove_loop merge [] key = record { found = false; pages = []; bytes = 0; try_merge = merge }
  remove_loop merge (p ∷ ps) key =
      let merge' = merge || ltb (G.page_bytes / 2) (free_space_after_compaction G p) in
      elim (find F.fingerprint p key) [
        | some i ↦ record {
          found = true;
          pages = remove_slot p i ∷ ps;
          bytes = heap_bytes (slot_at p i);
          try_merge = merge';
        }
        | none ↦ let r = remove_loop merge' ps key in record r { pages = p ∷ r.pages }
      ]

  -- A key that is not in a chain of one page asks for no merge.
  unfoldable pub remove_chain : List Page → List ℕ → Removed
  unfolding remove_loop
  remove_chain ps key =
      let r = remove_loop false ps key in
      if not r.found && length ps == 1 then record r { try_merge = false } else r

  unfoldable pub merge_pages : Page → Page → Page
  unfolding request_space_for space_used_for_data copy_key_value_range
  merge_pages p q =
      copy_key_value_range G (request_space_for G p (space_used_for_data G q)).1 q.slots

  -- The first two neighbours that fit one page become one.
  unfoldable pub merge_chain : List Page → List Page
  unfolding has_enough_space_for space_used_for_data merge_pages
  merge_chain [] = []
  merge_chain (p ∷ []) = p ∷ []
  merge_chain (p ∷ q ∷ qs) = elim (has_enough_space_for G p (space_used_for_data G q)) [
    | true ↦ merge_pages p q ∷ qs
    | false ↦ p ∷ merge_chain (q ∷ qs)
  ]

  -- The answer is false for NOT_FOUND.
  unfoldable pub remove : Table → List ℕ → Run (Option (Bool × Table))
  unfolding bucket_of remove_chain merge_chain
  remove t key = with_chain G F t key (λ c ps.
      let r = remove_chain ps key in
      let t₁ = record t {
        chain = update t.chain c r.pages;
        data_stored = sub64 t.data_stored r.bytes;
      } in
      if r.try_merge
      then (bucket_of F t₁ key >>= λ c₁.
          ok (some (r.found, record t₁ { chain = update t₁.chain c₁ (merge_chain (t₁.chain c₁)) })))
      else ok (some (r.found, t₁)))
