-- ===== src/Linear/Upserting.antt =====
-- backend/leanstore/storage/hashing/LinearHashing.cpp: `upsert` in the whole table, and lookups after it.
use tree.Prelude.{ℕ, ◌+◌, ◌^◌, ◌<◌, ◌≤◌, ◌≡◌, some, List, length, add64, sub64}
use tree.Linear.Page.{Geometry, Slot, Page}
use tree.Linear.Table.{Functions, Table}
use tree.Linear.Placing.{records, Whole}
use tree.Linear.Addressing.{address}
use tree.Linear.Valid.{IsDistinct, view, PlacedAt, Valid}
use tree.Linear.Written.{All-map}
use tree.Linear.Access.{upsert_chain}
use tree.Linear.Inserting.{slot}
use tree.Linear.Renewing.{Renewed, upsert_chain_lem}
use tree.Linear.Replacing.{replaced}

module _ (G : Geometry) (F : Functions) (small : G.page_bytes < 2 ^ 15) (i b : ℕ)
    (power : i + 1 < 16) (t : Table) (valid : Valid G F i b t) (key payload : List ℕ)
    (fits : G.slots_offset + 8 + length key + length payload ≤ G.page_bytes)
    (distinct : IsDistinct t)
    (same : (v : List ℕ) → view F i b t key ≡ some v → length payload ≡ length v) where
  abbrev home : ℕ
  home = address F i b key

  abbrev new : Slot
  new = slot G F small key payload fits

  renewed :
      Renewed G F small key payload fits
        (t.chain home)
        (upsert_chain G F home key payload (t.chain home))
  renewed =
      upsert_chain_lem G F small key payload fits home (t.chain home) (valid.sorted.fits home)
        (All-map (PlacedAt G F i b home) (Whole G F) (records (t.chain home)) (λ s p. p.whole)
          (valid.sorted.placed home))
        same

  abbrev stored : ℕ
  stored = add64 (sub64 t.data_stored renewed.bytes) (length key + length payload)

  abbrev with_record : Table
  with_record = replaced G F i b t valid key renewed.pages stored
