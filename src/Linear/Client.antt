-- ===== src/Linear/Client.antt =====
-- backend/leanstore/storage/hashing/LinearHashing.cpp: an insertion in the whole table, and lookups after it.
use tree.Prelude.{ℕ, ◌+◌, ◌^◌, ◌<◌, ◌≤◌, ◌≡◌, none, some, List, if◌then◌else◌, length, ok, add64}
use tree.Linear.Page.{Geometry, Page, same_bytes}
use tree.Linear.Table.{Functions, Table}
use tree.Linear.Placing.{records, Whole}
use tree.Linear.Addressing.{address, address-lt}
use tree.Linear.Valid.{IsDistinct, view, PlacedAt, Valid}
use tree.Linear.Written.{All-map}
use tree.Linear.Replacing.{replaced}
use tree.Linear.Access.{insert_chain, insert_key}
use tree.Linear.Inserting.{Stored, insert_chain_lem}

module _ (G : Geometry) (F : Functions) (small : G.page_bytes < 2 ^ 15) (i b : ℕ)
    (power : i + 1 < 16) (t : Table) (valid : Valid G F i b t) (key payload : List ℕ)
    (fits : G.slots_offset + 8 + length key + length payload ≤ G.page_bytes)
    (distinct : IsDistinct t) (unseen : view F i b t key ≡ none) where
  abbrev home : ℕ
  home = address F i b key

  stored :
      Stored G F small key payload fits
        (t.chain home)
        (insert_chain G F home key payload (t.chain home))
  stored =
      insert_chain_lem G F small key payload fits home (t.chain home) (valid.sorted.fits home)
        (All-map (PlacedAt G F i b home) (Whole G F) (records (t.chain home)) (λ s p. p.whole)
          (valid.sorted.placed home))
        unseen (valid.sorted.present home (address-lt F i b valid.low valid.high key))

  abbrev with_record : Table
  with_record =
      replaced G F i b t valid key stored.pages (add64 t.data_stored (length key + length payload))

  -- What an insertion ends in, in some round.
  abbrev Ends : Type 0
  Ends =
      (t' : Table) × (i' : ℕ) × (b' : ℕ) × (insert_key G F t key payload ≡ ok (some t'))
      × Valid G F i' b' t'
      × IsDistinct t'
      × (i' ≤ i + 1)
      × ((k : List ℕ)
          → view F i' b' t' k ≡ (if same_bytes k key then some payload else view F i b t k))
