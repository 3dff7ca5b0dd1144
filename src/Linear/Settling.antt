-- ===== src/Linear/Settling.antt =====
-- backend/leanstore/storage/hashing/LinearHashing.cpp: the split that may follow an operation.
use tree.Prelude.{
  ℕ, ◌+◌, ◌-◌, ◌^◌, ◌<◌, ◌≤◌, ◌≡◌, some, List, length, arith, refl, ◌∙◌, ok, inl, inr, Bool-cases,
  if_true, if_false,
}
use tree.Linear.Page.{Geometry}
use tree.Linear.Table.{Functions, Table, load_buddy_bucket}
use tree.Linear.Split.{split}
use tree.Linear.Addressing.{base}
use tree.Linear.Valid.{IsDistinct, view, Valid}
use tree.Linear.Rounds.{RoomFor, next_power}
use tree.Linear.Splitting.{split_lem}
use tree.Linear.Access.{controlled_split}

-- With or without a split, the table stays valid and shows the same.
pub controlled_split_lem :
    (G : Geometry) (F : Functions)
    → G.page_bytes < 2 ^ 15
    → G.slots_offset ≤ G.page_bytes
    → (i b : ℕ) → i + 1 < 16
    → (t : Table) → Valid G F i b t
    → IsDistinct t
    → (length (t.chain (b - base i)) ≤ 8) × RoomFor G F i b t
    → (t' : Table) × (i' : ℕ) × (b' : ℕ) × (controlled_split G F t ≡ ok (some t'))
      × Valid G F i' b' t'
      × IsDistinct t'
      × (i' ≤ i + 1)
      × ((key : List ℕ) → view F i' b' t' key ≡ view F i b t key)
unfolding controlled_split
controlled_split_lem G F small room i b power t valid distinct (few, enough) =
    let o = F.over_load t.data_stored (load_buddy_bucket t.sp) in
    elim (Bool-cases o) [
      | inl e ↦
          let (t', run, valid', distinct', same) =
            split_lem G F small room i b power t valid distinct few enough in
          (
            t',
            next_power i b,
            b + 1,
            if_true o (split G F t) (ok (some t)) e ∙ run,
            valid',
            distinct',
            ground arith,
            same,
          )
      | inr e ↦ (
        t,
        i,
        b,
        if_false o (split G F t) (ok (some t)) e,
        valid,
        distinct,
        omega arith,
        λ key. refl,
      )
    ]
