-- ===== src/Linear/Checking.antt =====
-- backend/leanstore/storage/hashing/LinearHashing.cpp: the checks of a split after its loops over the records.
use tree.Prelude.{
  ℕ, ◌+◌, ◌-◌, ◌^◌, ◌<◌, ◌≤◌, ◌≡◌, ◌==◌, false, List, leb, ltb, length, arith, ap, ◌∙◌, Run, ok,
  check, check-true, ◌>>=◌, ◌>>◌, update,
}
use tree.Linear.Page.{Geometry, Page}
use tree.Linear.Table.{Functions, Table}
use tree.Linear.Split.{
  Pages, pages, size, part_chain, write_split, write_buddy, guards, move_records, temp_nodes,
}
use tree.Linear.Chaining.{Chained, fresh}
use tree.Linear.Addressing.{base, base-pos}
use tree.Linear.Valid.{Unique}
use tree.Linear.Written.{guards_lem}
use tree.Linear.Moving.{parts, old_chain, after}

module _ (G : Geometry) (F : Functions) (small : G.page_bytes < 2 ^ 15)
    (room : G.slots_offset ≤ G.page_bytes) (i b : ℕ) (power : i + 1 < 16) (low : base i ≤ b)
    (high : b < base i + base i) (t : Table) (sorted : Unique G F i b t) where
  abbrev split_chain : List Page
  split_chain = old_chain G F small room i b power low high t sorted

  abbrev vectors :
      Chained G F small i
        (b - base i)
        b
        power
        (fresh G F small i (b - base i) b power)
        (length split_chain)
        (length split_chain)
        split_chain
        (part_chain G F i (b - base i) b split_chain (fresh G F small i (b - base i) b power))
  vectors = parts G F small room i b power low high t sorted

  abbrev moved : Table
  moved = after G F small room i b power low high t sorted

  -- The pages suffice, as two temporary ones do.
  abbrev pub Roomy : Type 0
  Roomy = size vectors.left + size vectors.right ≤ length split_chain + 2

  -- The checks that come after the loops.
  abbrev checked : Pages × Pages → Run Table
  checked v =
      let used = length split_chain in
      check (leb (size v.0) used)
      >> (check (leb (size v.1) (guards used (size v.0) (size v.1) - size v.0))
          >> (check (leb (guards used (size v.0) (size v.1)) temp_nodes)
              >> (check (length (t.chain b) == 0)
                  >> ok (record t {
                    chain =
                        update (update t.chain (b - base i) (write_split split_chain (pages v.0))) b
                          (write_buddy b false (pages v.1));
                  }))))

  checked-run : length split_chain ≤ 8 → Roomy → checked (vectors.left, vectors.right) ≡ ok moved
  checked-run h r =
      let used = length split_chain in
      let enough = guards_lem used (size vectors.left) (size vectors.right) vectors.lefts.few h r in
      check-true (leb (size vectors.left) used) _ (ground (arith, vectors.lefts.few))
      ∙ check-true
          (leb (size vectors.right)
            (guards used (size vectors.left) (size vectors.right) - size vectors.left))
          _ enough.0
      ∙ check-true (leb (guards used (size vectors.left) (size vectors.right)) temp_nodes) _
          enough.1
      ∙ check-true (length (t.chain b) == 0) (ok moved)
          (ap (λ (c : List Page). length c == 0) (sorted.sorted.absent b (omega arith)))

  pub move_records-run :
      length split_chain ≤ 8 → Roomy → move_records G F i (b - base i) b t ≡ ok moved
  unfolding move_records
  move_records-run h r =
      check-true (ltb 0 (length split_chain)) _
        (ground (arith, sorted.sorted.present (b - base i), low, base-pos i))
      ∙ check-true (leb (length split_chain) temp_nodes) _ (ground (arith, h))
      ∙ ap (λ (v : Run (Pages × Pages)). v >>= checked) vectors.run
      ∙ checked-run h r
