-- ===== src/Linear/Roomy.antt =====
-- backend/leanstore/storage/hashing/LinearHashing.cpp: the table that `create` leaves, and splits of short chains.
use tree.Prelude.{
  ℕ, ◌+◌, ◌-◌, ◌^◌, ◌<◌, ◌≤◌, ◌≡◌, false, [], length, ltb, arith, refl, sym, ap, ◌∙◌, Run, ok,
  fault, either_if,
}
use tree.Linear.Page.{Geometry, new_page}
use tree.Linear.Fitting.{Fits, new_page-Fits}
use tree.Linear.Table.{Functions, Table, create}
use tree.Linear.Split.{Pages, size}
use tree.Linear.Placing.{records, All}
use tree.Linear.Addressing.{base}
use tree.Linear.Valid.{IsDistinct, PlacedAt, Valid}
use tree.Linear.Moving.{parts}
use tree.Linear.Rounds.{RoomFor}

module _ (G : Geometry) (F : Functions) (room : G.slots_offset ≤ G.page_bytes) where
  -- A new table is valid, at the start of the first round.
  pub create-Valid : Valid G F 0 128 (create G)
  unfolding create new_page
  create-Valid = record {
    sorted = record {
      placed = λ c.
          either_if (λ ps. All (PlacedAt G F 0 128 c) (records ps)) (ltb c 128) _ [] (λ _. tt)
            (λ _. tt);
      fits = λ c.
          either_if (All (Fits G)) (ltb c 128) _ [] (λ _. (new_page-Fits G false c room, tt))
            (λ _. tt);
      present = λ c h. ground (arith, h);
      absent = λ c h. ground (arith, h);
    };
    word = refl;
    low = omega arith;
    high = omega arith;
    started = refl;
    finished = refl;
    target = refl;
  }

-- The parts of a chain of at most two pages fit them and two more.
pub short-RoomFor :
    (G : Geometry) (F : Functions) (i b : ℕ) (t : Table)
    → G.page_bytes < 2 ^ 15
    → G.slots_offset ≤ G.page_bytes
    → i + 1 < 16
    → Valid G F i b t
    → IsDistinct t
    → length (t.chain (b - base i)) ≤ 2
    → RoomFor G F i b t
short-RoomFor G F i b t small room power valid distinct short v e =
    let p =
      parts G F small room i b power valid.low valid.high t
        (record { sorted = valid.sorted; distinct = distinct }) in
    let sizes : Run (Pages × Pages) → ℕ = λ r. elim r [ ok v ↦ size v.0 + size v.1 | fault ↦ 0 ] in
    let same : size p.left + size p.right ≡ size v.0 + size v.1 = ap sizes (sym p.run ∙ e) in
    omega (arith, same, p.lefts.few, p.rights.few, short)
