-- ===== src/AntiCache/Begun.antt =====
-- backend/anti-caching/AntiCache.hpp: the state from which the loop of `evict_bunch` starts.
use tree.Prelude.{
  Bool-cases, ℕ, ◌<◌, ◌≡◌, ◌==◌, inl, inr, none, some, List, [], arith, subst, ◌∙◌, Option-cases,
  if◌then◌else◌,
}
use tree.AntiCache.Tables.{Table, Blocks}
use tree.AntiCache.Adapter.{AntiCache}
use tree.AntiCache.Valid.{Keys, Valid, view, in_block}
use tree.AntiCache.Evicting.{stored_block}

module _ {P : Type 0} {C : Table ℕ} {E : Table (ℕ × ℕ)} {B : Blocks P} where
  -- No block of the id of the counter is known, so an empty one shows nothing.
  module _ (s : AntiCache C E B) (l : List ℕ) (valid : Valid s l) (counter : ℕ)
      (above : s.block_id_counter < counter) where
    abbrev pub begun : AntiCache C E B
    begun = stored_block s.block_id_counter [] (record s { block_id_counter = counter })

    old_block :
        (k c : ℕ)
        → in_block k (B.get begun.block_table c)
          ≡ (if s.block_id_counter == c then none else in_block k (B.get s.block_table c))
    old_block k c = ground (arith, B.get-put s.block_table s.block_id_counter c [])

    begun-Keys : (c : ℕ) (m : List (ℕ × P)) → B.get begun.block_table c ≡ some m → Keys m
    begun-Keys c m e = elim (Bool-cases (s.block_id_counter == c)) [
      | inl q ↦
          let same : [] ≡ m =
            ground (arith, B.get-put s.block_table s.block_id_counter c [], e, q) in
          subst Keys same tt
      | inr q ↦
          valid.keys c m (ground (arith, B.get-put s.block_table s.block_id_counter c [], e, q))
    ]

    pub begun-Valid : Valid begun l
    begun-Valid = record {
      ring = valid.ring;
      shown = valid.shown;
      known = valid.known;
      single = valid.single;
      stored = λ k c o e.
          let (lt, v, t) = valid.stored k c o e in
          (omega (arith, above), v, old_block k c ∙ ground (arith, t, lt));
      tombs = λ k c v e. valid.tombs k c v (ground (arith, old_block k c, e));
      allocated = valid.allocated;
      keys = λ c m e. begun-Keys c m e;
      room = valid.room;
      counted = valid.counted;
    }

    pub begun-view : (k : ℕ) → view begun k ≡ view s k
    begun-view k = elim (Option-cases (E.find s.evict_table k)) [
      | inl e ↦ ground (arith, e)
      | inr ((c, o), e) ↦
          let (lt, v, t) = valid.stored k c o e in ground (arith, e, lt, old_block k c)
    ]
