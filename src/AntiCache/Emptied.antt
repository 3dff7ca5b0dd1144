-- ===== src/AntiCache/Emptied.antt =====
-- backend/anti-caching/AntiCache.hpp: the loop of `evict_all`.
use tree.Prelude.{
  ℕ, zero, suc, ◌+◌, ◌^◌, ◌<◌, ◌≡◌, Option, none, some, List, [], ◌∷◌, arith, refl, ap, ◌∙◌, length,
  Run, ok, ◌>>=◌,
}
use tree.AntiCache.Tables.{Table, Blocks}
use tree.AntiCache.Adapter.{AntiCache, evict_bunch}
use tree.AntiCache.Valid.{Valid, view}
use tree.AntiCache.Access.{evict_all}
use tree.AntiCache.Bunch.{evict_bunch_lem}

module _ {P : Type 0} {C : Table ℕ} {E : Table (ℕ × ℕ)} {B : Blocks P} where
  abbrev next : ℕ → ℕ → Run (Option (AntiCache C E B)) → Run (Option (AntiCache C E B))
  next bunch fuel r = r >>= λ r. elim r [ none ↦ ok none | some s₁ ↦ evict_all bunch fuel s₁ ]

  abbrev round : ℕ → ℕ → AntiCache C E B → ℕ → Run (Option (AntiCache C E B))
  round bunch fuel s n = elim n [
    | zero ↦ ok (some s)
    | suc n ↦ next bunch fuel (evict_bunch bunch s)
  ]

  -- In a valid state with a block id for every cached tuple, `evict_all` fails no assertion, ends within as many
  -- rounds as there are cached tuples with an empty cache, and changes nothing that a client sees.
  pub evict_all_lem :
      (bunch fuel : ℕ) (s : AntiCache C E B) (l : List ℕ)
      → Valid s l
      → s.block_id_counter + length l < 2 ^ 32
      → length l < bunch
      → length l < fuel
      → (s' : AntiCache C E B) × (evict_all bunch fuel s ≡ ok (some s'))
        × Valid s' []
        × ((k : ℕ) → view s' k ≡ view s k)
  unfolding evict_all
  evict_all_lem bunch zero s l valid ids small h = absurd (omega (arith, h))
  evict_all_lem bunch (suc fuel) s [] valid ids small h =
      (s, ap (round bunch fuel s) valid.counted, valid, λ k. refl)
  evict_all_lem bunch (suc fuel) s (a ∷ l) valid ids small h =
      let (s₁, kept, moved, run, parts, less, valid₁, counter, same) =
        evict_bunch_lem bunch s (a ∷ l) valid (omega (arith, ids)) small in
      let full : length (a ∷ l) ≡ suc (length l) = omega arith in
      let shorter : length kept < length (a ∷ l) = less (omega arith) in
      let (s', run', valid', same') =
        evict_all_lem bunch fuel s₁ kept valid₁ (omega (arith, ids, counter, shorter))
          (omega (arith, small, shorter)) (omega (arith, h, shorter)) in
      (
        s',
        ap (round bunch fuel s) (valid.counted ∙ full) ∙ ap (next bunch fuel) run ∙ run',
        valid',
        λ k. same' k ∙ same k,
      )
