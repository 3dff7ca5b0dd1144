-- ===== src/Index/Contract.antt =====
-- backend/leanstore/storage/btree/core/BTreeInterface.hpp: `OP_RESULT` and `BTreeInterface` at the
-- level of keys and records.
use tree.Prelude.{
  ℕ, suc, ◌≤◌, ◌==◌, ◌≡◌, ◌⊎◌, Bool, true, false, if◌then◌else◌, is_some, Option, none, some, List,
  [], ◌∷◌,
}
use mathlib.Core.Option

pub data OpResult : Type 0 where
  ok not_found duplicate abort_tx not_enough_space other : OpResult

abbrev pub is_ok : OpResult → Bool
is_ok ok = true
is_ok _ = false

-- The keys ascend strictly, from `low` on.
abbrev pub Ascends {ℓ} : {V : Type ℓ} → ℕ → List (ℕ × V) → Type 0
Ascends low [] = Unit
Ascends low ((k, v) ∷ rest) = (low ≤ k) × Ascends (suc k) rest

abbrev pub find {ℓ} : {V : Type ℓ} → ℕ → List (ℕ × V) → Option V
find k [] = none
find k ((j, v) ∷ rest) = if j == k then some v else find k rest

-- `update` is `updateSameSize`, and every other in-place change of a record that a callback makes.
-- `scan_asc t k` lists what `scanAsc` hands to its callback from key `k` on. `boundary` is
-- `findLeafNeighbouringNodeBoundary`: what it hands to its callback, if it calls it.
pub record Index (V : Type 0) : Type 1 where
  pub Tree : Type 0
  pub lookup : Tree → ℕ → Option V
  pub insert : Tree → ℕ → V → OpResult × Tree
  pub insert_might_fail : Tree → ℕ → V → OpResult × Tree
  pub upsert : Tree → ℕ → V → OpResult × Tree
  pub update : Tree → ℕ → (V → V) → OpResult × Tree
  pub remove : Tree → ℕ → OpResult × Tree
  pub scan_asc : Tree → ℕ → List (ℕ × V)
  pub boundary : Tree → ℕ → ℕ → Option (ℕ × Bool)
  pub insert_fresh : (t : Tree) (k : ℕ) (v : V) → lookup t k ≡ none → (insert t k v).0 ≡ ok
  pub insert_present :
      (t : Tree) (k : ℕ) (v w : V) → lookup t k ≡ some w → insert t k v ≡ (duplicate, t)
  pub lookup-insert :
      (t : Tree) (k j : ℕ) (v : V)
      → lookup t k ≡ none
      → lookup (insert t k v).1 j ≡ (if k == j then some v else lookup t j)
  pub might_fail :
      (t : Tree) (k : ℕ) (v : V)
      → (insert_might_fail t k v ≡ (not_enough_space, t)) ⊎ (insert_might_fail t k v ≡ insert t k v)
  pub upsert_ok : (t : Tree) (k : ℕ) (v : V) → (upsert t k v).0 ≡ ok
  pub lookup-upsert :
      (t : Tree) (k j : ℕ) (v : V)
      → lookup (upsert t k v).1 j ≡ (if k == j then some v else lookup t j)
  pub update_result :
      (t : Tree) (k : ℕ) (f : V → V)
      → (update t k f).0 ≡ (if is_some (lookup t k) then ok else not_found)
  pub lookup-update :
      (t : Tree) (k j : ℕ) (f : V → V)
      → lookup (update t k f).1 j ≡ (if k == j then Option.map f (lookup t j) else lookup t j)
  pub remove_result :
      (t : Tree) (k : ℕ) → (remove t k).0 ≡ (if is_some (lookup t k) then ok else not_found)
  pub lookup-remove :
      (t : Tree) (k j : ℕ) → lookup (remove t k).1 j ≡ (if k == j then none else lookup t j)
  pub scan_ascends : (t : Tree) (low : ℕ) → Ascends low (scan_asc t low)
  pub find-scan : (t : Tree) (low k : ℕ) → low ≤ k → find k (scan_asc t low) ≡ lookup t k
