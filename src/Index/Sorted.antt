-- ===== src/Index/Sorted.antt =====
-- backend/leanstore/storage/btree/core/BTreeInterface.hpp: the interface filled by sorted lists, with
-- room for a given number of records in `insert_might_fail` and one record to a leaf.
mod Entries
use tree.Prelude.{
  ℕ, zero, suc, ◌==◌, ◌≡◌, ◌≤◌, ◌⊎◌, inl, inr, refl, sym, if◌then◌else◌, ltb, leb, is_some, Bool,
  true, false, Option, none, some, List, [], ◌∷◌, arith, length, Bool-cases,
}
use mathlib.Core.Option
use tree.Index.Contract.{OpResult, ok, not_found, duplicate, not_enough_space, Ascends, find, Index}
use Entries.{
  put, modify, erase, from, walk, Ascends-put, find-put, Ascends-modify, find-modify, Ascends-erase,
  find-erase, Ascends-from, find-from,
}

pub record SortedTree (V : Type 0) : Type 0 where
  pub entries : List (ℕ × V)
  pub sorted : Ascends 0 entries

module _ {V : Type 0} where
  abbrev pub lookup : SortedTree V → ℕ → Option V
  lookup t k = find k t.entries

  abbrev pub with_put : SortedTree V → ℕ → V → SortedTree V
  with_put t k v = record {
    entries = put k v t.entries;
    sorted = Ascends-put k v t.entries 0 (omega arith) t.sorted;
  }

  abbrev pub insert : SortedTree V → ℕ → V → OpResult × SortedTree V
  insert t k v = elim (lookup t k) [ none ↦ (ok, with_put t k v) | some _ ↦ (duplicate, t) ]

  abbrev pub insert_might_fail : ℕ → SortedTree V → ℕ → V → OpResult × SortedTree V
  insert_might_fail room t k v =
      if leb room (length t.entries) then (not_enough_space, t) else insert t k v

  abbrev pub update : SortedTree V → ℕ → (V → V) → OpResult × SortedTree V
  update t k f = (
    if is_some (lookup t k) then ok else not_found,
    record { entries = modify k f t.entries; sorted = Ascends-modify k f t.entries 0 t.sorted },
  )

  abbrev pub remove : SortedTree V → ℕ → OpResult × SortedTree V
  remove t k = (
    if is_some (lookup t k) then ok else not_found,
    record { entries = erase k t.entries; sorted = Ascends-erase k t.entries 0 t.sorted },
  )

  pub lookup-insert :
      (t : SortedTree V) (k j : ℕ) (v : V)
      → lookup t k ≡ none
      → lookup (insert t k v).1 j ≡ (if k == j then some v else lookup t j)
  lookup-insert t k j v h = rw (h, insert) (find-put k j v t.entries 0 t.sorted)

  pub insert_fresh : (t : SortedTree V) (k : ℕ) (v : V) → lookup t k ≡ none → (insert t k v).0 ≡ ok
  insert_fresh t k v h = rw (h, insert)

  pub insert_present :
      (t : SortedTree V) (k : ℕ) (v w : V) → lookup t k ≡ some w → insert t k v ≡ (duplicate, t)
  insert_present t k v w h = rw (h, insert)

  pub might_fail :
      (room : ℕ) (t : SortedTree V) (k : ℕ) (v : V)
      → (insert_might_fail room t k v ≡ (not_enough_space, t))
        ⊎ (insert_might_fail room t k v ≡ insert t k v)
  might_fail room t k v = elim (Bool-cases (leb room (length t.entries))) [
    | inl full ↦ inl (rw full)
    | inr free ↦ inr (rw free)
  ]

-- `room` bounds the records for `insert_might_fail`.
abbrev pub sorted_index : (V : Type 0) (room : ℕ) → Index V
sorted_index V room = record {
  Tree = SortedTree V;
  lookup = lookup;
  insert = insert;
  insert_might_fail = insert_might_fail room;
  upsert = λ t k v. (ok, with_put t k v);
  update = update;
  remove = remove;
  scan_asc = λ t low. from low t.entries;
  boundary = λ t low n. some (walk n low (from low t.entries));
  insert_fresh = insert_fresh;
  insert_present = insert_present;
  lookup-insert = lookup-insert;
  might_fail = might_fail room;
  upsert_ok = λ t k v. refl;
  lookup-upsert = λ t k j v. find-put k j v t.entries 0 t.sorted;
  update_result = λ t k f. refl;
  lookup-update = λ t k j f. find-modify k j f t.entries;
  remove_result = λ t k. refl;
  lookup-remove = λ t k j. find-erase k j t.entries 0 t.sorted;
  scan_ascends = λ t low. Ascends-from low t.entries 0 t.sorted;
  find-scan = λ t low k le. find-from low k t.entries le;
}

abbrev pub empty_tree : {V : Type 0} → SortedTree V
empty_tree = record { entries = []; sorted = tt }
