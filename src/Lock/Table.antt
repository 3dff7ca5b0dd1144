-- ===== src/Lock/Table.antt =====
-- backend/LockManager/LockManager.hpp: `OptimisticLockTable` and `OptimisticLockState`.
use tree.Prelude.{ℕ, ◌%◌, ◌==◌, Bool, update}

abbrev pub lock_words : ℕ
lock_words = 131071

pub data LockState : Type 0 where
  uninitialized read_locked write_locked moved : LockState

-- `words`, by position; positions are below `lock_words`.
pub record LockTable : Type 0 where
  pub words : ℕ → ℕ

unfoldable pub new_table : LockTable
new_table = record { words = λ _. 0 }

unfoldable pub get_key_version : LockTable → ℕ → ℕ
get_key_version t hash = t.words (hash % lock_words)

unfoldable pub update_key_version : LockTable → ℕ → ℕ → LockTable
update_key_version t hash version = record { words = update t.words (hash % lock_words) version }

-- A strong compare-exchange: the outcome, and the table after it.
unfoldable pub compare_exchange : LockTable → ℕ → ℕ → ℕ → Bool × LockTable
compare_exchange t pos expected desired = elim (t.words pos == expected) [
  | Bool.true ↦ (Bool.true, record { words = update t.words pos desired })
  | Bool.false ↦ (Bool.false, t)
]
