-- ===== src/Lock/Optimistic.antt =====
-- backend/LockManager/LockManager.hpp: `OptimisticLockGuard`. A method is a function of the table
-- that each of its atomic accesses meets. `write_lock` makes two, so another thread may have
-- changed the table between them. An `assert` of the source is a precondition of the theorems.
use tree.Prelude.{ℕ, ◌%◌, ◌==◌, ltb, Bool, true, false, if◌then◌else◌, add64, sub64, update}
use tree.Lock.Table.{LockTable, LockState, uninitialized, read_locked, write_locked, moved}
use tree.Lock.Table.{lock_words, compare_exchange}

-- The pointer `lock_table` is the table argument of each method.
pub record Guard : Type 0 where
  pub word_pos : ℕ
  pub version : ℕ
  pub state : LockState

unfoldable pub new_guard : LockTable → ℕ → Guard
new_guard t hash = record {
  word_pos = hash % lock_words;
  version = t.words (hash % lock_words);
  state = uninitialized;
}

unfoldable pub set_snapshot_read_version : Guard → ℕ → Guard
set_snapshot_read_version g snapshot = record g { version = snapshot; state = read_locked }

unfoldable pub read_lock : LockTable → Guard → Bool × Guard
read_lock t g =
    let version = t.words g.word_pos in
    if version % 2 == 0
    then (true, record g { version = version; state = read_locked })
    else (false, record g { version = version })

-- `version = words[word_pos]` and the test for a writer.
unfoldable pub write_lock_load : LockTable → Guard → Bool × Guard
write_lock_load t g =
    let version = t.words g.word_pos in
    (if version % 2 == 1 then false else true, record g { version = version })

-- The compare-exchange from `version` to `version + 1`.
unfoldable pub try_lock : LockTable → Guard → Bool × Guard × LockTable
unfolding compare_exchange
try_lock t g =
    let (swapped, t') = compare_exchange t g.word_pos g.version (add64 g.version 1) in
    if swapped
    then (true, record g { version = add64 g.version 1; state = write_locked }, t')
    else (false, g, t')

-- `before` is the table at the load, `after` the table at the compare-exchange.
unfoldable pub write_lock : LockTable → LockTable → Guard → Bool × Guard × LockTable
unfolding write_lock_load try_lock
write_lock before after g =
    let (free, g') = write_lock_load before g in
    if free then try_lock after g' else (false, g', after)

unfoldable pub upgrade_to_write_lock : LockTable → Guard → Bool × Guard × LockTable
unfolding try_lock
upgrade_to_write_lock t g = try_lock t g

unfoldable pub more_than_one_writer_since : Guard → ℕ → Bool
more_than_one_writer_since g v = ltb 1 (sub64 g.version v)

unfoldable pub validate : LockTable → Guard → Bool
validate t g = t.words g.word_pos == g.version

unfoldable pub version_if_write_unlocked : LockTable → Guard → ℕ
version_if_write_unlocked t g = add64 (t.words g.word_pos) 1

abbrev pub is_write_locked : LockState → Bool
is_write_locked write_locked = true
is_write_locked _ = false

-- The destructor.
unfoldable pub destroy : LockTable → Guard → Guard × LockTable
destroy t g =
    if is_write_locked g.state
    then (
      record g { state = moved },
      record { words = update t.words g.word_pos (add64 (t.words g.word_pos) 1) },
    )
    else (g, t)
