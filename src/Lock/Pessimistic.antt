-- ===== src/Lock/Pessimistic.antt =====
-- backend/LockManager/LockManager.hpp: `PessimisticLockGuard`. A lock word holds the number of
-- readers in its top 8 bits and a writer version below. An operation loads the word and then
-- compares and exchanges it: `loaded` is the word at the load, `now` the word at the exchange.
use tree.Prelude.{
  ℕ, ◌+◌, ◌-◌, ◌*◌, ◌/◌, ◌%◌, ◌^◌, ◌==◌, ◌||◌, ltb, not, Bool, true, false, if◌then◌else◌, Option,
  none, some, List, [], ◌∷◌, u64_mod,
}
use tree.Lock.Table.{LockState, uninitialized, read_locked, write_locked, moved}

abbrev pub readers_unit : ℕ
readers_unit = 2 ^ 56

unfoldable pub get_readers : ℕ → ℕ
get_readers word = word / readers_unit % 256

-- The result type is `u16`.
unfoldable pub get_writer_version : ℕ → ℕ
get_writer_version word = word % readers_unit % 2 ^ 16

-- `writer_version` is at most 2^16 in every call, so that the `|` is a sum.
unfoldable pub make_word : ℕ → ℕ → ℕ
make_word readers writer_version = readers * readers_unit % u64_mod + writer_version

-- The outcome of a strong compare-exchange, and the word after it.
unfoldable pub exchange_word : ℕ → ℕ → ℕ → Bool × ℕ
exchange_word now expected desired = if now == expected then (true, desired) else (false, now)

unfoldable pub do_write_lock : ℕ → ℕ → Bool × ℕ
unfolding get_readers get_writer_version make_word exchange_word
do_write_lock loaded now =
    let readers = get_readers loaded in
    let writer_version = get_writer_version loaded in
    if not (readers == 0) || not (writer_version % 2 == 0)
    then (false, now)
    else exchange_word now loaded (make_word readers (writer_version + 1))

-- Only the writer changes a write-locked word, so its exchange succeeds at the first attempt.
unfoldable pub do_write_unlock : ℕ → ℕ → Bool × ℕ
unfolding get_readers get_writer_version make_word exchange_word
do_write_unlock loaded now =
    exchange_word now loaded (make_word (get_readers loaded) (get_writer_version loaded + 1))

unfoldable pub do_upgrade_write_lock : ℕ → ℕ → Bool × ℕ
unfolding get_readers get_writer_version make_word exchange_word
do_upgrade_write_lock loaded now =
    let readers = get_readers loaded in
    let writer_version = get_writer_version loaded in
    if not (readers == 1) || not (writer_version % 2 == 0)
    then (false, now)
    else exchange_word now loaded (make_word 0 (writer_version + 1))

unfoldable pub do_read_lock : ℕ → ℕ → Bool × ℕ
unfolding get_readers get_writer_version make_word exchange_word
do_read_lock loaded now =
    let readers = get_readers loaded in
    let writer_version = get_writer_version loaded in
    if not (writer_version % 2 == 0)
    then (false, now)
    else exchange_word now loaded (make_word (readers + 1) writer_version)

-- One round of the loop.
unfoldable pub read_unlock_round : ℕ → ℕ → Bool × ℕ
unfolding get_readers get_writer_version make_word exchange_word
read_unlock_round loaded now =
    exchange_word now loaded (make_word (get_readers loaded - 1) (get_writer_version loaded))

-- The loop, over the words that its rounds meet; `none` if it has not ended with the last of them.
unfoldable pub do_read_unlock : List (ℕ × ℕ) → Option ℕ
do_read_unlock [] = none
do_read_unlock ((loaded, now) ∷ rest) =
    let again = do_read_unlock rest in
    let (done, word) = read_unlock_round loaded now in if done then some word else again

-- `writer_version_latest - writer_version > 1` on `int`s.
unfoldable pub more_than_one_writer_since : ℕ → ℕ → Bool
unfolding get_writer_version
more_than_one_writer_since word v = ltb (get_writer_version v + 1) (get_writer_version word)

-- The guard's methods: the state, and the word that it points to.
unfoldable pub read_lock : LockState → ℕ → ℕ → Bool × LockState × ℕ
unfolding do_read_lock
read_lock state loaded now =
    let (done, word) = do_read_lock loaded now in
    if done then (true, read_locked, word) else (false, state, word)

unfoldable pub write_lock : LockState → ℕ → ℕ → Bool × LockState × ℕ
unfolding do_write_lock
write_lock state loaded now =
    let (done, word) = do_write_lock loaded now in
    if done then (true, write_locked, word) else (false, state, word)

unfoldable pub upgrade_to_write_lock : LockState → ℕ → ℕ → Bool × LockState × ℕ
unfolding do_upgrade_write_lock
upgrade_to_write_lock state loaded now =
    let (done, word) = do_upgrade_write_lock loaded now in
    if done then (true, write_locked, word) else (false, state, word)

-- The destructor, when no other thread touches the word meanwhile.
unfoldable pub destroy : LockState → ℕ → LockState × ℕ
unfolding do_write_unlock read_unlock_round
destroy write_locked word = (moved, (do_write_unlock word word).1)
destroy read_locked word = (moved, (read_unlock_round word word).1)
destroy uninitialized word = (uninitialized, word)
destroy moved word = (moved, word)
