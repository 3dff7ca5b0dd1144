-- ===== src/Tests/Locks.antt =====
-- Witnesses for the lock guards.
use tree.Prelude.{ℕ, ◌+◌, ◌*◌, ◌%◌, ◌≡◌, ◌≢◌, refl, true, if◌then◌else◌, arith}
use tree.Lock.Table.{uninitialized, read_locked, write_locked, new_table}
use tree.Lock.Optimistic.{
  Guard, new_guard, read_lock, write_lock_load, write_lock, try_lock, upgrade_to_write_lock,
  destroy, validate, more_than_one_writer_since,
}
use tree.Lock.Protocol.{
  System, create, load, exchange, release, write, Reach, here, next, start, attempted,
}
use tree.Lock.Exclusion.{start-Inv, mutual_exclusion}
use tree.Lock.Snapshot.{validate_snapshot, no_writer_since_scan}
use tree.Lock.Pessimistic.{
  readers_unit, get_readers, get_writer_version, do_read_lock, do_write_lock,
}
use tree.Lock.Holders.{Held, lock, share, unheld, word_tells_holders, reader_overflow}
use tree.Lock.Holders

-- Threads 0 and 1 take write locks on words 5 and 6.
abbrev zeros : ℕ → ℕ
zeros _ = 0

abbrev s₀ : System
s₀ = start zeros

run : Unit {0}
unfolding new_guard read_lock write_lock_load try_lock upgrade_to_write_lock destroy attempted
    new_table
run = tt

two_writers : (s : System) × Reach s₀ s
unfolding run
two_writers =
    let a = next (next (next here (create 0 5 refl)) (load 0 refl refl)) (exchange 0 refl) in
    (_, next (next (next a (create 1 6 refl)) (load 1 refl refl)) (exchange 1 refl))

abbrev writers : System
writers = two_writers.0

mutual_exclusion_example :
    ((let (i, j) : ℕ × ℕ = (0, 1) in i ≢ j)
      → (writers.guards 0).word_pos ≢ (writers.guards 1).word_pos)
    × (writers.table.words (writers.guards 0).word_pos ≡ (writers.guards 0).version)
    × ((writers.guards 0).version % 2 ≡ 1)
unfolding two_writers
mutual_exclusion_example = mutual_exclusion zeros 0 1 two_writers.1 refl refl

-- Thread 0 reads word 5; then thread 1 writes the records of word 6.
abbrev reader : Guard
reader = record { word_pos = 5; version = 0; state = uninitialized }

abbrev locked_reader : Guard
locked_reader = record reader { state = read_locked }

other_writer : (s : System) × Reach s₀ s
unfolding run
other_writer =
    let a = next (next (next here (create 1 6 refl)) (load 1 refl refl)) (exchange 1 refl) in
    (_, next (next a (write 1 77 refl)) (release 1 refl))

reader_locks : read_lock s₀.table reader ≡ (true, locked_reader)
unfolding run
reader_locks = refl

validate_snapshot_example : s₀.data_at 5 ≡ other_writer.0.data_at 5
unfolding other_writer validate
validate_snapshot_example =
    validate_snapshot reader (start-Inv zeros) reader_locks other_writer.1 (omega arith) refl

abbrev evictor : Guard
evictor = record { word_pos = 5; version = 1; state = write_locked }

no_writer_since_scan_example : s₀.data_at 5 ≡ other_writer.0.data_at 5
unfolding other_writer write_lock more_than_one_writer_since
no_writer_since_scan_example =
    no_writer_since_scan reader reader other_writer.0.table {w' = evictor} (start-Inv zeros)
      reader_locks other_writer.1 (omega arith) refl refl refl

shared : (h : Held) × Holders.Reach unheld h
unfolding do_read_lock do_write_lock
shared = (
  _,
  Holders.next (Holders.next (Holders.next Holders.here (share 0)) (share readers_unit)) (lock 0),
)

few : Holders.Few shared.1
unfolding do_read_lock do_write_lock shared
few = (((tt, omega arith), omega arith), omega arith)

word_tells_holders_example :
    (get_readers shared.0.word ≡ shared.0.readers)
    × (get_writer_version shared.0.word % 2 ≡ (if shared.0.writing then 1 else 0))
    × (shared.0.writing ≡ true → shared.0.readers ≡ 0)
word_tells_holders_example = word_tells_holders shared.1 few

reader_overflow_example :
    (do_read_lock (255 * readers_unit + 6) (255 * readers_unit + 6) ≡ (true, 6))
    × (do_write_lock 6 6 ≡ (true, 7))
reader_overflow_example = reader_overflow 6 (omega arith) refl
