-- ===== src/Lock/Holders.antt =====
-- backend/LockManager/LockManager.hpp: what a pessimistic lock word says about the threads that
-- hold it, over every interleaving of operations, with stale loads.
use tree.Prelude.{
  ℕ, ◌+◌, ◌-◌, ◌*◌, ◌/◌, ◌%◌, ◌^◌, ◌≤◌, ◌<◌, ◌≡◌, Bool, true, false, arith, if◌then◌else◌,
}
use tree.Lock.Pessimistic.{
  readers_unit, get_readers, get_writer_version, do_write_lock, do_write_unlock,
  do_upgrade_write_lock, do_read_lock, read_unlock_round,
}

-- The word, and the threads that hold it: `readers` of them for reading, and one for writing or
-- none.
pub record Held : Type 0 where
  pub word : ℕ
  pub readers : ℕ
  pub writing : Bool

abbrev pub took : Held → Bool × ℕ → ℕ → Bool → Held
took h r n w =
    if r.0 then record { word = r.1; readers = n; writing = w } else record h { word = r.1 }

-- A load may be stale, except where the holder's own lock keeps the others away.
pub data Step (h : Held) : Held → Type 0 where
  lock : (loaded : ℕ) → Step h (took h (do_write_lock loaded h.word) h.readers true)
  unlock : h.writing ≡ true → Step h (took h (do_write_unlock h.word h.word) h.readers false)
  upgrade :
      (loaded : ℕ)
      → 0 < h.readers
      → Step h (took h (do_upgrade_write_lock loaded h.word) (h.readers - 1) true)
  share : (loaded : ℕ) → Step h (took h (do_read_lock loaded h.word) (h.readers + 1) h.writing)
  unshare :
      (loaded : ℕ)
      → 0 < h.readers
      → Step h (took h (read_unlock_round loaded h.word) (h.readers - 1) h.writing)

pub data Reach (h : Held) : Held → Type 0 where
  here : Reach h h
  next : {k l : Held} → Reach h k → Step k l → Reach h l

-- At most 255 threads read at a time, in every state on the way.
abbrev pub Few : {h k : Held} → Reach h k → Type 0
Few here = Unit
Few (next {k} {l} r s) = Few r × (l.readers < 256)

record Tells (h : Held) : Type 0 where
  pub counts : h.word / readers_unit ≡ h.readers
  pub few : h.readers < 256
  pub small : h.word % readers_unit ≤ 2 ^ 16
  pub odd : h.writing ≡ true → h.word % 2 ≡ 1
  pub even : h.writing ≡ false → h.word % 2 ≡ 0
  pub alone : h.writing ≡ true → h.readers ≡ 0

Step-Tells : {h k : Held} → Step h k → k.readers < 256 → Tells h → Tells k
unfolding do_write_lock do_write_unlock do_upgrade_write_lock do_read_lock read_unlock_round
Step-Tells (lock loaded) f t = ground arith
Step-Tells (unlock w) f t = ground arith
Step-Tells (upgrade loaded r) f t = ground arith
Step-Tells (share loaded) f t = ground arith
Step-Tells (unshare loaded r) f t = ground arith

abbrev pub unheld : Held
unheld = record { word = 0; readers = 0; writing = false }

unheld-Tells : Tells unheld
unheld-Tells = ground arith

Reach-Tells : {h k : Held} → Tells h → (r : Reach h k) → Few r → Tells k
Reach-Tells t here f = t
Reach-Tells t (next r s) f = Step-Tells s f.1 (Reach-Tells t r f.0)

-- However the operations interleave from a free word, as long as at most 255 threads read at a time, the
-- word's reader field is the number of readers, its version is odd exactly while a writer holds it,
-- and a writer excludes readers.
pub word_tells_holders :
    {h : Held}
    → (r : Reach unheld h) → Few r
    → (get_readers h.word ≡ h.readers)
      × (get_writer_version h.word % 2 ≡ (if h.writing then 1 else 0))
      × (h.writing ≡ true → h.readers ≡ 0)
unfolding get_readers get_writer_version
word_tells_holders r f = let t = Reach-Tells unheld-Tells r f in ground arith

-- With 255 readers on the word, one more `do_read_lock` succeeds and sets the reader field to 0, so
-- that `do_write_lock` succeeds while the readers still hold their locks.
pub reader_overflow :
    (version : ℕ)
    → version < 2 ^ 16
    → version % 2 ≡ 0
    → let word = 255 * readers_unit + version in
      (do_read_lock word word ≡ (true, version))
      × (do_write_lock version version ≡ (true, version + 1))
unfolding do_read_lock do_write_lock
reader_overflow version small even = (ground arith, ground arith)
