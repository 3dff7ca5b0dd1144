-- ===== src/Lock/Protocol.antt =====
-- backend/LockManager/LockManager.hpp: any number of threads, each with one optimistic guard, that
-- interleave their atomic accesses. `write_lock` is two steps, its load and its compare-exchange.
use tree.Prelude.{ℕ, ◌+◌, ◌≡◌, Bool, true, false, if◌then◌else◌, update}
use tree.Lock.Table.{LockTable, uninitialized, read_locked, write_locked, moved}
use tree.Lock.Table.{new_table}
use tree.Lock.Optimistic.{
  Guard, is_write_locked, new_guard, read_lock, write_lock_load, try_lock, upgrade_to_write_lock,
  destroy,
}

-- `armed i`: thread `i` has passed the test of `write_lock` and not yet made its exchange.
-- `data p` stands for the records under lock word `p`. `bumps p` counts the stores to word `p`;
-- no step reads it.
pub record System : Type 0 where
  pub table : LockTable
  pub guards : ℕ → Guard
  pub armed : ℕ → Bool
  pub data_at : ℕ → ℕ
  pub bumps : ℕ → ℕ

abbrev pub bump_if : Bool → (ℕ → ℕ) → ℕ → ℕ → ℕ
bump_if b f p = if b then update f p (f p + 1) else f

-- The state after the attempt of thread `i` to lock, whose outcome is `r`.
unfoldable pub attempted : System → ℕ → Bool × Guard × LockTable → System
attempted s i r = record {
  table = r.2;
  guards = update s.guards i r.1;
  armed = update s.armed i false;
  data_at = s.data_at;
  bumps = bump_if r.0 s.bumps (s.guards i).word_pos;
}

pub data Step (s : System) : System → Type 0 where
  create :
      (i hash : ℕ)
      → (s.guards i).state ≡ moved
      → Step s (record s { guards = update s.guards i (new_guard s.table hash) })
  read :
      (i : ℕ)
      → (s.guards i).state ≡ uninitialized
      → s.armed i ≡ false
      → Step s (record s { guards = update s.guards i (read_lock s.table (s.guards i)).1 })
  load :
      (i : ℕ)
      → (s.guards i).state ≡ uninitialized
      → s.armed i ≡ false
      → Step s (record s {
        guards = update s.guards i (write_lock_load s.table (s.guards i)).1;
        armed = update s.armed i (write_lock_load s.table (s.guards i)).0;
      })
  exchange : (i : ℕ) → s.armed i ≡ true → Step s (attempted s i (try_lock s.table (s.guards i)))
  upgrade :
      (i : ℕ)
      → (s.guards i).state ≡ read_locked
      → Step s (attempted s i (upgrade_to_write_lock s.table (s.guards i)))
  release :
      (i : ℕ)
      → s.armed i ≡ false
      → Step s (record s {
        table = (destroy s.table (s.guards i)).1;
        guards = update s.guards i (record (s.guards i) { state = moved });
        bumps = bump_if (is_write_locked (s.guards i).state) s.bumps (s.guards i).word_pos;
      })
  write :
      (i v : ℕ)
      → (s.guards i).state ≡ write_locked
      → Step s (record s { data_at = update s.data_at (s.guards i).word_pos v })

pub data Reach (s : System) : System → Type 0 where
  here : Reach s s
  next : {t u : System} → Reach s t → Step t u → Reach s u

-- Nobody has a guard, every word is 0.
abbrev pub start : (ℕ → ℕ) → System
start d = record {
  table = new_table;
  guards = λ _. record { word_pos = 0; version = 0; state = moved };
  armed = λ _. false;
  data_at = d;
  bumps = λ _. 0;
}
