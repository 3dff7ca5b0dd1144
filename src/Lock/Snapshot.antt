-- ===== src/Lock/Snapshot.antt =====
-- backend/LockManager/LockManager.hpp: what `validate` and `more_than_one_writer_since` tell a
-- thread about the records under its word.
use tree.Prelude.{
  ℕ, ◌+◌, ◌%◌, ◌≤◌, ◌<◌, ◌≡◌, refl, true, false, arith, u64_mod, sub64, subst, ◌∙◌, ==→eq,
}
use tree.Lock.Table.{LockTable}
use tree.Lock.Optimistic.{
  Guard, read_lock, write_lock, try_lock, upgrade_to_write_lock, validate,
  more_than_one_writer_since,
}
use tree.Lock.Protocol.{
  System, Step, create, read, load, exchange, upgrade, release, write, Reach, here, next, attempted,
}
use tree.Lock.Exclusion.{Inv, Reach-Inv}

-- Stores to a word only add to its count, and data changes only under an odd word.
record Kept (p : ℕ) (s t : System) : Type 0 where
  pub grows : s.bumps p ≤ t.bumps p
  pub same : t.table.words p % 2 ≡ 0 → s.bumps p ≡ t.bumps p → s.data_at p ≡ t.data_at p

Step-Kept : (p : ℕ) {s t : System} → Inv s → Step s t → Kept p s t
unfolding attempted try_lock upgrade_to_write_lock
Step-Kept p v (create i hash e) = record { grows = omega arith; same = λ h k. refl }
Step-Kept p v (read i e a) = record { grows = omega arith; same = λ h k. refl }
Step-Kept p v (load i e a) = record { grows = omega arith; same = λ h k. refl }
Step-Kept p v (exchange i a) = record { grows = ground arith; same = λ h k. refl }
Step-Kept p v (upgrade i e) = record { grows = ground arith; same = λ h k. refl }
Step-Kept p v (release i a) = record { grows = ground arith; same = λ h k. refl }
Step-Kept p v (write i d e) = record {
  grows = omega arith;
  same = λ h k. ground (arith, (v.sound i).holds e, (v.sound i).odd e);
}

Reach-Kept : (p : ℕ) {s t : System} → Inv s → Reach s t → s.table.words p % 2 ≡ 0 → Kept p s t
Reach-Kept p v here h = record { grows = omega arith; same = λ _ _. refl }
Reach-Kept p {s} v (next {t} {u} r st) h =
    let w = Reach-Inv v r in
    let a = Reach-Kept p v r h in
    let b = Step-Kept p w st in
    let still : s.bumps p ≡ u.bumps p → s.bumps p ≡ t.bumps p =
      λ e. omega (arith, a.grows, b.grows) in
    record {
      grows = omega (arith, a.grows, b.grows);
      same = λ k e.
          a.same (omega (arith, v.counted p, w.counted p, still e)) (still e)
          ∙ b.same k (omega (arith, still e));
    }

-- The result of a successful `read_lock`.
read_lock-reads :
    (t : LockTable) (g : Guard) {g' : Guard}
    → read_lock t g ≡ (true, g')
    → (g'.version ≡ t.words g.word_pos) × (g'.word_pos ≡ g.word_pos) × (g'.version % 2 ≡ 0)
unfolding read_lock
read_lock-reads t g h = ground arith

-- A reader that took its guard by `read_lock` and whose `validate` succeeds later sees the records
-- of its word as they were at the `read_lock`, whatever the other threads did in between, if the
-- word was stored to fewer than 2^64 times.
pub validate_snapshot :
    {s t : System} (g : Guard) {g' : Guard}
    → Inv s
    → read_lock s.table g ≡ (true, g')
    → Reach s t
    → t.bumps g.word_pos < s.bumps g.word_pos + u64_mod
    → validate t.table g' ≡ true
    → s.data_at g.word_pos ≡ t.data_at g.word_pos
unfolding validate
validate_snapshot {s} {t} g {g'} v taken r few ok =
    let seen = read_lock-reads s.table g taken in
    let p = g.word_pos in
    let k = Reach-Kept p v r (omega (arith, seen.0, seen.2)) in
    let now : t.table.words p ≡ s.table.words p =
      subst (λ q. t.table.words q ≡ s.table.words p) seen.1 (==→eq _ _ ok ∙ seen.0) in
    k.same (omega (arith, now, seen.0, seen.2))
      (omega (arith, v.counted p, (Reach-Inv v r).counted p, now, k.grows))

-- The result of a successful `write_lock`.
write_lock-takes :
    (b t : LockTable) (g : Guard) {g' : Guard} {t' : LockTable}
    → write_lock b t g ≡ (true, g', t')
    → (g'.version ≡ (t.words g.word_pos + 1) % u64_mod) × (t.words g.word_pos % 2 ≡ 0)
unfolding write_lock
write_lock-takes b t g h = ground arith

-- The test of `evict_a_bunch`: a key is read-locked with version `v` during the scan of the hot
-- tree and write-locked later. If `more_than_one_writer_since v` is false, the records of its word
-- are at the write lock what they were at the scan, and so need not be read again. The word was
-- stored to fewer than 2^64 times in between.
pub no_writer_since_scan :
    {s t : System} (g w : Guard) (before : LockTable) {g' w' : Guard} {t' : LockTable}
    → Inv s
    → read_lock s.table g ≡ (true, g')
    → Reach s t
    → t.bumps g.word_pos < s.bumps g.word_pos + u64_mod
    → w.word_pos ≡ g.word_pos
    → write_lock before t.table w ≡ (true, w', t')
    → more_than_one_writer_since w' g'.version ≡ false
    → s.data_at g.word_pos ≡ t.data_at g.word_pos
unfolding more_than_one_writer_since
no_writer_since_scan {s} {t} g w before {g'} {w'} v taken r few at locked single =
    let seen = read_lock-reads s.table g taken in
    let got = write_lock-takes before t.table w locked in
    let p = g.word_pos in
    let k = Reach-Kept p v r (omega (arith, seen.0, seen.2)) in
    let even : t.table.words p % 2 ≡ 0 = subst (λ q. t.table.words q % 2 ≡ 0) at got.1 in
    let version : w'.version ≡ (t.table.words p + 1) % u64_mod =
      subst (λ q. w'.version ≡ (t.table.words q + 1) % u64_mod) at got.0 in
    let close : sub64 w'.version g'.version ≤ 1 = ground arith in
    k.same even (
      omega (
        arith,
        v.counted p,
        (Reach-Inv v r).counted p,
        version,
        even,
        seen.0,
        seen.2,
        close,
        k.grows,
      ))

-- A failed `upgrade_to_write_lock` leaves a guard that does not validate against the same words.
upgrade_failed :
    (t : LockTable) (g : Guard)
    → (upgrade_to_write_lock t g).0 ≡ false
    → validate (upgrade_to_write_lock t g).2 (upgrade_to_write_lock t g).1 ≡ false
unfolding upgrade_to_write_lock validate
upgrade_failed t g h = ground arith
