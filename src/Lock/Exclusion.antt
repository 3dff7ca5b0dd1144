-- ===== src/Lock/Exclusion.antt =====
-- Mutual exclusion of the optimistic guards, by an invariant of all interleavings.
use tree.Prelude.{
  ℕ, ◌%◌, ◌≡◌, ◌≢◌, refl, sym, ap, ◌∙◌, fun_ext, inl, inr, Bool, true, false, arith, u64_mod,
  update, ◌==◌, Bool-cases, ==→eq,
}
use tree.Lock.Table.{LockTable, uninitialized, read_locked, write_locked, moved, new_table}
use tree.Lock.Optimistic.{
  Guard, is_write_locked, new_guard, read_lock, write_lock_load, try_lock, upgrade_to_write_lock,
  destroy,
}
use tree.Lock.Protocol.{
  System, Step, create, read, load, exchange, upgrade, release, write, Reach, here, next, start,
  attempted, bump_if,
}

-- A thread that is past its test, or that holds a read lock, has seen an even version; the word of
-- a writer holds the writer's odd version.
pub record IsSound (t : LockTable) (g : Guard) : Type 0 where
  pub read_even : g.state ≡ read_locked → g.version % 2 ≡ 0
  pub holds : g.state ≡ write_locked → t.words g.word_pos ≡ g.version
  pub odd : g.state ≡ write_locked → g.version % 2 ≡ 1

pub record Inv (s : System) : Type 0 where
  pub counted : (p : ℕ) → s.table.words p ≡ s.bumps p % u64_mod
  pub sound : (i : ℕ) → IsSound s.table (s.guards i)
  pub armed_even : (i : ℕ) → s.armed i ≡ true → (s.guards i).version % 2 ≡ 0
  pub armed_free : (i : ℕ) → s.armed i ≡ true → (s.guards i).state ≡ uninitialized
  pub exclusive :
      (i j : ℕ)
      → (s.guards i).state ≡ write_locked
      → (s.guards j).state ≡ write_locked
      → (s.guards i).word_pos ≡ (s.guards j).word_pos
      → i ≡ j

module _ {s : System} (v : Inv s) (i : ℕ) (even : (s.guards i).version % 2 ≡ 0) where
  attempt-Inv :
      ((s.guards i).state ≡ write_locked → ⊥) → Inv (attempted s i (try_lock s.table (s.guards i)))
  unfolding attempted try_lock
  attempt-Inv free = record {
    counted = λ p. ground (arith, v.counted p, v.counted (s.guards i).word_pos);
    sound = λ j. record {
      read_even = ground (arith, (v.sound j).read_even, (v.sound i).read_even);
      holds = ground (arith, (v.sound j).holds, (v.sound j).odd, (v.sound i).holds);
      odd = ground (arith, (v.sound j).odd, (v.sound i).odd);
    };
    armed_even = λ j. ground (arith, v.armed_even j);
    armed_free = λ j. ground (arith, v.armed_free j);
    exclusive = λ j k. ground (
      arith,
      v.exclusive j k,
      (v.sound j).holds,
      (v.sound k).holds,
      (v.sound j).odd,
      (v.sound k).odd,
    );
  }

-- A step that leaves the words alone and makes no writer.
module _ {s : System} (v : Inv s) (i : ℕ) where
  quiet-Inv :
      (g : Guard) (b : Bool)
      → (g.state ≡ write_locked → ⊥)
      → (g.state ≡ read_locked → g.version % 2 ≡ 0)
      → (b ≡ true → (g.version % 2 ≡ 0) × (g.state ≡ uninitialized))
      → Inv (record s { guards = update s.guards i g; armed = update s.armed i b })
  quiet-Inv g b free even ready = record {
    counted = v.counted;
    sound = λ j. record {
      read_even = ground (arith, (v.sound j).read_even);
      holds = ground (arith, (v.sound j).holds);
      odd = ground (arith, (v.sound j).odd);
    };
    armed_even = λ j. ground (arith, v.armed_even j);
    armed_free = λ j. ground (arith, v.armed_free j);
    exclusive = λ j k. ground (arith, v.exclusive j k);
  }

  release-Inv :
      s.armed i ≡ false
      → Inv (record s {
        table = (destroy s.table (s.guards i)).1;
        guards = update s.guards i (record (s.guards i) { state = moved });
        bumps = bump_if (is_write_locked (s.guards i).state) s.bumps (s.guards i).word_pos;
      })
  unfolding destroy
  release-Inv a = record {
    counted = λ p. ground (arith, v.counted p, v.counted (s.guards i).word_pos);
    sound = λ j. record {
      read_even = ground (arith, (v.sound j).read_even);
      holds = ground (arith, (v.sound j).holds, v.exclusive i j);
      odd = ground (arith, (v.sound j).odd);
    };
    armed_even = λ j. ground (arith, v.armed_even j);
    armed_free = λ j. ground (arith, v.armed_free j);
    exclusive = λ j k. ground (arith, v.exclusive j k);
  }

-- An update by the value that is there changes nothing.
update_same {ℓ} : {A : Type ℓ} (f : ℕ → A) (i : ℕ) (a : A) → f i ≡ a → update f i a ≡ f
update_same f i a e =
    fun_ext
      λ j. elim (Bool-cases (i == j)) [ inl h ↦ rw h (sym e ∙ ap f (==→eq i j h)) | inr h ↦ rw h ]

Step-Inv : {s t : System} → Step s t → Inv s → Inv t
unfolding new_guard read_lock write_lock_load
Step-Inv {s} (create i hash e) v =
    rw (← update_same s.armed i (s.armed i) refl)
      (quiet-Inv v i _ _ (ground arith) (ground arith) (ground (arith, v.armed_free i)))
Step-Inv {s} (read i e a) v =
    rw (← update_same s.armed i false a)
      (quiet-Inv v i _ _ (ground arith) (ground arith) (ground arith))
Step-Inv (load i e a) v = quiet-Inv v i _ _ (ground arith) (ground arith) (ground arith)
Step-Inv (exchange i a) v = attempt-Inv v i (v.armed_even i a) (ground (arith, v.armed_free i))
Step-Inv (upgrade i e) v =
    unfold upgrade_to_write_lock in attempt-Inv v i ((v.sound i).read_even e) (ground arith)
Step-Inv (release i a) v = release-Inv v i a
Step-Inv (write i d e) v = record {
  counted = v.counted;
  sound = v.sound;
  armed_even = v.armed_even;
  armed_free = v.armed_free;
  exclusive = v.exclusive;
}

pub start-Inv : (d : ℕ → ℕ) → Inv (start d)
unfolding new_table
start-Inv d = record {
  counted = λ p. refl;
  sound = λ i. record { read_even = λ h. cc; holds = λ h. cc; odd = λ h. cc };
  armed_even = λ i h. cc;
  armed_free = λ i h. cc;
  exclusive = λ i j h. cc;
}

pub Reach-Inv : {s t : System} → Inv s → Reach s t → Inv t
Reach-Inv v here = v
Reach-Inv v (next r st) = Step-Inv st (Reach-Inv v r)

-- Whatever the interleaving from the start, two threads that hold write locks hold them on
-- different words, and the word of each is odd and equals the version in its guard.
pub mutual_exclusion :
    (d : ℕ → ℕ) {s : System} (i j : ℕ)
    → Reach (start d) s
    → (s.guards i).state ≡ write_locked
    → (s.guards j).state ≡ write_locked
    → (i ≢ j → (s.guards i).word_pos ≢ (s.guards j).word_pos)
      × (s.table.words (s.guards i).word_pos ≡ (s.guards i).version)
      × ((s.guards i).version % 2 ≡ 1)
mutual_exclusion d i j r hi hj =
    let v = Reach-Inv (start-Inv d) r in
    (λ ne e. ne (v.exclusive i j hi hj e), (v.sound i).holds hi, (v.sound i).odd hi)
