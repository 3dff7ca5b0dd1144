-- ===== src/AntiCache/Fetching.antt =====
-- backend/anti-caching/AntiCache.hpp: the block that `bring_tuple_from_block_table` brings back to the cache.
use tree.Prelude.{
  ℕ, ◌≡◌, ◌==◌, inl, inr, Option, none, some, List, [], ◌∷◌, arith, refl, sym, ap, subst, ◌∙◌,
  ==→eq, Bool-cases, Option-cases, Run, ok, fault, check, ◌>>=◌, ◌>>◌, is_some,
}
use tree.AntiCache.Tables.{Table, Blocks}
use tree.AntiCache.Adapter.{AntiCache}
use tree.AntiCache.Valid.{Valid, view, in_block, Keys}
use tree.AntiCache.Evicting.{stored_block}
use tree.AntiCache.Access.{admit_tuples, bring_block}
use tree.AntiCache.Joining.{listed, admit_run}
use tree.AntiCache.Admitting.{admitted, not_cached, tomb_before, tomb_back, same_back, back-Valid}

module _ {P : Type 0} (B : Blocks P) where
  replaced :
      (d : B.Db) (b : ℕ) (block : List (ℕ × P)) (j c : ℕ)
      → B.get d b ≡ some block
      → in_block j (B.get (B.put d b block) c) ≡ in_block j (B.get d c)
  replaced d b block j c e = elim (Bool-cases (b == c)) [
    | inl q ↦ ground (arith, B.get-put d b c block, q, e, ap (B.get d) (==→eq b c q))
    | inr q ↦ ground (arith, B.get-put d b c block, q)
  ]

  deleted :
      (d : B.Db) (b j c : ℕ)
      → in_block j (B.get (B.delete d b) c) ≡ in_block j (B.get (B.put d b []) c)
  deleted d b j c = ground (arith, B.get-put d b c [], B.get-delete d b c)

module _ {P : Type 0} {C : Table ℕ} {E : Table (ℕ × ℕ)} {B : Blocks P} where
  admit_tuples_step :
      (q k : ℕ) (v : P) (rest : List (ℕ × P)) (s : AntiCache C E B) (r : ℕ × ℕ)
      → C.find s.cache k ≡ none
      → E.find s.evict_table k ≡ some r
      → admit_tuples q ((k, v) ∷ rest) s ≡ admit_tuples q rest (admitted (k == q) k v s)
  unfolding admit_tuples
  admit_tuples_step q k v rest s r e t =
      ap
        (λ (a : Run (AntiCache C E B)). a >>= λ s₁.
          check (is_some (E.find s₁.evict_table k))
          >> admit_tuples q rest (record s₁ { evict_table = E.erase s₁.evict_table k }))
        (admit_run s k v (k == q) e)
      ∙ ap
          (λ (o : Option (ℕ × ℕ)).
            check (is_some o) >> admit_tuples q rest (admitted (k == q) k v s))
          t

  -- What the loop leaves when it starts with a block.
  record Brought (q b : ℕ) (block : List (ℕ × P)) (s : AntiCache C E B) : Type 0 where
    s' : AntiCache C E B
    l' : List ℕ
    run : admit_tuples q block s ≡ ok s'
    valid : Valid (stored_block b [] s') l'
    same : (j : ℕ) → view (stored_block b [] s') j ≡ view (stored_block b block s) j
    only : (j : ℕ) (r : ℕ × ℕ) → E.find s'.evict_table j ≡ some r → E.find s.evict_table j ≡ some r
    blocks : s'.block_table ≡ s.block_table

  admit_tuples_lem :
      (q b : ℕ) (block : List (ℕ × P)) (s : AntiCache C E B) (l : List ℕ)
      → Valid (stored_block b block s) l
      → Brought q b block s
  unfolding admit_tuples
  admit_tuples_lem q b [] s l valid = record {
    s' = s;
    l' = l;
    run = refl;
    valid = valid;
    same = λ j. refl;
    only = λ j r e. e;
    blocks = refl;
  }
  admit_tuples_lem q b ((k, v) ∷ rest) s l valid =
      let head = k == q in
      let (o, t) = tomb_before head b k v rest s l valid in
      let m =
        admit_tuples_lem q b rest (admitted head k v s) (listed head s.next_address l)
          (back-Valid head b k v rest s l valid) in
      record {
        s' = m.s';
        l' = m.l';
        run =
            admit_tuples_step q k v rest s (b, o) (not_cached head b k v rest s l valid) t ∙ m.run;
        valid = m.valid;
        same = λ j. m.same j ∙ same_back head b k v rest s l valid j;
        only = λ j r e. ground (arith, m.only j r e, tomb_back head b k v rest s l valid j);
        blocks = m.blocks;
      }

  -- Only what the blocks hold matters.
  module _ (s : AntiCache C E B) (l : List ℕ) (db : B.Db) (valid : Valid s l)
      (equal : (j c : ℕ) → in_block j (B.get db c) ≡ in_block j (B.get s.block_table c))
      (keys : (c : ℕ) (m : List (ℕ × P)) → B.get db c ≡ some m → Keys m) where
    pub same_blocks-Valid : Valid (record s { block_table = db }) l
    same_blocks-Valid = record {
      ring = valid.ring;
      shown = valid.shown;
      known = valid.known;
      single = valid.single;
      stored = λ j c o e. let (lt, w, t) = valid.stored j c o e in (lt, w, equal j c ∙ t);
      tombs = λ j c w e. valid.tombs j c w (sym (equal j c) ∙ e);
      allocated = valid.allocated;
      keys = keys;
      room = valid.room;
      counted = valid.counted;
    }

    pub same_blocks-view : (j : ℕ) → view (record s { block_table = db }) j ≡ view s j
    same_blocks-view j = elim (Option-cases (E.find s.evict_table j)) [
      | inl e ↦ ground (arith, e)
      | inr ((c, o), e) ↦ ground (arith, e, equal j c)
    ]

  -- What `bring_block` does with what RocksDB answers.
  abbrev opened : ℕ → ℕ → AntiCache C E B → Option (List (ℕ × P)) → Run (AntiCache C E B)
  opened k b s r = elim r [
    | none ↦ fault
    | some block ↦
        admit_tuples k block s >>= λ s₁. ok (record s₁ { block_table = B.delete s₁.block_table b })
  ]

  -- What bringing back the block of a key does.
  pub record Fetched (k b : ℕ) (s : AntiCache C E B) : Type 0 where
    pub s' : AntiCache C E B
    pub l' : List ℕ
    pub run : bring_block k b s ≡ ok s'
    pub valid : Valid s' l'
    pub same : (j : ℕ) → view s' j ≡ view s j
    pub back : E.find s'.evict_table k ≡ none

  module _ (s : AntiCache C E B) (l : List ℕ) (valid : Valid s l) (k b o : ℕ)
      (tomb : E.find s.evict_table k ≡ some (b, o)) (block : List (ℕ × P))
      (here : B.get s.block_table b ≡ some block) where
    start-Keys :
        (c : ℕ) (m : List (ℕ × P)) → B.get (B.put s.block_table b block) c ≡ some m → Keys m
    start-Keys c m e = elim (Bool-cases (b == c)) [
      | inl q ↦
          let same : block ≡ m = ground (arith, B.get-put s.block_table b c block, e, q) in
          subst Keys same (valid.keys b block here)
      | inr q ↦ valid.keys c m (ground (arith, B.get-put s.block_table b c block, e, q))
    ]

    start_equal :
        (j c : ℕ)
        → in_block j (B.get (B.put s.block_table b block) c) ≡ in_block j (B.get s.block_table c)
    start_equal j c = replaced B s.block_table b block j c here

    brought : Brought k b block s
    brought =
        admit_tuples_lem k b block s l
          (same_blocks-Valid s l (B.put s.block_table b block) valid start_equal start-Keys)

    end-Keys :
        (c : ℕ) (m : List (ℕ × P)) → B.get (B.delete brought.s'.block_table b) c ≡ some m → Keys m
    end-Keys c m e = brought.valid.keys c m (
        ground (
          arith,
          B.get-put brought.s'.block_table b c [],
          B.get-delete brought.s'.block_table b c,
          e,
        ))

    no_tomb : E.find brought.s'.evict_table k ≡ none
    no_tomb = elim (Option-cases (E.find brought.s'.evict_table k)) [
      | inl e ↦ e
      | inr ((c, o'), e) ↦
          let (lt, w, t) = brought.valid.stored k c o' e in
          absurd (
            ground
              (arith, t, brought.only k (c, o') e, tomb, B.get-put brought.s'.block_table b c []))
    ]

    bring_run :
        bring_block k b s
        ≡ ok (record brought.s' { block_table = B.delete brought.s'.block_table b })
    unfolding bring_block
    bring_run =
        ap (λ (t : Option (ℕ × ℕ)). check (is_some t) >> opened k b s (B.get s.block_table b)) tomb
        ∙ ap (opened k b s) here
        ∙ ap
            (λ (r : Run (AntiCache C E B)).
              r >>= λ s₁. ok (record s₁ { block_table = B.delete s₁.block_table b }))
            brought.run

    pub fetched : Fetched k b s
    fetched = record {
      s' = record brought.s' { block_table = B.delete brought.s'.block_table b };
      l' = brought.l';
      run = bring_run;
      valid =
          same_blocks-Valid (stored_block b [] brought.s') brought.l'
            (B.delete brought.s'.block_table b) brought.valid (deleted B brought.s'.block_table b)
            end-Keys;
      same = λ j.
          same_blocks-view (stored_block b [] brought.s') brought.l'
            (B.delete brought.s'.block_table b) brought.valid (deleted B brought.s'.block_table b)
            end-Keys j
          ∙ brought.same j
          ∙ same_blocks-view s l (B.put s.block_table b block) valid start_equal start-Keys j;
      back = no_tomb;
    }
