-- ===== src/Linear/Rounds.antt =====
-- backend/leanstore/storage/hashing/LinearHashing.cpp: the beginning and the end of a split.
use tree.Prelude.{
  ℕ, ◌+◌, ◌-◌, ◌*◌, ◌%◌, ◌^◌, ◌<◌, ◌≤◌, ◌≡◌, ◌==◌, ◌&&◌, Bool, true, false, Option, none, some, [],
  if◌then◌else◌, leb, ltb, length, arith, refl, ap, ◌∙◌, Run, ok, fault, check, check-true, ◌>>=◌,
  ◌>>◌, if_true, if_false, u32_mod,
}
use tree.Linear.Page.{Geometry, new_page}
use tree.Linear.Table.{
  Functions, Table, initial_buckets, make_word, load_power, load_buddy_bucket, compare_swap, power2,
}
use tree.Linear.Split.{Pages, size, part_chain, move_records, finish_split, split}
use tree.Linear.Addressing.{base, base-small, word-power, word-buddy}
use tree.Linear.Valid.{Sorted, Valid}

pub power2-run : (i : ℕ) → i < 16 → power2 i ≡ ok (2 ^ i)
unfolding power2
power2-run i h = if_true (ltb i 16) (ok (2 ^ i)) fault (ground (arith, h))

pub swap-run : (w i b j c : ℕ) → w ≡ make_word i b → compare_swap w i b j c ≡ (true, make_word j c)
unfolding compare_swap
swap-run w i b j c e =
    if_true (w == make_word i b) (true, make_word j c) (false, w) (ground (arith, e))

-- The power after a split of bucket `b`.
abbrev pub next_power : ℕ → ℕ → ℕ
next_power i b = if b + 1 == base i + base i then i + 1 else i

-- The two temporary pages of a split suffice for the parts of its chain.
abbrev pub RoomFor : Geometry → Functions → ℕ → ℕ → Table → Type 0
RoomFor G F i b t =
    (v : Pages × Pages)
    → part_chain G F i (b - base i) b (t.chain (b - base i)) (
      record { full = []; back = new_page G false (b - base i) },
      record { full = []; back = new_page G false b },
    )
      ≡ ok v
    → size v.0 + size v.1 ≤ length (t.chain (b - base i)) + 2

module _ (G : Geometry) (F : Functions) where
  abbrev pub begun : ℕ → ℕ → Table → Table
  begun i b t = record t {
    sp = make_word i (b + 1);
    this_round_started_splits = t.this_round_started_splits + 1;
  }

  pub begun-Sorted : (i b : ℕ) (t : Table) → Sorted G F i b t → Sorted G F i b (begun i b t)
  begun-Sorted i b t s = record {
    placed = s.placed;
    fits = s.fits;
    present = s.present;
    absent = s.absent;
  }

  -- The split from where its bucket is known.
  abbrev swapped : ℕ → ℕ → Table → Bool × ℕ → Run (Option Table)
  swapped i b t r =
      check r.0
      >> (power2 i >>= λ m.
          check (leb (m * initial_buckets) b)
          >> (move_records G F i (b - m * initial_buckets) b
                (record t { sp = r.1; this_round_started_splits = t.this_round_started_splits + 1 })
              >>= λ t₁. finish_split t₁ >>= λ t₂. ok (some t₂)))

  abbrev started : ℕ → ℕ → Table → Run (Option Table)
  started i b t =
      if ltb t.this_round_split_target (t.this_round_started_splits + 1)
      then (power2 (i + 1) >>= λ m. check (b == m * initial_buckets) >> ok none)
      else swapped i b t (compare_swap t.sp i b i ((b + 1) % u32_mod))

  split-started : (t : Table) → split G F t ≡ started (load_power t.sp) (load_buddy_bucket t.sp) t
  unfolding split
  split-started t = refl

  module _ (i b : ℕ) (power : i + 1 < 16) (t : Table) (valid : Valid G F i b t) where
    pub below : b + 1 < 2 ^ 32
    below = omega (arith, valid.high, base-small i (omega (arith, power)))

    pub begun-run : split G F t ≡ (
        move_records G F i (b - base i) b (begun i b t) >>= λ t₁.
        finish_split t₁ >>= λ t₂. ok (some t₂))
    begun-run =
        let p : load_power t.sp ≡ i =
          ap load_power valid.word ∙ word-power i b (omega (arith, power)) (omega (arith, below)) in
        let q : load_buddy_bucket t.sp ≡ b =
          ap load_buddy_bucket valid.word
          ∙ word-buddy i b (omega (arith, power)) (omega (arith, below)) in
        let more : ltb t.this_round_split_target (t.this_round_started_splits + 1) ≡ false =
          ground (arith, valid.target, valid.started, valid.low, valid.high) in
        let narrow : (b + 1) % u32_mod ≡ b + 1 = omega (arith, below) in
        split-started t
        ∙ ap (λ n. started n (load_buddy_bucket t.sp) t) p
        ∙ ap (λ n. started i n t) q
        ∙ if_false (ltb t.this_round_split_target (t.this_round_started_splits + 1)) _
            (swapped i b t (compare_swap t.sp i b i ((b + 1) % u32_mod))) more
        ∙ ap (swapped i b t) (
            swap-run t.sp i b i ((b + 1) % u32_mod) valid.word
            ∙ ap (λ n. (true, make_word i n)) narrow)
        ∙ ap
            (λ (r : Run ℕ). r >>= λ m.
              check (leb (m * initial_buckets) b)
              >> (move_records G F i (b - m * initial_buckets) b (begun i b t) >>= λ t₁.
                  finish_split t₁ >>= λ t₂. ok (some t₂)))
            (power2-run i (omega (arith, power)))
        ∙ check-true (leb (base i) b) _ (ground (arith, valid.low))

-- The end of a split, from its word and its counters.
module _ (i b : ℕ) (power : i + 1 < 16) (t : Table) (word : t.sp ≡ make_word i (b + 1))
    (started : t.this_round_started_splits ≡ b - base i + 1)
    (finished : t.this_round_finished_splits ≡ b - base i)
    (target : t.this_round_split_target ≡ base i) (low : base i ≤ b)
    (high : b < base i + base i) where
  abbrev closed : ℕ → ℕ → Bool × ℕ → Run Table
  closed p n r = power2 (p + 1) >>= λ m.
      check r.0
      >> ok (record t {
        sp = r.1;
        this_round_started_splits = 0;
        this_round_finished_splits = 0;
        this_round_split_target = initial_buckets * m;
      })

  abbrev pub going_on : Table
  going_on = record t { this_round_finished_splits = t.this_round_finished_splits + 1 }

  abbrev pub next_round : Table
  next_round = record t {
    sp = make_word (i + 1) (b + 1);
    this_round_started_splits = 0;
    this_round_finished_splits = 0;
    this_round_split_target = initial_buckets * 2 ^ (i + 1);
  }

  abbrev last : Bool
  last =
      t.this_round_finished_splits + 1 == t.this_round_started_splits
      && t.this_round_started_splits == t.this_round_split_target

  closed_at : ℕ → ℕ → Run Table
  closed_at p n = closed p n (compare_swap t.sp p n (p + 1) n)

  finish-test :
      finish_split t
      ≡ (if last then closed_at (load_power t.sp) (load_buddy_bucket t.sp) else ok going_on)
  unfolding finish_split closed_at
  finish-test =
      check-true (leb (t.this_round_finished_splits + 1) t.this_round_started_splits)
        (if last then closed_at (load_power t.sp) (load_buddy_bucket t.sp) else ok going_on)
        (ground (arith, started, finished))

  pub finish-going_on : (b + 1 == base i + base i) ≡ false → finish_split t ≡ ok going_on
  finish-going_on e =
      let test : last ≡ false = ground (arith, started, finished, target, low, high, e) in
      finish-test
      ∙ if_false last (closed_at (load_power t.sp) (load_buddy_bucket t.sp)) (ok going_on) test

  pub finish-next_round :
      b + 1 < 2 ^ 32 → (b + 1 == base i + base i) ≡ true → finish_split t ≡ ok next_round
  unfolding closed_at
  finish-next_round below e =
      let test : last ≡ true = ground (arith, started, finished, target, low, high, e) in
      let p : load_power t.sp ≡ i =
        ap load_power word ∙ word-power i (b + 1) (omega (arith, power)) below in
      let q : load_buddy_bucket t.sp ≡ b + 1 =
        ap load_buddy_bucket word ∙ word-buddy i (b + 1) (omega (arith, power)) below in
      finish-test
      ∙ if_true last (closed_at (load_power t.sp) (load_buddy_bucket t.sp)) (ok going_on) test
      ∙ ap (λ n. closed_at n (load_buddy_bucket t.sp)) p
      ∙ ap (closed_at i) q
      ∙ ap (closed i (b + 1)) (swap-run t.sp i (b + 1) (i + 1) (b + 1) word)
      ∙ ap
          (λ (r : Run ℕ). r >>= λ m. ok (record t {
            sp = make_word (i + 1) (b + 1);
            this_round_started_splits = 0;
            this_round_finished_splits = 0;
            this_round_split_target = initial_buckets * m;
          }))
          (power2-run (i + 1) power)
