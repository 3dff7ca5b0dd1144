-- ===== src/Linear/Splitting.antt =====
-- backend/leanstore/storage/hashing/LinearHashing.cpp: a whole split, and the round that it may end.
use tree.Prelude.{
  ℕ, ◌+◌, ◌-◌, ◌*◌, ◌^◌, ◌<◌, ◌≤◌, ◌≡◌, ◌==◌, true, false, some, List, length, arith, refl, sym, ap,
  subst, ◌∙◌, Run, ok, ◌>>=◌, inl, inr, Bool-cases, if_true, if_false,
}
use tree.Linear.Search.{find_record}
use tree.Linear.Page.{Geometry}
use tree.Linear.Fitting.{Fits}
use tree.Linear.Table.{Functions, Table, initial_buckets, make_word}
use tree.Linear.Split.{finish_split, split}
use tree.Linear.Addressing.{base, base-pos, base-suc, address, address-round}
use tree.Linear.Placing.{records, All}
use tree.Linear.Valid.{Unique, IsDistinct, view, PlacedAt, Sorted, Valid}
use tree.Linear.Written.{All-map}
use tree.Linear.Moving.{after, after-Sorted, after-IsDistinct, after-view, parts}
use tree.Linear.Checking.{move_records-run}
use tree.Linear.Rounds.{
  begun, begun-Sorted, below, begun-run, finish-going_on, finish-next_round, next_power, RoomFor,
}

module _ (G : Geometry) (F : Functions) (small : G.page_bytes < 2 ^ 15)
    (room : G.slots_offset ≤ G.page_bytes) where
  same_address :
      (i b : ℕ)
      → b + 1 ≡ base i + base i
      → (key : List ℕ) → address F (i + 1) (b + 1) key ≡ address F i (b + 1) key
  same_address i b e key =
      subst (λ n. address F (i + 1) n key ≡ address F i n key) (sym e) (address-round F i key)

  -- The last split of a round leaves every record in its bucket of the next round.
  next-Sorted :
      (i b : ℕ) (t t' : Table)
      → b + 1 ≡ base i + base i
      → t'.chain ≡ t.chain
      → Sorted G F i (b + 1) t
      → Sorted G F (i + 1) (b + 1) t'
  next-Sorted i b t t' e c s = record {
    placed = λ n.
        subst (λ f. All (PlacedAt G F (i + 1) (b + 1) n) (records (f n))) (sym c)
          (All-map (PlacedAt G F i (b + 1) n) (PlacedAt G F (i + 1) (b + 1) n) (records (t.chain n))
            (λ x p. record { whole = p.whole; place = same_address i b e x.key ∙ p.place })
            (s.placed n));
    fits = λ n. subst (λ f. All (Fits G) (f n)) (sym c) (s.fits n);
    present = λ n h. subst (λ f. 0 < length (f n)) (sym c) (s.present n h);
    absent = λ n h. ap (λ f. f n) c ∙ s.absent n h;
  }

  module _ (i b : ℕ) (power : i + 1 < 16) (t : Table) (valid : Valid G F i b t)
      (distinct : IsDistinct t) (few : length (t.chain (b - base i)) ≤ 8)
      (enough : RoomFor G F i b t) where
    sorted₀ : Unique G F i b (begun G F i b t)
    sorted₀ = record { sorted = begun-Sorted G F i b t valid.sorted; distinct = distinct }

    parted : Table
    parted = after G F small room i b power valid.low valid.high (begun G F i b t) sorted₀

    parted-Sorted : Sorted G F i (b + 1) parted
    unfolding parted
    parted-Sorted =
        after-Sorted G F small room i b power valid.low valid.high (begun G F i b t) sorted₀

    parted-IsDistinct : IsDistinct parted
    unfolding parted
    parted-IsDistinct =
        after-IsDistinct G F small room i b power valid.low valid.high (begun G F i b t) sorted₀

    parted-view : (key : List ℕ) → view F i (b + 1) parted key ≡ view F i b t key
    unfolding parted
    parted-view key =
        after-view G F small room i b power valid.low valid.high (begun G F i b t) sorted₀ key

    parted-run : split G F t ≡ (finish_split parted >>= λ t₂. ok (some t₂))
    unfolding parted
    parted-run =
        let p = parts G F small room i b power valid.low valid.high (begun G F i b t) sorted₀ in
        begun-run G F i b power t valid
        ∙ ap (λ (r : Run Table). r >>= λ t₁. finish_split t₁ >>= λ t₂. ok (some t₂))
            (move_records-run G F small room i b power valid.low valid.high (begun G F i b t)
              sorted₀ few (enough (p.left, p.right) p.run))

    abbrev SplitTo : ℕ → Type 0
    SplitTo j =
        (t' : Table) × (split G F t ≡ ok (some t'))
        × Valid G F j (b + 1) t'
        × IsDistinct t'
        × ((key : List ℕ) → view F j (b + 1) t' key ≡ view F i b t key)

    split_on : (b + 1 == base i + base i) ≡ false → SplitTo i
    unfolding parted
    split_on e =
        let run =
          finish-going_on i b power parted refl (omega (arith, valid.started)) valid.finished
            valid.target valid.low valid.high e in
        (
          record parted { this_round_finished_splits = t.this_round_finished_splits + 1 },
          parted-run ∙ ap (λ (r : Run Table). r >>= λ t₂. ok (some t₂)) run,
          record {
            sorted = record {
              placed = parted-Sorted.placed;
              fits = parted-Sorted.fits;
              present = parted-Sorted.present;
              absent = parted-Sorted.absent;
            };
            word = refl;
            low = omega (arith, valid.low);
            high = ground (arith, valid.high, e);
            started = omega (arith, valid.started, valid.low);
            finished = omega (arith, valid.finished, valid.low);
            target = valid.target;
          },
          parted-IsDistinct,
          parted-view,
        )

    split_over : (b + 1 == base i + base i) ≡ true → SplitTo (i + 1)
    unfolding parted
    split_over e =
        let end : b + 1 ≡ base i + base i = ground (arith, e) in
        let twice = base-suc i in
        let pos = base-pos i in
        let run =
          finish-next_round i b power parted refl (omega (arith, valid.started)) valid.finished
            valid.target valid.low valid.high (below G F i b power t valid) e in
        let t' : Table = record parted {
          sp = make_word (i + 1) (b + 1);
          this_round_started_splits = 0;
          this_round_finished_splits = 0;
          this_round_split_target = initial_buckets * 2 ^ (i + 1);
        } in
        (
          t',
          parted-run ∙ ap (λ (r : Run Table). r >>= λ t₂. ok (some t₂)) run,
          record {
            sorted = next-Sorted i b parted t' end refl parted-Sorted;
            word = refl;
            low = omega (arith, end, twice);
            high = omega (arith, end, twice, pos);
            started = omega (arith, end, twice);
            finished = omega (arith, end, twice);
            target = omega arith;
          },
          parted-IsDistinct,
          λ key.
              ap (λ a. find_record key (records (parted.chain a))) (same_address i b end key)
              ∙ parted-view key,
        )

    pub split_lem :
        (t' : Table) × (split G F t ≡ ok (some t'))
        × Valid G F (next_power i b) (b + 1) t'
        × IsDistinct t'
        × ((key : List ℕ) → view F (next_power i b) (b + 1) t' key ≡ view F i b t key)
    split_lem = elim (Bool-cases (b + 1 == base i + base i)) [
      | inl e ↦ subst SplitTo (sym (if_true (b + 1 == base i + base i) (i + 1) i e)) (split_over e)
      | inr e ↦ subst SplitTo (sym (if_false (b + 1 == base i + base i) (i + 1) i e)) (split_on e)
    ]
