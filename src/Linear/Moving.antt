-- ===== src/Linear/Moving.antt =====
-- backend/leanstore/storage/hashing/LinearHashing.cpp: the records that a split moves, in the whole table.
use tree.Prelude.{
  ℕ, ◌+◌, ◌-◌, ◌^◌, ◌<◌, ◌≤◌, ◌≡◌, ◌==◌, true, false, not, Option, List, [], ◌∷◌, length,
  length-append, arith, sym, ap, subst, ◌∙◌, Run, inl, inr, Bool-cases, update, ==→eq, ==_refl,
}
use tree.Linear.Search.{find_record}
use tree.Linear.Page.{Geometry, Slot, Page, new_page}
use tree.Linear.Fitting.{Fits}
use tree.Linear.Table.{Functions, Table}
use tree.Linear.Split.{Pages, pages, part_chain, write_split, write_buddy}
use tree.Linear.Apart.{Distinct}
use tree.Linear.Placing.{records, All}
use tree.Linear.Parting.{select, bucket_at, Good}
use tree.Linear.Chaining.{Chained, fresh, from_fresh}
use tree.Linear.Addressing.{
  base, base-pos, address, address-lt, address-split, address-original, address-target,
}
use tree.Linear.Valid.{find_record-select, view, PlacedAt, Sorted, Unique, IsDistinct}
use tree.Linear.Written.{
  All-select, Distinct-select, All-map, write_split-Fits, write_buddy-Fits, write_split-records,
  write_buddy-records,
}

module _ (G : Geometry) (F : Functions) (small : G.page_bytes < 2 ^ 15)
    (room : G.slots_offset ≤ G.page_bytes) (i b : ℕ) (power : i + 1 < 16) (low : base i ≤ b)
    (high : b < base i + base i) where
  abbrev pub split_bucket : ℕ
  split_bucket = b - base i

  abbrev pub parts_of : List Page → Run (Pages × Pages)
  parts_of c = part_chain G F i split_bucket b c (fresh G F small i split_bucket b power)

  good : (s : Slot) → PlacedAt G F i b split_bucket s → Good G F small i split_bucket b power s
  good s p = record {
    whole = p.whole;
    original = address-original F i b low high s.key p.place;
    target = address-target F i b low high s.key p.place;
  }

  parted_chain :
      (c : List Page)
      → 0 < length c
      → All (PlacedAt G F i b split_bucket) (records c)
      → Distinct (records c)
      → All (Fits G) c
      → Chained G F small i split_bucket b power
          (fresh G F small i split_bucket b power)
          (length c)
          (length c)
          c
          (parts_of c)
  parted_chain [] h a d f = absurd (omega (arith, h))
  parted_chain (p ∷ ps) h a d f =
      from_fresh G F small i split_bucket b power p ps
        (All-map (PlacedAt G F i b split_bucket) (Good G F small i split_bucket b power)
          (records (p ∷ ps)) good a)
        d f room

  module _ (t : Table) (sorted : Unique G F i b t) where
    abbrev pub old_chain : List Page
    old_chain = t.chain split_bucket

    pub parts :
        Chained G F small i split_bucket b power
          (fresh G F small i split_bucket b power)
          (length old_chain)
          (length old_chain)
          old_chain
          (parts_of old_chain)
    parts =
        parted_chain old_chain (sorted.sorted.present split_bucket (omega (arith, low, base-pos i)))
          (sorted.sorted.placed split_bucket) (sorted.distinct split_bucket)
          (sorted.sorted.fits split_bucket)

    abbrev pub after : Table
    after = record t {
      chain =
          update (update t.chain split_bucket (write_split old_chain (pages parts.left))) b
            (write_buddy b false (pages parts.right));
    }

    stays_records :
        records (pages parts.left)
        ≡ select (λ s. bucket_at F (i + 1) s.key == split_bucket) (records old_chain)
    unfolding new_page
    stays_records = parts.lefts.kept

    moves_records :
        records (pages parts.right)
        ≡ select (λ s. not (bucket_at F (i + 1) s.key == split_bucket)) (records old_chain)
    unfolding new_page
    moves_records = parts.rights.kept

    few : length (pages parts.left) ≤ length old_chain
    few = omega (arith, parts.lefts.few, length-append parts.left.full (parts.left.back ∷ []))

    chain_split :
        (c : ℕ)
        → (b == c) ≡ false
        → (split_bucket == c) ≡ true
        → after.chain c ≡ write_split old_chain (pages parts.left)
    chain_split c e h = ground (arith, e, h)

    chain_buddy :
        (c : ℕ) → (b == c) ≡ true → after.chain c ≡ write_buddy b false (pages parts.right)
    chain_buddy c e = ground (arith, e)

    chain_other :
        (c : ℕ) → (b == c) ≡ false → (split_bucket == c) ≡ false → after.chain c ≡ t.chain c
    chain_other c e h = ground (arith, e, h)

    -- What holds of the three kinds of buckets.
    each :
        (Q : ℕ → List Page → Type 0)
        → Q split_bucket (write_split old_chain (pages parts.left))
        → Q b (write_buddy b false (pages parts.right))
        → ((c : ℕ) → (b == c) ≡ false → (split_bucket == c) ≡ false → Q c (t.chain c))
        → (c : ℕ) → Q c (after.chain c)
    each Q x y z c = elim (Bool-cases (b == c)) [
      | inl e ↦
          subst (Q c) (sym (chain_buddy c e))
            (subst (λ d. Q d (write_buddy b false (pages parts.right))) (==→eq b c e) y)
      | inr e ↦ elim (Bool-cases (split_bucket == c)) [
        | inl h ↦
            subst (Q c) (sym (chain_split c e h)) (
              subst (λ d. Q d (write_split old_chain (pages parts.left))) (==→eq split_bucket c h)
                x)
        | inr h ↦ subst (Q c) (sym (chain_other c e h)) (z c e h)
      ]
    ]

    split_written :
        records (write_split old_chain (pages parts.left))
        ≡ select (λ s. bucket_at F (i + 1) s.key == split_bucket) (records old_chain)
    split_written = (write_split-records old_chain (pages parts.left) few).0 ∙ stays_records

    buddy_written :
        records (write_buddy b false (pages parts.right))
        ≡ select (λ s. not (bucket_at F (i + 1) s.key == split_bucket)) (records old_chain)
    buddy_written = (write_buddy-records b false (pages parts.right)).0 ∙ moves_records

    after_placed : (c : ℕ) → All (PlacedAt G F i (b + 1) c) (records (after.chain c))
    after_placed =
        each (λ c ps. All (PlacedAt G F i (b + 1) c) (records ps))
          (subst (All (PlacedAt G F i (b + 1) split_bucket)) (sym split_written) (
            All-select (PlacedAt G F i b split_bucket) (PlacedAt G F i (b + 1) split_bucket)
              (λ s. bucket_at F (i + 1) s.key == split_bucket) (records old_chain)
              (λ s p e. record {
                whole = p.whole;
                place = ground (arith, address-split F i b low high s.key, p.place, e);
              })
              (sorted.sorted.placed split_bucket)))
          (subst (All (PlacedAt G F i (b + 1) b)) (sym buddy_written) (
            All-select (PlacedAt G F i b split_bucket) (PlacedAt G F i (b + 1) b)
              (λ s. not (bucket_at F (i + 1) s.key == split_bucket)) (records old_chain)
              (λ s p e. record {
                whole = p.whole;
                place = ground (
                  arith,
                  address-split F i b low high s.key,
                  p.place,
                  e,
                  address-target F i b low high s.key p.place,
                );
              })
              (sorted.sorted.placed split_bucket)))
          (λ c e h.
            All-map (PlacedAt G F i b c) (PlacedAt G F i (b + 1) c) (records (t.chain c))
              (λ s p. record {
                whole = p.whole;
                place = ground (arith, address-split F i b low high s.key, p.place, h);
              })
              (sorted.sorted.placed c))

    pub after-Sorted : Sorted G F i (b + 1) after
    after-Sorted = record {
      placed = after_placed;
      fits =
          each (λ c ps. All (Fits G) ps)
            (write_split-Fits G old_chain (pages parts.left) parts.lefts.fits)
            (write_buddy-Fits G b false (pages parts.right) parts.rights.fits)
            (λ c e h. sorted.sorted.fits c);
      present =
          each (λ c ps. c < b + 1 → 0 < length ps)
            (λ _. omega (
              arith,
              (write_split-records old_chain (pages parts.left) few).1,
              length-append parts.left.full (parts.left.back ∷ []),
            ))
            (λ _. omega (
              arith,
              (write_buddy-records b false (pages parts.right)).1,
              length-append parts.right.full (parts.right.back ∷ []),
            ))
            (λ c e h lt. sorted.sorted.present c (ground (arith, e, lt)));
      absent =
          each (λ c ps. b + 1 ≤ c → ps ≡ []) (λ le. absurd (omega (arith, le)))
            (λ le. absurd (omega (arith, le)))
            (λ c e h le. sorted.sorted.absent c (omega (arith, le)));
    }

    pub after-IsDistinct : IsDistinct after
    after-IsDistinct =
        each (λ c ps. Distinct (records ps))
          (subst Distinct (sym split_written) (
            Distinct-select (λ s. bucket_at F (i + 1) s.key == split_bucket) (records old_chain)
              (sorted.distinct split_bucket)))
          (subst Distinct (sym buddy_written) (
            Distinct-select (λ s. not (bucket_at F (i + 1) s.key == split_bucket))
              (records old_chain) (sorted.distinct split_bucket)))
          (λ c e h. sorted.distinct c)

    -- No key shows anything else.
    pub after-view : (key : List ℕ) → view F i (b + 1) after key ≡ view F i b t key
    after-view key =
        let a = address F i b key in
        let next = bucket_at F (i + 1) key in
        let moved = address-split F i b low high key in
        let lt = address-lt F i b low high key in
        elim (Bool-cases (split_bucket == a)) [
          | inl e ↦
              let same : split_bucket ≡ a = ==→eq split_bucket a e in
              let old = ap (λ c. find_record key (records (t.chain c))) same in
              let show : ℕ → Option (List ℕ) = λ c. find_record key (records (after.chain c)) in
              elim (Bool-cases (next == split_bucket)) [
                | inl h ↦
                    let here : address F i (b + 1) key ≡ split_bucket =
                      ground (arith, moved, e, h) in
                    ap show here
                    ∙ ap (λ ps. find_record key (records ps))
                        (chain_split split_bucket (ground (arith, lt, same)) (==_refl split_bucket))
                    ∙ ap (find_record key) split_written
                    ∙ find_record-select (λ k. bucket_at F (i + 1) k == split_bucket) key
                        (records old_chain) h
                    ∙ old
                | inr h ↦
                    let target = address-target F i b low high key (sym same) h in
                    let here : address F i (b + 1) key ≡ b = ground (arith, moved, e, h, target) in
                    ap show here
                    ∙ ap (λ ps. find_record key (records ps)) (chain_buddy b (==_refl b))
                    ∙ ap (find_record key) buddy_written
                    ∙ find_record-select (λ k. not (bucket_at F (i + 1) k == split_bucket)) key
                        (records old_chain) (ap not h)
                    ∙ old
              ]
          | inr e ↦
              let here : address F i (b + 1) key ≡ a = ground (arith, moved, e) in
              ap (λ c. find_record key (records (after.chain c))) here
              ∙ ap (λ ps. find_record key (records ps)) (chain_other a (ground (arith, lt)) e)
        ]
