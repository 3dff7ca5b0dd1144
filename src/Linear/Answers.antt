-- ===== src/Linear/Answers.antt =====
-- backend/leanstore/storage/hashing/LinearHashing.cpp: what the search of a chain finds.
use tree.Prelude.{
  ℕ, suc, ◌+◌, ◌-◌, ◌*◌, ◌^◌, ◌<◌, ◌≡◌, Bool, true, false, Option, none, some, List, [], ◌∷◌,
  if◌then◌else◌, leb, ltb, length, get_or, arith, refl, sym, ap, ◌∙◌, Run, ok, check, check-true,
  ◌>>=◌, ◌>>◌, inl, inr, Bool-cases,
}
use tree.Linear.Search.{cmp_keys-same, find_record, find_record-append, same_bytes-eq}
use tree.Linear.Page.{Geometry, Slot, Page, no_slot, same_bytes, find_from, find}
use tree.Linear.Table.{
  Functions, Table, initial_buckets, load_power, load_buddy_bucket, power2, hash_bucket, bucket_of,
}
use tree.Linear.Placing.{records, All, All-parts, Whole}
use tree.Linear.Parting.{bucket_at, hash_bucket-run}
use tree.Linear.Addressing.{base, base-small, address, address-lt, word-power, word-buddy}
use tree.Linear.Valid.{view, PlacedAt, Valid}
use tree.Linear.Rounds.{power2-run}
use tree.Linear.Written.{All-map}
use tree.Linear.Access.{find_in_chain, with_chain, lookup}

-- The search by fingerprints finds the first record with the key.
pub data Found (f : List ℕ → ℕ) (j : ℕ) (l : List Slot) (key : List ℕ) : Type 0 where
  nowhere : find_from f j l key ≡ none → find_record key l ≡ none → Found f j l key
  there :
      (n : ℕ)
      → find_from f j l key ≡ some (j + n)
      → find_record key l ≡ some (get_or l n no_slot).payload
      → Found f j l key

ok_if : (c : Bool) (x y : ℕ) → (if c then ok x else ok y) ≡ ok (if c then x else y)
ok_if true x y = refl
ok_if false x y = refl

some_page :
    {A : Type 0} (f : List Page → Run (Option A)) (ps : List Page)
    → 0 < length ps
    → elim ps as (λ _. Run (Option A)) [ [] ↦ ok none | p ∷ qs ↦ f (p ∷ qs) ] ≡ f ps
some_page f [] h = absurd (omega (arith, h))
some_page f (p ∷ ps) h = refl

module _ (G : Geometry) (F : Functions) where
  pub find_from_lem :
      (j : ℕ) (l : List Slot) (key : List ℕ) → All (Whole G F) l → Found F.fingerprint j l key
  unfolding find_from
  find_from_lem j [] key h = nowhere refl refl
  find_from_lem j (s ∷ l) key (w, h) = elim (Bool-cases (same_bytes key s.key)) [
    | inl e ↦
        let print : s.fingerprint ≡ F.fingerprint key =
          w.fingerprint ∙ ap F.fingerprint (sym (same_bytes-eq key s.key e)) in
        there 0 (ground (arith, print, cmp_keys-same key s.key, e)) (ground (arith, e))
    | inr e ↦
        let skip : find_from F.fingerprint j (s ∷ l) key ≡ find_from F.fingerprint (suc j) l key =
          ground (arith, cmp_keys-same key s.key, e) in
        elim (find_from_lem (suc j) l key h) [
          | nowhere a r ↦ nowhere (skip ∙ a) (ground (arith, e, r))
          | there n a r ↦ there (suc n) (skip ∙ a ∙ ap some (omega arith)) (ground (arith, e, r))
        ]
  ]

  -- The search of a chain finds the first record with the key.
  pub find_in_chain_lem :
      (ps : List Page) (key : List ℕ)
      → All (Whole G F) (records ps)
      → find_in_chain F.fingerprint ps key ≡ find_record key (records ps)
  unfolding find_in_chain find
  find_in_chain_lem [] key h = refl
  find_in_chain_lem (p ∷ ps) key h =
      let (hp, hs) = All-parts (Whole G F) p.slots (records ps) h in
      let rest = find_in_chain_lem ps key hs in
      let both = find_record-append key p.slots (records ps) in
      elim (find_from_lem 0 p.slots key hp) [
        | nowhere a r ↦ ground (arith, a, r, rest, both)
        | there n a r ↦ ground (arith, a, r, both)
      ]

  module _ (i b : ℕ) (power : i + 1 < 16) (t : Table) (valid : Valid G F i b t) (key : List ℕ) where
    abbrev test : ℕ → ℕ → ℕ → Run ℕ
    test p n bucket = power2 p >>= λ m.
        check (leb (m * initial_buckets) n)
        >> (if ltb bucket (n - m * initial_buckets) then hash_bucket F key (p + 1) else ok bucket)

    bucket_at_word : ℕ → ℕ → Run ℕ
    bucket_at_word p n = hash_bucket F key p >>= test p n

    pub bucket_of-run : bucket_of F t key ≡ ok (address F i b key)
    unfolding bucket_of bucket_at_word
    bucket_of-run =
        let below : b < 2 ^ 32 = omega (arith, valid.high, base-small i (omega (arith, power))) in
        let p : load_power t.sp ≡ i =
          ap load_power valid.word ∙ word-power i b (omega (arith, power)) below in
        let q : load_buddy_bucket t.sp ≡ b =
          ap load_buddy_bucket valid.word ∙ word-buddy i b (omega (arith, power)) below in
        let h = bucket_at F i key in
        ap (λ n. bucket_at_word n (load_buddy_bucket t.sp)) p
        ∙ ap (bucket_at_word i) q
        ∙ ap (λ (r : Run ℕ). r >>= test i b) (hash_bucket-run F key i (omega (arith, power)))
        ∙ ap
            (λ (r : Run ℕ). r >>= λ m.
              check (leb (m * initial_buckets) b)
              >> (if ltb h (b - m * initial_buckets) then hash_bucket F key (i + 1) else ok h))
            (power2-run i (omega (arith, power)))
        ∙ check-true (leb (base i) b)
            (if ltb h (b - base i) then hash_bucket F key (i + 1) else ok h)
            (ground (arith, valid.low))
        ∙ ap (λ (r : Run ℕ). if ltb h (b - base i) then r else ok h)
            (hash_bucket-run F key (i + 1) power)
        ∙ ok_if (ltb h (b - base i)) (bucket_at F (i + 1) key) h

    -- The chain of a key has a page.
    pub with_chain-run :
        {A : Type 0} (f : ℕ → List Page → Run (Option A))
        → with_chain G F t key f ≡ f (address F i b key) (t.chain (address F i b key))
    with_chain-run {A} f =
        let lt = address-lt F i b valid.low valid.high key in
        let c = address F i b key in
        ap
          (λ (r : Run ℕ). r >>= λ c. elim (t.chain c) as (λ _. Run (Option A)) [
            | [] ↦ ok none
            | p ∷ ps ↦ f c (p ∷ ps)
          ])
          bucket_of-run
        ∙ some_page (f c) (t.chain c) (valid.sorted.present c lt)

    -- `lookup` answers what a client sees.
    pub lookup_lem : lookup G F t key ≡ ok (some (view F i b t key))
    unfolding lookup
    lookup_lem =
        let c = address F i b key in
        with_chain-run (λ c ps. ok (some (find_in_chain F.fingerprint ps key)))
        ∙ ap (λ o. ok (some o))
            (find_in_chain_lem (t.chain c) key (
              All-map (PlacedAt G F i b c) (Whole G F) (records (t.chain c)) (λ s p. p.whole)
                (valid.sorted.placed c)))
