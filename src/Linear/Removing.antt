-- ===== src/Linear/Removing.antt =====
-- backend/leanstore/storage/hashing/LinearHashing.cpp: `remove` in the whole table, with the merge that may follow,
-- and lookups after it.
use tree.Prelude.{
  none, ℕ, ◌+◌, ◌^◌, ◌<◌, ◌≡◌, Bool, Option, some, is_some, List, if◌then◌else◌, arith, sym, ap,
  subst, ◌∙◌, Run, ok, ◌>>=◌, inl, inr, Bool-cases, if_true, if_false, update, sub64,
}
use tree.Linear.Search.{same_bytes_refl, find_record, same_bytes-eq}
use tree.Linear.Page.{Geometry, same_bytes}
use tree.Linear.Table.{Functions, Table, bucket_of}
use tree.Linear.Apart.{Distinct}
use tree.Linear.Placing.{records, All, Whole}
use tree.Linear.Addressing.{address, address-lt}
use tree.Linear.Valid.{IsDistinct, view, PlacedAt, Valid}
use tree.Linear.Written.{All-map}
use tree.Linear.Access.{lookup}
use tree.Linear.Answers.{bucket_of-run, with_chain-run, lookup_lem}
use tree.Linear.Cutting.{gone, Distinct-without, without, find_record-without, All-without}
use tree.Linear.Merging.{Taken, remove_chain_lem, Shorter, merge_chain_lem}
use tree.Linear.Replacing.{
  replaced-IsDistinct, replaced, replaced-Valid, replaced-view, replaced-shows,
}
use tree.Linear.Remove.{Removed, remove_chain, merge_chain, remove}

module _ (G : Geometry) (F : Functions) (small : G.page_bytes < 2 ^ 15) (i b : ℕ)
    (power : i + 1 < 16) (t : Table) (valid : Valid G F i b t) (key : List ℕ) where
  abbrev home : ℕ
  home = address F i b key

  abbrev removed : Removed
  removed = remove_chain G F (t.chain home) key

  taken : Taken G F small key (t.chain home) removed
  taken =
      remove_chain_lem G F small key (t.chain home)
        (All-map (PlacedAt G F i b home) (Whole G F) (records (t.chain home)) (λ s p. p.whole)
          (valid.sorted.placed home))
        (valid.sorted.fits home)

  abbrev less : Table
  less = replaced G F i b t valid key removed.pages (sub64 t.data_stored removed.bytes)

  less-Valid : Valid G F i b less
  less-Valid =
      replaced-Valid G F i b t valid key removed.pages (sub64 t.data_stored removed.bytes)
        (subst (All (PlacedAt G F i b home)) (sym taken.kept) (
          All-without (PlacedAt G F i b home) key (records (t.chain home))
            (valid.sorted.placed home)))
        taken.fits
        (omega (
          arith,
          taken.count,
          valid.sorted.present home (address-lt F i b valid.low valid.high key),
        ))

  -- What a client sees of a key without the first record with `key`.
  abbrev seen : List ℕ → Option (List ℕ)
  seen k =
      if same_bytes k key
      then find_record key (without key (records (t.chain home)))
      else view F i b t k

  less-view : (k : List ℕ) → view F i b less k ≡ seen k
  less-view =
      let l = records (t.chain home) in
      let next = find_record key (without key l) in
      replaced-shows G F i b t valid key removed.pages (sub64 t.data_stored removed.bytes) next
        (λ k. ap (find_record k) taken.kept ∙ elim (Bool-cases (same_bytes k key)) [
          | inl s ↦
              ap (λ x. find_record x (without key l)) (same_bytes-eq k key s)
              ∙ sym (if_true (same_bytes k key) next (find_record k l) s)
          | inr s ↦
              find_record-without k key l s
              ∙ sym (if_false (same_bytes k key) next (find_record k l) s)
        ])

  abbrev merged : Table
  merged = replaced G F i b less less-Valid key (merge_chain G F (less.chain home)) less.data_stored

  shorter : Shorter G F small (less.chain home) (merge_chain G F (less.chain home))
  shorter = merge_chain_lem G F small (less.chain home) (less-Valid.sorted.fits home)

  merged-Valid : Valid G F i b merged
  merged-Valid =
      replaced-Valid G F i b less less-Valid key (merge_chain G F (less.chain home))
        less.data_stored
        (subst (All (PlacedAt G F i b home)) (sym shorter.kept) (less-Valid.sorted.placed home))
        shorter.fits
        (shorter.some_page
          (less-Valid.sorted.present home (address-lt F i b valid.low valid.high key)))

  merged-view : (k : List ℕ) → view F i b merged k ≡ seen k
  merged-view k =
      replaced-view G F i b less less-Valid key (merge_chain G F (less.chain home)) less.data_stored
        shorter.kept k
      ∙ less-view k

  abbrev merge_in : Bool → Table → ℕ → Run (Option (Bool × Table))
  merge_in found t₁ c =
      ok (some (found, record t₁ { chain = update t₁.chain c (merge_chain G F (t₁.chain c)) }))

  abbrev after : ℕ → Removed → Run (Option (Bool × Table))
  after c r =
      let t₁ = record t {
        chain = update t.chain c r.pages;
        data_stored = sub64 t.data_stored r.bytes;
      } in
      if r.try_merge
      then (bucket_of F t₁ key >>= λ c₁. merge_in r.found t₁ c₁)
      else ok (some (r.found, t₁))

  remove-run : remove G F t key ≡ after home removed
  unfolding remove
  remove-run = with_chain-run G F i b power t valid key (λ c ps. after c (remove_chain G F ps key))

  -- What holds of the table before and after the merge holds of what a removal leaves.
  remove_ends :
      (Q : Table → Type 0)
      → Q less
      → Q merged
      → (t' : Table) × (remove G F t key ≡ ok (some (is_some (view F i b t key), t'))) × Q t'
  remove_ends Q before behind =
      let answer : Table → Bool → Run (Option (Bool × Table)) = λ t₁ found. ok (some (found, t₁)) in
      let there = bucket_of F less key >>= merge_in removed.found less in
      elim (Bool-cases removed.try_merge) [
        | inl e ↦ (
          merged,
          remove-run
              ∙ if_true removed.try_merge there (answer less removed.found) e
              ∙ ap (λ (r : Run ℕ). r >>= merge_in removed.found less)
                  (bucket_of-run G F i b power less less-Valid key)
              ∙ ap (answer merged) taken.found,
          behind,
        )
        | inr e ↦ (
          less,
          remove-run
              ∙ if_false removed.try_merge there (answer less removed.found) e
              ∙ ap (answer less) taken.found,
          before,
        )
      ]

  module _ (distinct : IsDistinct t) where
    less-IsDistinct : IsDistinct less
    less-IsDistinct =
        replaced-IsDistinct G F i b t valid key removed.pages (sub64 t.data_stored removed.bytes)
          distinct
          (subst Distinct (sym taken.kept)
            (Distinct-without key (records (t.chain home)) (distinct home)))

    merged-IsDistinct : IsDistinct merged
    merged-IsDistinct =
        replaced-IsDistinct G F i b less less-Valid key (merge_chain G F (less.chain home))
          less.data_stored less-IsDistinct
          (subst Distinct (sym shorter.kept) (less-IsDistinct home))

-- In a valid table below the last round that `power2` knows, `remove` fails no assertion and leaves a valid table.
-- It answers whether a client sees the key. `lookup` then answers, for the key, the next record of the chain that
-- has it, and for every other key what a client sees before it, also when pages of the chain are merged.
pub remove-lookup :
    (G : Geometry) (F : Functions) (i b : ℕ) (t : Table) (key : List ℕ)
    → G.page_bytes < 2 ^ 15
    → i + 1 < 16
    → Valid G F i b t
    → (t' : Table) × (remove G F t key ≡ ok (some (is_some (view F i b t key), t')))
      × Valid G F i b t'
      × ((k : List ℕ)
          → lookup G F t' k
            ≡ ok (
                some (
                  if same_bytes k key
                  then find_record key (without key (records (t.chain (address F i b key))))
                  else view F i b t k)))
remove-lookup G F i b t key small power valid =
    let (t', run, (valid', seen)) =
      remove_ends G F small i b power t valid key
        (λ t'.
          Valid G F i b t'
          × ((k : List ℕ) → view F i b t' k ≡ seen G F small i b power t valid key k))
        (less-Valid G F small i b power t valid key, less-view G F small i b power t valid key)
        (
          merged-Valid G F small i b power t valid key,
          merged-view G F small i b power t valid key,
        ) in
    (t', run, valid', λ k. lookup_lem G F i b power t' valid' k ∙ ap (λ o. ok (some o)) (seen k))

-- In a valid table below the last round that `power2` knows, in which no chain holds a key twice, `remove` fails no
-- assertion and leaves a valid table in which no chain holds a key twice; the key is then in no chain.
pub remove-IsDistinct :
    (G : Geometry) (F : Functions) (i b : ℕ) (t : Table) (key : List ℕ)
    → G.page_bytes < 2 ^ 15
    → i + 1 < 16
    → Valid G F i b t
    → IsDistinct t
    → (t' : Table) × (remove G F t key ≡ ok (some (is_some (view F i b t key), t')))
      × Valid G F i b t'
      × IsDistinct t'
      × (lookup G F t' key ≡ ok (some none))
remove-IsDistinct G F i b t key small power valid distinct =
    let l = records (t.chain (address F i b key)) in
    let gone_here : (if same_bytes key key
          then find_record key (without key l)
          else view F i b t key)
        ≡ none =
      if_true (same_bytes key key) (find_record key (without key l)) (view F i b t key)
        (same_bytes_refl key)
      ∙ gone key l (distinct (address F i b key)) in
    let (t', run, (valid', distinct', seen)) =
      remove_ends G F small i b power t valid key
        (λ t'. Valid G F i b t' × IsDistinct t' × (view F i b t' key ≡ none))
        (
          less-Valid G F small i b power t valid key,
          less-IsDistinct G F small i b power t valid key distinct,
          less-view G F small i b power t valid key key ∙ gone_here,
        )
        (
          merged-Valid G F small i b power t valid key,
          merged-IsDistinct G F small i b power t valid key distinct,
          merged-view G F small i b power t valid key key ∙ gone_here,
        ) in
    (
      t',
      run,
      valid',
      distinct',
      lookup_lem G F i b power t' valid' key ∙ ap (λ o. ok (some o)) seen,
    )
