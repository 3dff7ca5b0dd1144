-- ===== src/Linear/Replacing.antt =====
-- backend/leanstore/storage/hashing/LinearHashing.cpp: a table in which the chain of a key is replaced.
use tree.Prelude.{
  ℕ, ◌<◌, ◌≤◌, ◌≡◌, ◌==◌, true, false, List, [], length, arith, refl, sym, ap, subst, ◌∙◌, inl, inr,
  Bool-cases, Option, if◌then◌else◌, if_true, if_false, update, ==→eq, ==_refl,
}
use tree.Linear.Apart.{Distinct}
use tree.Linear.Search.{find_record, same_bytes-eq}
use tree.Linear.Page.{Geometry, Page, same_bytes}
use tree.Linear.Fitting.{Fits}
use tree.Linear.Table.{Functions, Table}
use tree.Linear.Placing.{records, All}
use tree.Linear.Addressing.{address, address-lt}
use tree.Linear.Valid.{IsDistinct, view, PlacedAt, Valid}

module _ (G : Geometry) (F : Functions) (i b : ℕ) (t : Table) (valid : Valid G F i b t)
    (key : List ℕ) (ps : List Page) (stored : ℕ) where
  abbrev home : ℕ
  home = address F i b key

  abbrev pub replaced : Table
  replaced = record t { chain = update t.chain home ps; data_stored = stored }

  each :
      (Q : ℕ → List Page → Type 0)
      → Q home ps
      → ((c : ℕ) → Q c (t.chain c))
      → (c : ℕ) → Q c (replaced.chain c)
  each Q x y c = elim (Bool-cases (home == c)) [
    | inl e ↦
        subst (Q c) (sym (if_true (home == c) ps (t.chain c) e))
          (subst (λ d. Q d ps) (==→eq home c e) x)
    | inr e ↦ subst (Q c) (sym (if_false (home == c) ps (t.chain c) e)) (y c)
  ]

  pub replaced-Valid :
      All (PlacedAt G F i b home) (records ps)
      → All (Fits G) ps
      → 0 < length ps
      → Valid G F i b replaced
  replaced-Valid placed fits some_page = record {
    sorted = record {
      placed = each (λ c ps. All (PlacedAt G F i b c) (records ps)) placed valid.sorted.placed;
      fits = each (λ c ps. All (Fits G) ps) fits valid.sorted.fits;
      present = each (λ c ps. c < b → 0 < length ps) (λ _. some_page) valid.sorted.present;
      absent =
          each (λ c ps. b ≤ c → ps ≡ [])
            (λ le. absurd (omega (arith, le, address-lt F i b valid.low valid.high key)))
            valid.sorted.absent;
    };
    word = valid.word;
    low = valid.low;
    high = valid.high;
    started = valid.started;
    finished = valid.finished;
    target = valid.target;
  }

  other_key : (k : List ℕ) → (home == address F i b k) ≡ false → same_bytes k key ≡ false
  other_key k e = elim (Bool-cases (same_bytes k key)) [
    | inl h ↦
        let same : (home == address F i b k) ≡ true =
          ap (λ n. home == n) (ap (address F i b) (same_bytes-eq k key h)) ∙ ==_refl home in
        cc (same, e)
    | inr h ↦ h
  ]

  pub replaced-IsDistinct : IsDistinct t → Distinct (records ps) → IsDistinct replaced
  replaced-IsDistinct d e = each (λ c ps. Distinct (records ps)) e d

  -- Pages with the same records show the same.
  pub replaced-view :
      records ps ≡ records (t.chain home) → (k : List ℕ) → view F i b replaced k ≡ view F i b t k
  replaced-view same k =
      each (λ c qs. find_record k (records qs) ≡ find_record k (records (t.chain c)))
        (ap (find_record k) same) (λ c. refl) (address F i b k)

  -- Pages that show something else for the key alone.
  pub replaced-shows :
      (shown : Option (List ℕ))
      → ((k : List ℕ)
          → find_record k (records ps)
            ≡ (if same_bytes k key then shown else find_record k (records (t.chain home))))
      → (k : List ℕ) → view F i b replaced k ≡ (if same_bytes k key then shown else view F i b t k)
  replaced-shows shown shows k =
      let a = address F i b k in
      elim (Bool-cases (home == a)) [
        | inl e ↦
            ap (λ ps. find_record k (records ps)) (if_true (home == a) ps (t.chain a) e)
            ∙ shows k
            ∙ ap (λ c. if same_bytes k key then shown else find_record k (records (t.chain c)))
                (==→eq home a e)
        | inr e ↦
            ap (λ ps. find_record k (records ps)) (if_false (home == a) ps (t.chain a) e)
            ∙ sym (if_false (same_bytes k key) shown (view F i b t k) (other_key k e))
      ]
