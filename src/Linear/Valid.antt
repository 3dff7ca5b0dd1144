-- ===== src/Linear/Valid.antt =====
-- backend/leanstore/storage/hashing/LinearHashing.cpp: what every state of a table satisfies, and what a client
-- sees of it.
use tree.Prelude.{
  ℕ, ◌+◌, ◌-◌, ◌<◌, ◌≤◌, ◌≡◌, Bool, true, Option, List, [], ◌∷◌, length, arith, refl, ap, sym, ◌∙◌,
  inl, inr, Bool-cases,
}
use tree.Linear.Search.{find_record, same_bytes-eq}
use tree.Linear.Page.{Geometry, Slot, same_bytes}
use tree.Linear.Fitting.{Fits}
use tree.Linear.Table.{Functions, Table, make_word}
use tree.Linear.Apart.{Distinct}
use tree.Linear.Placing.{records, All, Whole}
use tree.Linear.Parting.{select}
use tree.Linear.Addressing.{base, address}

-- A choice of records by their keys that takes the key keeps what it shows.
pub find_record-select :
    (f : List ℕ → Bool) (key : List ℕ) (l : List Slot)
    → f key ≡ true
    → find_record key (select (λ s. f s.key) l) ≡ find_record key l
find_record-select f key [] h = refl
find_record-select f key (s ∷ l) h = elim (Bool-cases (same_bytes key s.key)) [
  | inl e ↦
      let k : f s.key ≡ true = ap f (sym (same_bytes-eq key s.key e)) ∙ h in ground (arith, e, k)
  | inr e ↦ ground (arith, e, find_record-select f key l h)
]

-- What a client sees of a key, in round `i` when the next split fills bucket `b`.
abbrev pub view : Functions → ℕ → ℕ → Table → List ℕ → Option (List ℕ)
view F i b t key = find_record key (records (t.chain (address F i b key)))

-- No chain holds a key twice.
abbrev pub IsDistinct : Table → Type 0
IsDistinct t = (c : ℕ) → Distinct (records (t.chain c))

module _ (G : Geometry) (F : Functions) where
  -- A record in its bucket.
  pub record PlacedAt (i b c : ℕ) (s : Slot) : Type 0 where
    pub whole : Whole G F s
    pub place : address F i b s.key ≡ c

  -- Each bucket below the next one has pages, with room for what they hold, and the records of its keys.
  pub record Sorted (i b : ℕ) (t : Table) : Type 0 where
    pub placed : (c : ℕ) → All (PlacedAt i b c) (records (t.chain c))
    pub fits : (c : ℕ) → All (Fits G) (t.chain c)
    pub present : (c : ℕ) → c < b → 0 < length (t.chain c)
    pub absent : (c : ℕ) → b ≤ c → t.chain c ≡ []

  -- Between two splits: the word and the counters of the round.
  pub record Valid (i b : ℕ) (t : Table) : Type 0 where
    pub sorted : Sorted i b t
    pub word : t.sp ≡ make_word i b
    pub low : base i ≤ b
    pub high : b < base i + base i
    pub started : t.this_round_started_splits ≡ b - base i
    pub finished : t.this_round_finished_splits ≡ b - base i
    pub target : t.this_round_split_target ≡ base i

  -- A table in which no chain holds a key twice.
  pub record Unique (i b : ℕ) (t : Table) : Type 0 where
    pub sorted : Sorted i b t
    pub distinct : IsDistinct t
