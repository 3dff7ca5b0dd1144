-- ===== src/AntiCache/Valid.antt =====
-- backend/anti-caching/AntiCache.hpp: what every state of the adapter satisfies, and what a client sees.
use tree.Prelude.{
  ℕ, ◌<◌, ◌≡◌, length, ◌==◌, true, if◌then◌else◌, Option, none, some, List, [], ◌∷◌, ◌++◌, arith,
  refl,
}
use mathlib.Core.Option
use tree.AntiCache.Chain.{has}
use tree.AntiCache.Ring.{Ring}
use tree.AntiCache.Tables.{Table, Blocks}
use tree.AntiCache.Adapter.{AntiCache}

-- The payload of the first tuple of a block with this key.
abbrev pub find_tuple : {P : Type 0} → ℕ → List (ℕ × P) → Option P
find_tuple k [] = none
find_tuple k ((j, v) ∷ l) = if j == k then some v else find_tuple k l

pub find_tuple-append :
    {P : Type 0} (k : ℕ) (l m : List (ℕ × P))
    → find_tuple k l ≡ none
    → find_tuple k (l ++ m) ≡ find_tuple k m
find_tuple-append k [] m e = refl
find_tuple-append k ((j, v) ∷ l) m e = ground (arith, find_tuple-append k l m)

pub find_tuple-append_other :
    {P : Type 0} (k : ℕ) (l m : List (ℕ × P))
    → find_tuple k m ≡ none
    → find_tuple k (l ++ m) ≡ find_tuple k l
find_tuple-append_other k [] m e = e
find_tuple-append_other k ((j, v) ∷ l) m e = ground (arith, find_tuple-append_other k l m)

-- No key twice.
abbrev pub Keys : {P : Type 0} → List (ℕ × P) → Type 0
Keys [] = Unit
Keys ((k, v) ∷ l) = (find_tuple k l ≡ none) × Keys l

pub Keys-snoc :
    {P : Type 0} (l : List (ℕ × P)) (k : ℕ) (v : P)
    → Keys l
    → find_tuple k l ≡ none
    → Keys (l ++ ((k, v) ∷ []))
Keys-snoc [] k v h e = (refl, tt)
Keys-snoc ((j, w) ∷ l) k v h e = (
  ground (arith, find_tuple-append j l ((k, v) ∷ []), h.0, e),
  Keys-snoc l k v h.1 (ground (arith, e)),
)

-- The tuple of the cache, or the one in the block that the tombstone names.
abbrev pub cached : {P : Type 0} → (ℕ → Option (ℕ × P)) → Option ℕ → Option P
cached tuple none = none
cached tuple (some p) = Option.map (λ t. t.1) (tuple p)

abbrev pub in_block : {P : Type 0} → ℕ → Option (List (ℕ × P)) → Option P
in_block k none = none
in_block k (some l) = find_tuple k l

abbrev pub evicted : {P : Type 0} → (ℕ → Option (List (ℕ × P))) → ℕ → Option (ℕ × ℕ) → Option P
evicted get k none = none
evicted get k (some r) = in_block k (get r.0)

abbrev pub first : {P : Type 0} → Option P → Option P → Option P
first none q = q
first (some p) q = some p

module _ {P : Type 0} {C : Table ℕ} {E : Table (ℕ × ℕ)} {B : Blocks P} where
  -- What a client sees of a key.
  abbrev pub view : AntiCache C E B → ℕ → Option P
  view s k =
      first (cached s.heap.tuple (C.find s.cache k))
        (evicted (B.get s.block_table) k (E.find s.evict_table k))

  -- The ring shows the nodes `l`, and the cache has exactly these nodes under their keys. A key has no
  -- tombstone while it is cached; every tombstone names a block with its key, whose id was given out, and
  -- every tuple of a block has a tombstone.
  pub record Valid (s : AntiCache C E B) (l : List ℕ) : Type 0 where
    pub ring : Ring s.heap l
    pub shown :
        (k a : ℕ)
        → C.find s.cache k ≡ some a
        → (has a l ≡ true) × (v : P) × (s.heap.tuple a ≡ some (k, v))
    pub known :
        (a : ℕ)
        → has a l ≡ true
        → (k : ℕ) × (v : P) × (s.heap.tuple a ≡ some (k, v)) × (C.find s.cache k ≡ some a)
    pub single : (k a : ℕ) → C.find s.cache k ≡ some a → E.find s.evict_table k ≡ none
    pub stored :
        (k b o : ℕ)
        → E.find s.evict_table k ≡ some (b, o)
        → (b < s.block_id_counter) × (v : P) × (in_block k (B.get s.block_table b) ≡ some v)
    pub tombs :
        (k b : ℕ) (v : P)
        → in_block k (B.get s.block_table b) ≡ some v
        → (o : ℕ) × (E.find s.evict_table k ≡ some (b, o))
    pub allocated : (a : ℕ) → has a l ≡ true → a < s.next_address
    pub keys : (b : ℕ) (m : List (ℕ × P)) → B.get s.block_table b ≡ some m → Keys m
    pub room : 1 < s.next_address
    pub counted : C.item_count s.cache ≡ length l
