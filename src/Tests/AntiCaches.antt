-- ===== src/Tests/AntiCaches.antt =====
-- Witnesses and runs for the anti-caching adapter, over association lists.
use tree.Prelude.{
  Bool-cases, inl, inr, subst, ℕ, ◌*◌, ◌+◌, ◌-◌, is_some, ◌<◌, ◌≡◌, ◌==◌, if◌then◌else◌, Option,
  none, some, List, [], ◌∷◌, ◌++◌, arith, refl, length, ok, Run, fault, Bool, true, false, sym, ap,
  ◌∙◌, ==→eq,
}
use tree.AntiCache.Tables.{Table, Blocks}
use tree.AntiCache.Adapter.{AntiCache, evict_bunch, cache_under_pressure}
use tree.AntiCache.Valid.{Keys, Valid, view}
use tree.AntiCache.Bunch.{evict_bunch_lem}
use tree.AntiCache.Access.{bring_block, lookup, update_key}
use tree.AntiCache.Updating.{lookup-update}

module _ {V : Type 0} where
  abbrev pub get : List (ℕ × V) → ℕ → Option V
  get [] j = none
  get ((k, v) ∷ m) j = if k == j then some v else get m j

  abbrev pub drop_key : List (ℕ × V) → ℕ → List (ℕ × V)
  drop_key [] j = []
  drop_key ((k, v) ∷ m) j = if k == j then drop_key m j else (k, v) ∷ drop_key m j

  get-drop_key :
      (m : List (ℕ × V)) (k j : ℕ) → get (drop_key m k) j ≡ (if k == j then none else get m j)
  get-drop_key [] k j = ground arith
  get-drop_key ((i, v) ∷ m) k j = ground (arith, get-drop_key m k j)

module _ {V : Type 0} where
  -- A key that stands more than once counts once.
  abbrev pub count_keys : List (ℕ × V) → ℕ
  count_keys [] = 0
  count_keys ((k, v) ∷ m) = if is_some (get m k) then count_keys m else count_keys m + 1

  counted_once : (m : List (ℕ × V)) (k : ℕ) → is_some (get m k) ≡ true → 0 < count_keys m
  counted_once [] k e = absurd (ground (arith, e))
  counted_once ((i, v) ∷ m) k e = ground (arith, counted_once m i, e)

  count-drop_key :
      (m : List (ℕ × V)) (k : ℕ)
      → count_keys (drop_key m k) ≡ (if is_some (get m k) then count_keys m - 1 else count_keys m)
  count-drop_key [] k = refl
  count-drop_key ((i, v) ∷ m) k = elim (Bool-cases (i == k)) [
    | inl e ↦ ground (arith, e, count-drop_key m k, counted_once m k, ap (get m) (==→eq i k e))
    | inr e ↦ ground (arith, e, count-drop_key m k, get-drop_key m k i, counted_once m k)
  ]

  count-assign :
      (m : List (ℕ × V)) (k : ℕ) (v : V)
      → count_keys ((k, v) ∷ drop_key m k)
        ≡ (if is_some (get m k) then count_keys m else count_keys m + 1)
  count-assign m k v = ground (arith, count-drop_key m k, get-drop_key m k k, counted_once m k)

get-assign :
    {V : Type 0} (m : List (ℕ × V)) (k j : ℕ) (v : V)
    → get ((k, v) ∷ drop_key m k) j ≡ (if k == j then some v else get m j)
get-assign m k j v = ground (arith, get-drop_key m k j)

abbrev table : (V : Type 0) → Table V
table V = record {
  Map = List (ℕ × V);
  find = get;
  assign = λ m k v. (k, v) ∷ drop_key m k;
  erase = drop_key;
  bytes = λ m. 16 * length m;
  item_count = count_keys;
  count-assign = count-assign;
  count-erase = count-drop_key;
  find-assign = get-assign;
  find-erase = get-drop_key;
}

abbrev blocks : Blocks ℕ
blocks = record {
  Db = List (ℕ × List (ℕ × ℕ));
  get = get;
  put = λ d b l. (b, l) ∷ d;
  delete = drop_key;
  get-put = λ d b c l. refl;
  get-delete = get-drop_key;
}

abbrev State : Type 0
State = AntiCache (table ℕ) (table (ℕ × ℕ)) blocks

-- Key 5, used last, at address 3, and key 4 at address 2; key 9 is in block 0.
abbrev state : State
state = record {
  config = record { eviction_bytes = 1000; tagged_bytes = 32; tuple_bytes = 2048 };
  heap = record {
    next = λ a. if a == 1 then 3 else if a == 3 then 2 else 1;
    prev = λ a. if a == 1 then 2 else if a == 2 then 3 else 1;
    tuple = λ a. if a == 2 then some (4, 40) else if a == 3 then some (5, 50) else none;
  };
  next_address = 4;
  cache = (4, 2) ∷ (5, 3) ∷ [];
  evict_table = (9, (0, 0)) ∷ [];
  block_table = (0, (9, 90) ∷ []) ∷ [];
  block_id_counter = 1;
  hit_count = 0;
  miss_count = 0;
}

abbrev nodes : List ℕ
nodes = 3 ∷ 2 ∷ []

state-Valid : Valid state nodes
state-Valid = record {
  ring = record {
    chain = (refl, refl, (refl, refl, (refl, refl)));
    once = (refl, (refl, (refl, tt)));
    real = refl;
  };
  shown = λ k a e. (ground arith, 10 * k, ground arith);
  known = λ a h. (if a == 2 then 4 else 5, if a == 2 then 40 else 50, ground arith, ground arith);
  single = λ k a e. ground arith;
  stored = λ k b o e. (ground arith, 90, ground arith);
  tombs = λ k b v e. (0, ground arith);
  allocated = λ a h. ground arith;
  keys = λ b m e. elim (Bool-cases (0 == b)) [
    | inl q ↦ let same : (9, 90) ∷ [] ≡ m = ground (arith, e, q) in subst Keys same (refl, tt)
    | inr q ↦ absurd (ground (arith, e, q))
  ];
  room = omega arith;
  counted = refl;
}

evict_bunch_lem_example :
    (s' : State) × (kept : List ℕ) × (moved : List ℕ) × (evict_bunch 3 state ≡ ok (some s'))
    × (nodes ≡ kept ++ moved)
    × (0 < length nodes → length kept < length nodes)
    × Valid s' kept
    × (s'.block_id_counter ≡ 2)
    × ((k : ℕ) → view s' k ≡ view state k)
evict_bunch_lem_example = evict_bunch_lem 3 state nodes state-Valid (omega arith) (omega arith)

abbrev pressed : Run State → Bool
pressed fault = false
pressed (ok s) = cache_under_pressure s

abbrev missed : State
missed = record state { miss_count = 1 }

block_0 : pressed (bring_block 9 0 missed) ≡ false
unfolding bring_block cache_under_pressure
block_0 = refl

never_pressed : (b : ℕ) → pressed (bring_block 9 b missed) ≡ false
unfolding bring_block cache_under_pressure
never_pressed b = elim (Bool-cases (0 == b)) [
  | inl e ↦ subst (λ b. pressed (bring_block 9 b missed) ≡ false) (==→eq 0 b e) block_0
  | inr e ↦ rw e
]

lookup-update_example :
    ((s' : State) × (l' : List ℕ) × (lookup 9 9 2 true state 9 ≡ ok (some (some 90, s')))
      × Valid s' l'
      × ((j : ℕ) → view s' j ≡ view state j))
    × ((s' : State) × (l' : List ℕ) × (update_key 9 9 2 true state 9 91 ≡ ok (some s'))
        × Valid s' l'
        × ((j : ℕ) → view s' j ≡ (if 9 == j then some 91 else view state j)))
unfolding cache_under_pressure
lookup-update_example =
    lookup-update 9 9 0 9 91 true state nodes state-Valid refl
      (λ b s₁ e. sym (ap pressed e) ∙ never_pressed b)
