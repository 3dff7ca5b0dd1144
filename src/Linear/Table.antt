-- ===== src/Linear/Table.antt =====
-- backend/leanstore/storage/hashing/LinearHashing.hpp and LinearHashing.cpp: the state of `LinearHashTable` and the
-- buckets of keys. A bucket is the list of the pages of its chain, and empty while the directory has no page for
-- it. `over_load` is the comparison of the load factor with its threshold, on floating-point numbers.
use tree.Prelude.{
  ℕ, ◌+◌, ◌-◌, ◌*◌, ◌/◌, ◌%◌, ◌^◌, ◌==◌, Bool, true, false, List, [], ◌∷◌, if◌then◌else◌, leb, ltb,
  Run, ok, fault, check, ◌>>=◌, ◌>>◌, u64_mod, u32_mod,
}
use tree.Linear.Page.{Geometry, Page, new_page}

-- `N`
abbrev pub initial_buckets : ℕ
initial_buckets = 128

-- The functions that a table is given: the fingerprint of keys, `hash_func`, and the test for a split.
pub record Functions : Type 0 where
  pub fingerprint : List ℕ → ℕ
  pub hash_func : List ℕ → ℕ
  pub over_load : ℕ → ℕ → Bool

-- `split_pointer`: the power in the high 8 bits of a word, and the bucket that the next split fills below.
unfoldable pub make_word : ℕ → ℕ → ℕ
make_word power buddy_bucket = (power * 2 ^ 56) % u64_mod + buddy_bucket

unfoldable pub load_power : ℕ → ℕ
load_power w = w / 2 ^ 56

unfoldable pub load_buddy_bucket : ℕ → ℕ
load_buddy_bucket w = w % 2 ^ 56 % u32_mod

-- The answer, and the word after it.
unfoldable pub compare_swap : ℕ → ℕ → ℕ → ℕ → ℕ → Bool × ℕ
unfolding make_word
compare_swap w old_power old_buddy_bucket new_power new_buddy_bucket =
    if w == make_word old_power old_buddy_bucket
    then (true, make_word new_power new_buddy_bucket)
    else (false, w)

pub record Table : Type 0 where
  pub chain : ℕ → List Page
  pub sp : ℕ
  pub this_round_started_splits : ℕ
  pub this_round_finished_splits : ℕ
  pub this_round_split_target : ℕ
  pub data_stored : ℕ

-- The table of `power2` has 16 entries.
unfoldable pub power2 : ℕ → Run ℕ
power2 i = if ltb i 16 then ok (2 ^ i) else fault

-- `hash`
unfoldable pub hash_bucket : Functions → List ℕ → ℕ → Run ℕ
unfolding power2
hash_bucket F key i = power2 i >>= λ m. ok (F.hash_func key % (m * initial_buckets))

-- The bucket of a key, with which every operation begins.
unfoldable pub bucket_of : Functions → Table → List ℕ → Run ℕ
unfolding hash_bucket power2 load_power load_buddy_bucket
bucket_of F t key =
    let local_i = load_power t.sp in
    let buddy_bucket = load_buddy_bucket t.sp in
    hash_bucket F key local_i >>= λ bucket. power2 local_i >>= λ m.
    check (leb (m * initial_buckets) buddy_bucket)
    >> (if ltb bucket (buddy_bucket - m * initial_buckets)
        then hash_bucket F key (local_i + 1)
        else ok bucket)

unfoldable pub create : Geometry → Table
unfolding make_word new_page
create G = record {
  chain = λ b. if ltb b initial_buckets then new_page G false b ∷ [] else [];
  sp = make_word 0 initial_buckets;
  this_round_started_splits = 0;
  this_round_finished_splits = 0;
  this_round_split_target = initial_buckets;
  data_stored = 0;
}
