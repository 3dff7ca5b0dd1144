-- ===== src/Linear/Addressing.antt =====
-- backend/leanstore/storage/hashing/LinearHashing.cpp: the bucket of a key, and how a split changes it.
use tree.Prelude.{
  ℕ, suc, ◌+◌, ◌-◌, ◌*◌, ◌%◌, ◌^◌, ◌<◌, ◌≤◌, ◌≡◌, ◌==◌, ◌⊎◌, inl, inr, false, List, if◌then◌else◌,
  ltb, arith, sym, ap, subst, ◌∙◌, Bool-cases,
}
use native.Mathlib.Nat.{
  mod-lt, mod-eq_of_lt, mod-eq-sub-mod, mod-mod_of_dvd, dvd-add, dvd_refl, pow-suc,
  pow-le-pow_right, one-le-pow,
}
use tree.Linear.Table.{Functions, initial_buckets, make_word, load_power, load_buddy_bucket}
use tree.Linear.Parting.{bucket_at}

-- The buckets at the start of a round.
abbrev pub base : ℕ → ℕ
base i = 2 ^ i * initial_buckets

pub base-suc : (i : ℕ) → base (i + 1) ≡ base i + base i
base-suc i =
    let next : i + 1 ≡ suc i = omega arith in
    let e : 2 ^ (i + 1) ≡ 2 ^ i * 2 = ap (λ n. 2 ^ n) next ∙ pow-suc 2 i in omega (arith, e)

pub base-pos : (i : ℕ) → 0 < base i
base-pos i = omega (arith, one-le-pow i 2 (omega arith))

-- The rounds that the table of `power2` allows.
pub base-small : (i : ℕ) → i < 16 → base i ≤ 2 ^ 22
base-small i h =
    let last : i ≤ 15 = omega (arith, h) in
    let pos : 0 < 2 = omega arith in
    let le : 2 ^ i ≤ 2 ^ 15 = pow-le-pow_right pos last in omega (arith, le)

mod_double : (h m : ℕ) → 0 < m → (h % (m + m) ≡ h % m) ⊎ (h % (m + m) ≡ h % m + m)
mod_double h m pos =
    let y = h % (m + m) in
    let lt : y < m + m = mod-lt h (omega (arith, pos)) in
    let same : h % m ≡ y % m = sym (mod-mod_of_dvd m h (dvd-add m (dvd_refl m) (dvd_refl m))) in
    elim (Bool-cases (ltb y m)) [
      | inl e ↦ inl (sym (same ∙ mod-eq_of_lt (ground (arith, e))))
      | inr e ↦
          let le : m ≤ y = ground (arith, e) in
          let less : y - m < m = omega (arith, lt, le) in
          inr (omega (arith, same, mod-eq-sub-mod le, mod-eq_of_lt less, le))
    ]

module _ (F : Functions) (i : ℕ) (key : List ℕ) where
  pub at_base : bucket_at F i key < base i
  at_base = mod-lt (F.hash_func key) (base-pos i)

  pub at_next :
      (bucket_at F (i + 1) key ≡ bucket_at F i key)
      ⊎ (bucket_at F (i + 1) key ≡ bucket_at F i key + base i)
  at_next =
      subst
        (λ n.
          (F.hash_func key % n ≡ bucket_at F i key)
          ⊎ (F.hash_func key % n ≡ bucket_at F i key + base i))
        (sym (base-suc i)) (mod_double (F.hash_func key) (base i) (base-pos i))

-- The bucket of a key in round `i`, when the next split fills bucket `b`.
abbrev pub address : Functions → ℕ → ℕ → List ℕ → ℕ
address F i b key =
    if ltb (bucket_at F i key) (b - base i) then bucket_at F (i + 1) key else bucket_at F i key

module _ (F : Functions) (i b : ℕ) (low : base i ≤ b) (high : b < base i + base i)
    (key : List ℕ) where
  pub address-lt : address F i b key < b
  address-lt = ground (arith, low, high, at_base F i key, at_next F i key)

  -- Only the keys of the bucket to split change theirs.
  pub address-split :
      address F i (b + 1) key
      ≡ (if address F i b key == b - base i then bucket_at F (i + 1) key else address F i b key)
  address-split = ground (arith, low, high, at_base F i key, at_next F i key)

  -- They have been in it since the round began, and stay or go to the new bucket.
  pub address-original : address F i b key ≡ b - base i → bucket_at F i key ≡ b - base i
  address-original e = ground (arith, low, high, e, at_base F i key, at_next F i key)

  pub address-target :
      address F i b key ≡ b - base i
      → (bucket_at F (i + 1) key == b - base i) ≡ false
      → bucket_at F (i + 1) key ≡ b
  address-target e n = ground (arith, low, high, e, n, address-original e, at_next F i key)

-- The last split of a round leaves the buckets of the next one.
pub address-round :
    (F : Functions) (i : ℕ) (key : List ℕ)
    → address F (i + 1) (base i + base i) key ≡ address F i (base i + base i) key
address-round F i key = ground (arith, at_base F i key, base-suc i)

-- The word keeps both numbers.
pub word-power : (i b : ℕ) → i < 256 → b < 2 ^ 32 → load_power (make_word i b) ≡ i
unfolding load_power make_word
word-power i b h k = omega (arith, h, k)

pub word-buddy : (i b : ℕ) → i < 256 → b < 2 ^ 32 → load_buddy_bucket (make_word i b) ≡ b
unfolding load_buddy_bucket make_word
word-buddy i b h k = omega (arith, h, k)
