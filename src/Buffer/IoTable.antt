-- ===== src/Buffer/IoTable.antt =====
-- backend/leanstore/storage/buffer-manager/Partition.cpp: `HashTable`, the chained table of the I/O
-- frames. A chain is the list of its entries; a handler is the place of an entry in its chain.
use tree.Prelude.{
  ℕ, ◌+◌, ◌-◌, ◌*◌, ◌/◌, ◌%◌, ◌^◌, ◌≡◌, ◌==◌, bit_xor, if◌then◌else◌, Bool, true, false, Option,
  none, some, List, [], ◌∷◌, arith, refl, update, u64_mod, Run, ok, fault, Ensures, is_some, ==→eq,
}

-- The parameter `V` stands for `IOFrame`, and `fresh` for a new one.
pub record IoTable (V : Type 0) : Type 0 where
  pub mask : ℕ
  pub entries : ℕ → List (ℕ × V)

-- `mask` is 2^size_in_bits - 1, so that `& mask` is the remainder by `mask + 1`.
unfoldable pub new_io_table : {V : Type 0} → ℕ → IoTable V
new_io_table size_in_bits = record { mask = 2 ^ size_in_bits - 1; entries = λ _. [] }

abbrev mul64 : ℕ → ℕ → ℕ
mul64 a b = a * b % u64_mod

-- `x ^= x >> r`
abbrev shift_mix : ℕ → ℕ
shift_mix x = bit_xor x (x / 2 ^ 47)

-- MurmurHash64A of one word.
unfoldable pub hash_key : ℕ → ℕ
hash_key k =
    let m : ℕ = 0xc6a4a7935bd1e995 in
    let h = bit_xor 0x8445d61a4e774912 (mul64 8 m) in
    let k' = mul64 (shift_mix (mul64 k m)) m in
    let h' = mul64 (bit_xor h k') m in shift_mix (mul64 (shift_mix h') m)

module _ {V : Type 0} where
  unfoldable pub position : IoTable V → ℕ → ℕ
  position t key = hash_key key % (t.mask + 1)

  -- A new entry goes to the head of its chain.
  unfoldable pub insert : IoTable V → ℕ → V → IoTable V
  insert t key fresh =
      let pos = position t key in
      record t { entries = update t.entries pos ((key, fresh) ∷ t.entries pos) }

  unfoldable pub lookup_chain : ℕ → List (ℕ × V) → Option V
  lookup_chain key [] = none
  lookup_chain key ((k, v) ∷ rest) = if k == key then some v else lookup_chain key rest

  unfoldable pub lookup : IoTable V → ℕ → Option V
  lookup t key = lookup_chain key (t.entries (position t key))

  unfoldable pub remove_chain : ℕ → List (ℕ × V) → List (ℕ × V)
  remove_chain key [] = []
  remove_chain key ((k, v) ∷ rest) = if k == key then rest else (k, v) ∷ remove_chain key rest

  -- Removal through the handler that `lookup` gives; without one the code dereferences null.
  unfoldable pub remove : IoTable V → ℕ → Run (IoTable V)
  remove t key =
      let pos = position t key in
      if is_some (lookup t key)
      then ok (record t { entries = update t.entries pos (remove_chain key (t.entries pos)) })
      else fault

  unfoldable pub has : IoTable V → ℕ → Bool
  has t key = is_some (lookup_chain key (t.entries (position t key)))

  lookup_chain-remove_ne :
      (key j : ℕ) (es : List (ℕ × V))
      → (key == j) ≡ false
      → lookup_chain j (remove_chain key es) ≡ lookup_chain j es
  unfolding lookup_chain remove_chain
  lookup_chain-remove_ne key j [] ne = refl
  lookup_chain-remove_ne key j ((k, v) ∷ rest) ne =
      ground (arith, lookup_chain-remove_ne key j rest)

  -- Inserting a key shadows what the table had for it and changes no other key. Removing it then
  -- does not fault and gives back every lookup of the table before.
  pub remove-insert :
      (t : IoTable V) (key j : ℕ) (fresh : V)
      → (lookup (insert t key fresh) j ≡ (if key == j then some fresh else lookup t j))
        × (has (insert t key fresh) key ≡ true)
        × Ensures (remove (insert t key fresh) key) (λ u. lookup u j ≡ lookup t j)
  unfolding lookup insert remove has lookup_chain remove_chain position
  remove-insert t key j fresh = (
    ground (arith, ==→eq key j),
    ground arith,
    ground (arith, ==→eq (position t key) (position t j)),
  )
