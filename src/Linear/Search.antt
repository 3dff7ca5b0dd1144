-- ===== src/Linear/Search.antt =====
-- backend/leanstore/storage/hashing/LinearHashing.cpp: what the search of a page finds, against the first record
-- with a key.
use tree.Prelude.{
  ℕ, suc, ◌≡◌, true, Option, none, some, List, [], ◌∷◌, ◌++◌, if◌then◌else◌, length, arith, refl,
  ap, ◌∙◌, inl, inr, Bool-cases,
}
use tree.Linear.Page.{Slot, same_bytes, cmp_keys, find_from}

-- The payload of the first record with the key.
abbrev pub find_record : List ℕ → List Slot → Option (List ℕ)
find_record key [] = none
find_record key (s ∷ l) = if same_bytes key s.key then some s.payload else find_record key l

pub same_bytes-eq : (k l : List ℕ) → same_bytes k l ≡ true → k ≡ l
same_bytes-eq [] [] h = refl
same_bytes-eq [] (b ∷ l) h = absurd (ground (arith, h))
same_bytes-eq (a ∷ k) [] h = absurd (ground (arith, h))
same_bytes-eq (a ∷ k) (b ∷ l) h =
    let e : a ≡ b = ground (arith, h) in
    let r : k ≡ l = same_bytes-eq k l (ground (arith, h)) in ap (λ x. x ∷ k) e ∙ ap (λ m. b ∷ m) r

pub same_bytes_refl : (k : List ℕ) → same_bytes k k ≡ true
same_bytes_refl [] = refl
same_bytes_refl (a ∷ k) = ground (arith, same_bytes_refl k)

pub same_bytes_sym : (k l : List ℕ) → same_bytes k l ≡ same_bytes l k
same_bytes_sym [] [] = refl
same_bytes_sym [] (b ∷ l) = refl
same_bytes_sym (a ∷ k) [] = refl
same_bytes_sym (a ∷ k) (b ∷ l) = ground (arith, same_bytes_sym k l)

pub cmp_keys-same : (k l : List ℕ) → cmp_keys k l ≡ same_bytes k l
unfolding cmp_keys
cmp_keys-same k l = elim (Bool-cases (same_bytes k l)) [
  | inl e ↦ ground (arith, e, ap length (same_bytes-eq k l e))
  | inr e ↦ ground (arith, e)
]

pub find_record-append :
    (key : List ℕ) (l m : List Slot)
    → find_record key (l ++ m) ≡ elim (find_record key l) as (λ _. Option (List ℕ)) [
      | none ↦ find_record key m
      | some v ↦ some v
    ]
find_record-append key [] m = refl
find_record-append key (s ∷ l) m = ground (arith, find_record-append key l m)

-- A key of no record is not found.
pub find_from-none :
    (f : List ℕ → ℕ) (j : ℕ) (l : List Slot) (key : List ℕ)
    → find_record key l ≡ none
    → find_from f j l key ≡ none
unfolding find_from
find_from-none f j [] key h = refl
find_from-none f j (s ∷ l) key h = elim (Bool-cases (same_bytes key s.key)) [
  | inl e ↦ absurd (ground (arith, h, e))
  | inr e ↦
      let rest : find_record key l ≡ none = ground (arith, h, e) in
      ground (arith, e, cmp_keys-same key s.key, find_from-none f (suc j) l key rest)
]
