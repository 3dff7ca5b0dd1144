-- ===== src/Linear/Apart.antt =====
-- backend/leanstore/storage/hashing/LinearHashing.cpp: lists of records in which no key stands twice, which the
-- assertions of `insert` ask for.
use tree.Prelude.{ℕ, ◌≡◌, none, List, [], ◌∷◌, ◌++◌, arith, refl, Bool-cases, inl, inr}
use tree.Linear.Page.{Slot, same_bytes}
use tree.Linear.Search.{find_record, find_record-append, same_bytes_sym}
use tree.Linear.Placing.{All}

abbrev pub Distinct : List Slot → Type 0
Distinct [] = Unit
Distinct (s ∷ l) = (find_record s.key l ≡ none) × Distinct l

-- No key of `l` is a key of `r`.
abbrev pub Absent : List Slot → List Slot → Type 0
Absent r l = All (λ s. find_record s.key r ≡ none) l

pub Absent-nil : (l : List Slot) → Absent [] l
Absent-nil [] = tt
Absent-nil (s ∷ l) = (refl, Absent-nil l)

pub none-append :
    (key : List ℕ) (l m : List Slot)
    → find_record key l ≡ none
    → find_record key m ≡ none
    → find_record key (l ++ m) ≡ none
none-append key l m h k = ground (arith, find_record-append key l m, h, k)

pub none-parts :
    (key : List ℕ) (l m : List Slot)
    → find_record key (l ++ m) ≡ none
    → (find_record key l ≡ none) × (find_record key m ≡ none)
none-parts key [] m h = (refl, h)
none-parts key (s ∷ l) m h = elim (Bool-cases (same_bytes key s.key)) [
  | inl e ↦ absurd (ground (arith, h, e))
  | inr e ↦ let (a, b) = none-parts key l m (ground (arith, h, e)) in (ground (arith, a, e), b)
]

pub Absent-append : (q r l : List Slot) → Absent q l → Absent r l → Absent (q ++ r) l
Absent-append q r [] a b = tt
Absent-append q r (s ∷ l) a b = (none-append s.key q r a.0 b.0, Absent-append q r l a.1 b.1)

pub Absent-one : (s : Slot) (l : List Slot) → find_record s.key l ≡ none → Absent (s ∷ []) l
Absent-one s [] h = tt
Absent-one s (x ∷ l) h = elim (Bool-cases (same_bytes s.key x.key)) [
  | inl e ↦ absurd (ground (arith, h, e))
  | inr e ↦ (ground (arith, e, same_bytes_sym x.key s.key), Absent-one s l (ground (arith, h, e)))
]

pub Absent-snoc :
    (r : List Slot) (s : Slot) (l : List Slot)
    → find_record s.key l ≡ none
    → Absent r l
    → Absent (r ++ (s ∷ [])) l
Absent-snoc r s l h a = Absent-append r (s ∷ []) l a (Absent-one s l h)

pub Absent-cons : (s : Slot) (r l : List Slot) → Absent (s ∷ []) l → Absent r l → Absent (s ∷ r) l
Absent-cons s r l a b = Absent-append (s ∷ []) r l a b

pub Distinct-parts : (l m : List Slot) → Distinct (l ++ m) → Distinct l × Distinct m × Absent l m
Distinct-parts [] m d = (tt, d, Absent-nil m)
Distinct-parts (s ∷ l) m d =
    let (a, b) = none-parts s.key l m d.0 in
    let (dl, dm, apart) = Distinct-parts l m d.1 in
    ((a, dl), dm, Absent-cons s l m (Absent-one s m b) apart)

pub Distinct-middle :
    (s : Slot) (l m : List Slot)
    → find_record s.key (l ++ m) ≡ none
    → Distinct (l ++ m)
    → Distinct (l ++ (s ∷ m))
Distinct-middle s [] m h d = (h, d)
Distinct-middle s (x ∷ l) m h d = elim (Bool-cases (same_bytes s.key x.key)) [
  | inl e ↦ absurd (ground (arith, h, e))
  | inr e ↦
      let (a, b) = none-parts x.key l m d.0 in
      let c : find_record x.key (s ∷ m) ≡ none = ground (arith, e, same_bytes_sym x.key s.key, b) in
      (none-append x.key l (s ∷ m) a c, Distinct-middle s l m (ground (arith, h, e)) d.1)
]
