-- ===== src/Index/Sorted/Entries.antt =====
-- Association lists with strictly ascending keys.
use tree.Prelude.{
  ℕ, zero, suc, ◌==◌, ◌≡◌, ◌≤◌, ◌<◌, refl, if◌then◌else◌, ltb, Bool, true, false, none, some, List,
  [], ◌∷◌, arith, Bool-cases, inl, inr, ltb→lt,
}
use mathlib.Core.Option
use tree.Index.Contract.{Ascends, find}

module _ {V : Type 0} where
  abbrev pub put : ℕ → V → List (ℕ × V) → List (ℕ × V)
  put k v [] = (k, v) ∷ []
  put k v ((j, w) ∷ rest) =
      let onward = (j, w) ∷ put k v rest in
      if ltb k j then (k, v) ∷ (j, w) ∷ rest else if ltb j k then onward else (k, v) ∷ rest

  abbrev pub modify : ℕ → (V → V) → List (ℕ × V) → List (ℕ × V)
  modify k f [] = []
  modify k f ((j, w) ∷ rest) = (j, if k == j then f w else w) ∷ modify k f rest

  abbrev pub erase : ℕ → List (ℕ × V) → List (ℕ × V)
  erase k [] = []
  erase k ((j, w) ∷ rest) = if k == j then rest else (j, w) ∷ erase k rest

  -- The entries with keys from `low` on.
  abbrev pub from : ℕ → List (ℕ × V) → List (ℕ × V)
  from low [] = []
  from low ((j, w) ∷ rest) = if ltb j low then from low rest else (j, w) ∷ rest

  -- The key of the `n`-th entry, or of the last one, and whether the entries end there.
  abbrev pub walk : ℕ → ℕ → List (ℕ × V) → ℕ × Bool
  walk n k [] = (k, true)
  walk zero k (e ∷ rest) = (k, false)
  walk (suc n) k ((j, w) ∷ rest) = walk n j rest

  lower : (es : List (ℕ × V)) (low low' : ℕ) → low ≤ low' → Ascends low' es → Ascends low es
  lower [] low low' le a = tt
  lower ((j, w) ∷ rest) low low' le a = (omega arith, a.1)

  find-below : (es : List (ℕ × V)) (low k : ℕ) → Ascends low es → k < low → find k es ≡ none
  find-below [] low k a lt = refl
  find-below ((j, w) ∷ rest) low k a lt = ground (arith, find-below rest (suc j) k a.1)

  pub Ascends-put :
      (k : ℕ) (v : V) (es : List (ℕ × V)) (low : ℕ)
      → low ≤ k
      → Ascends low es
      → Ascends low (put k v es)
  Ascends-put k v [] low le a = (le, tt)
  Ascends-put k v ((j, w) ∷ rest) low le a = elim (Bool-cases (ltb k j)) [
    | inl e ↦ rw e (le, (ltb→lt k j e, a.1))
    | inr e ↦ rw e (elim (Bool-cases (ltb j k)) [
      | inl g ↦ rw g (a.0, Ascends-put k v rest (suc j) (ltb→lt j k g) a.1)
      | inr g ↦ rw g (le, lower rest (suc k) (suc j) (ground arith) a.1)
    ])
  ]

  pub find-put :
      (k j : ℕ) (v : V) (es : List (ℕ × V)) (low : ℕ)
      → Ascends low es
      → find j (put k v es) ≡ (if k == j then some v else find j es)
  find-put k j v [] low a = refl
  find-put k j v ((i, w) ∷ rest) low a = ground (arith, find-put k j v rest (suc i) a.1)

  pub Ascends-modify :
      (k : ℕ) (f : V → V) (es : List (ℕ × V)) (low : ℕ)
      → Ascends low es
      → Ascends low (modify k f es)
  Ascends-modify k f [] low a = tt
  Ascends-modify k f ((j, w) ∷ rest) low a = (a.0, Ascends-modify k f rest (suc j) a.1)

  pub find-modify :
      (k j : ℕ) (f : V → V) (es : List (ℕ × V))
      → find j (modify k f es) ≡ (if k == j then Option.map f (find j es) else find j es)
  find-modify k j f [] = ground arith
  find-modify k j f ((i, w) ∷ rest) = ground (arith, find-modify k j f rest)

  pub Ascends-erase :
      (k : ℕ) (es : List (ℕ × V)) (low : ℕ) → Ascends low es → Ascends low (erase k es)
  Ascends-erase k [] low a = tt
  Ascends-erase k ((j, w) ∷ rest) low a = elim (Bool-cases (k == j)) [
    | inl e ↦ rw e (lower rest low (suc j) (omega arith) a.1)
    | inr e ↦ rw e (a.0, Ascends-erase k rest (suc j) a.1)
  ]

  pub find-erase :
      (k j : ℕ) (es : List (ℕ × V)) (low : ℕ)
      → Ascends low es
      → find j (erase k es) ≡ (if k == j then none else find j es)
  find-erase k j [] low a = ground arith
  find-erase k j ((i, w) ∷ rest) low a =
      ground (arith, find-erase k j rest (suc i) a.1, find-below rest (suc i) j a.1)

  pub Ascends-from :
      (low : ℕ) (es : List (ℕ × V)) (from_key : ℕ) → Ascends from_key es → Ascends low (from low es)
  Ascends-from low [] b a = tt
  Ascends-from low ((j, w) ∷ rest) b a = elim (Bool-cases (ltb j low)) [
    | inl e ↦ rw e (Ascends-from low rest (suc j) a.1)
    | inr e ↦ rw e (ground arith, a.1)
  ]

  pub find-from : (low k : ℕ) (es : List (ℕ × V)) → low ≤ k → find k (from low es) ≡ find k es
  find-from low k [] le = refl
  find-from low k ((j, w) ∷ rest) le = ground (arith, find-from low k rest le)
