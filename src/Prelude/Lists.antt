-- ===== src/Prelude/Lists.antt =====
-- Lists measured and indexed by native numbers, under the library's names.
use Prim.Native.Nat.{ℕ, zero, suc, ◌+◌, ◌-◌, ◌≤◌, ◌<◌}
use mathlib.Core.Path.{◌≡◌, refl, ap, ◌∙◌}
use tree.Prelude.Tests.{if◌then◌else◌, ltb, ◌==◌}
use mathlib.Core.List.{List, [], ◌∷◌, ◌++◌}
use native.Mathlib.Omega.{arith}

module _ {ℓ} {A : Type ℓ} where
  abbrev pub length : List A → ℕ
  length [] = 0
  length (x ∷ xs) = suc (length xs)

  abbrev pub get_or : List A → ℕ → A → A
  get_or [] i d = d
  get_or (x ∷ xs) zero d = x
  get_or (x ∷ xs) (suc i) d = get_or xs i d

  abbrev pub take : ℕ → List A → List A
  take zero xs = []
  take (suc n) [] = []
  take (suc n) (x ∷ xs) = x ∷ take n xs

  abbrev pub drop : ℕ → List A → List A
  drop zero xs = xs
  drop (suc n) [] = []
  drop (suc n) (x ∷ xs) = drop n xs

  pub length-append : (xs ys : List A) → length (xs ++ ys) ≡ length xs + length ys
  length-append [] ys = omega arith
  length-append (x ∷ xs) ys = omega (arith, length-append xs ys)

module _ {ℓ} {A : Type ℓ} where
  -- An index past the end is the end.
  abbrev pub insert_at : ℕ → A → List A → List A
  insert_at zero v xs = v ∷ xs
  insert_at (suc i) v [] = v ∷ []
  insert_at (suc i) v (x ∷ xs) = x ∷ insert_at i v xs

  abbrev pub remove_at : ℕ → List A → List A
  remove_at i [] = []
  remove_at zero (x ∷ xs) = xs
  remove_at (suc i) (x ∷ xs) = x ∷ remove_at i xs

  pub length-insert_at : (i : ℕ) (v : A) (xs : List A) → length (insert_at i v xs) ≡ length xs + 1
  length-insert_at zero v xs = omega arith
  length-insert_at (suc i) v [] = omega arith
  length-insert_at (suc i) v (x ∷ xs) = omega (arith, length-insert_at i v xs)

  pub length-remove_at :
      (i : ℕ) (xs : List A) → i < length xs → length (remove_at i xs) + 1 ≡ length xs
  length-remove_at i [] h = absurd (omega arith)
  length-remove_at zero (x ∷ xs) h = omega arith
  length-remove_at (suc i) (x ∷ xs) h = omega (arith, length-remove_at i xs)

  pub get_or-insert_at :
      (i j : ℕ) (v d : A) (xs : List A)
      → i ≤ length xs
      → get_or (insert_at i v xs) j d
        ≡ (if ltb j i then get_or xs j d else if j == i then v else get_or xs (j - 1) d)
  get_or-insert_at zero zero v d xs h = ground arith
  get_or-insert_at zero (suc j) v d xs h = ground arith
  get_or-insert_at (suc i) j v d [] h = absurd (omega arith)
  get_or-insert_at (suc i) zero v d (x ∷ xs) h = ground arith
  get_or-insert_at (suc i) (suc zero) v d (x ∷ xs) h = ground (arith, get_or-insert_at i 0 v d xs)
  get_or-insert_at (suc i) (suc (suc j)) v d (x ∷ xs) h =
      ground (arith, get_or-insert_at i (suc j) v d xs)

  pub get_or-remove_at :
      (i j : ℕ) (d : A) (xs : List A)
      → get_or (remove_at i xs) j d ≡ (if ltb j i then get_or xs j d else get_or xs (j + 1) d)
  get_or-remove_at i j d [] = ground arith
  get_or-remove_at zero j d (x ∷ xs) = ground arith
  get_or-remove_at (suc i) zero d (x ∷ xs) = ground arith
  get_or-remove_at (suc i) (suc j) d (x ∷ xs) = ground (arith, get_or-remove_at i j d xs)

  pub length-take : (k : ℕ) (xs : List A) → k ≤ length xs → length (take k xs) ≡ k
  length-take zero xs h = refl
  length-take (suc k) [] h = absurd (omega arith)
  length-take (suc k) (x ∷ xs) h = omega (arith, length-take k xs)

  pub take-append-drop : (k : ℕ) (xs : List A) → take k xs ++ drop k xs ≡ xs
  take-append-drop zero xs = refl
  take-append-drop (suc k) [] = refl
  take-append-drop (suc k) (x ∷ xs) = ap (λ r. x ∷ r) (take-append-drop k xs)

  pub take_all : (xs : List A) → take (length xs) xs ≡ xs
  take_all [] = refl
  take_all (x ∷ xs) = ap (λ r. x ∷ r) (take_all xs)

  pub insert_at_end : (v : A) (xs : List A) → insert_at (length xs) v xs ≡ xs ++ v ∷ []
  insert_at_end v [] = refl
  insert_at_end v (x ∷ xs) = ap (λ r. x ∷ r) (insert_at_end v xs)

  pub get_or-take :
      (k i : ℕ) (d : A) (xs : List A)
      → i < length (take k xs)
      → (get_or (take k xs) i d ≡ get_or xs i d) × (i < k) × (i < length xs)
  get_or-take zero i d xs h = absurd (omega arith)
  get_or-take (suc k) i d [] h = absurd (omega arith)
  get_or-take (suc k) zero d (x ∷ xs) h = (refl, omega arith, omega arith)
  get_or-take (suc k) (suc i) d (x ∷ xs) h =
      let (a, b, c) = get_or-take k i d xs (omega arith) in (a, omega arith, omega arith)

  pub get_or-drop : (k i : ℕ) (d : A) (xs : List A) → get_or (drop k xs) i d ≡ get_or xs (k + i) d
  get_or-drop zero i d xs = ap (λ j. get_or xs j d) (omega arith)
  get_or-drop (suc k) i d [] = refl
  get_or-drop (suc k) i d (x ∷ xs) = get_or-drop k i d xs ∙ ground arith

  pub length-drop : (k : ℕ) (xs : List A) → length (drop k xs) ≡ length xs - k
  length-drop zero xs = omega arith
  length-drop (suc k) [] = omega arith
  length-drop (suc k) (x ∷ xs) = omega (arith, length-drop k xs)

  pub get_or-append :
      (i : ℕ) (d : A) (xs ys : List A)
      → get_or (xs ++ ys) i d
        ≡ (if ltb i (length xs) then get_or xs i d else get_or ys (i - length xs) d)
  get_or-append i d [] ys = ground arith
  get_or-append zero d (x ∷ xs) ys = ground arith
  get_or-append (suc i) d (x ∷ xs) ys = ground (arith, get_or-append i d xs ys)

  pub length-take-le : (k : ℕ) (xs : List A) → length (take k xs) ≤ length xs
  length-take-le zero xs = omega arith
  length-take-le (suc k) [] = omega arith
  length-take-le (suc k) (x ∷ xs) = omega (arith, length-take-le k xs)

  abbrev pub modify_at : ℕ → (A → A) → List A → List A
  modify_at i f [] = []
  modify_at zero f (x ∷ xs) = f x ∷ xs
  modify_at (suc i) f (x ∷ xs) = x ∷ modify_at i f xs
