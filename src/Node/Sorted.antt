-- ===== src/Node/Sorted.antt =====
-- Lists of records in the order of their keys: what inserting, removing, cutting and joining does.
use tree.Prelude.{
  ℕ, zero, suc, ◌+◌, ◌-◌, ◌<◌, ◌≡◌, ◌≢◌, false, List, [], ◌∷◌, ◌++◌, arith, length, get_or, take,
  drop, insert_at, remove_at, length-insert_at, length-remove_at, get_or-insert_at,
  get_or-remove_at, get_or-take, get_or-drop, length-drop, get_or-append, Ordering, length-append,
}
use tree.Node.Bytes.{lex, lex_lt_trans, lex_eq}
use tree.Node.Position.{IsPosition}

abbrev pub Records : Type 0
Records = List (List ℕ × List ℕ)

abbrev pub key_of : Records → ℕ → List ℕ
key_of es i = (get_or es i ([], [])).0

abbrev pub Sorted : Records → Type 0
Sorted es = (i j : ℕ) → i < j → j < length es → lex (key_of es i) (key_of es j) ≡ Ordering.lt

abbrev pub All {ℓ} : {A : Type 0} → (A → Type ℓ) → List A → Type ℓ
All P [] = Unit
All P (x ∷ xs) = P x × All P xs

module _ {A : Type 0} (P : A → Type 0) where
  pub All-get_or : (xs : List A) (i : ℕ) (d : A) → All P xs → i < length xs → P (get_or xs i d)
  All-get_or [] i d h lt = absurd (omega arith)
  All-get_or (x ∷ xs) zero d h lt = h.0
  All-get_or (x ∷ xs) (suc i) d h lt = All-get_or xs i d h.1 (omega arith)

  pub All-append : (xs ys : List A) → All P xs → All P ys → All P (xs ++ ys)
  All-append [] ys h k = k
  All-append (x ∷ xs) ys h k = (h.0, All-append xs ys h.1 k)

  pub All-insert_at : (i : ℕ) (v : A) (xs : List A) → P v → All P xs → All P (insert_at i v xs)
  All-insert_at zero v xs e h = (e, h)
  All-insert_at (suc i) v [] e h = (e, tt)
  All-insert_at (suc i) v (x ∷ xs) e h = (h.0, All-insert_at i v xs e h.1)

  pub All-remove_at : (i : ℕ) (xs : List A) → All P xs → All P (remove_at i xs)
  All-remove_at i [] h = tt
  All-remove_at zero (x ∷ xs) h = h.1
  All-remove_at (suc i) (x ∷ xs) h = (h.0, All-remove_at i xs h.1)

  pub All-take : (i : ℕ) (xs : List A) → All P xs → All P (take i xs)
  All-take zero xs h = tt
  All-take (suc i) [] h = tt
  All-take (suc i) (x ∷ xs) h = (h.0, All-take i xs h.1)

  pub All-drop : (i : ℕ) (xs : List A) → All P xs → All P (drop i xs)
  All-drop zero xs h = h
  All-drop (suc i) [] h = tt
  All-drop (suc i) (x ∷ xs) h = All-drop i xs h.1

pub All-map :
    {A : Type 0} {P Q : A → Type 0} → ((x : A) → P x → Q x) → (xs : List A) → All P xs → All Q xs
All-map f [] h = tt
All-map f (x ∷ xs) h = (f x h.0, All-map f xs h.1)

lex_le_trans :
    (a b c : List ℕ) → lex a b ≢ Ordering.gt → lex b c ≡ Ordering.lt → lex a c ≡ Ordering.lt
lex_le_trans a b c h k = ground (arith, lex_lt_trans a b c, lex_eq a b)

module _ (es : Records) (s : Sorted es) where
  pub Sorted-insert_at :
      (pos : ℕ) (key payload : List ℕ)
      → IsPosition (key_of es) (length es) key (pos, false)
      → Sorted (insert_at pos (key, payload) es)
  Sorted-insert_at pos key payload p i j h k =
      rw
        (
          get_or-insert_at pos i (key, payload) ([], []) es p.within,
          get_or-insert_at pos j (key, payload) ([], []) es p.within,
          key_of,
        )
        (ground (
          arith,
          length-insert_at pos (key, payload) es,
          p.below i,
          p.above (j - 1),
          s i j,
          s i (j - 1),
          s (i - 1) (j - 1),
        ))

  pub Sorted-remove_at : (pos : ℕ) → pos < length es → Sorted (remove_at pos es)
  Sorted-remove_at pos lt i j h k =
      rw (get_or-remove_at pos i ([], []) es, get_or-remove_at pos j ([], []) es, key_of)
        (ground (arith, length-remove_at pos es, s i j, s i (j + 1), s (i + 1) (j + 1)))

  pub Sorted-take : (k : ℕ) → Sorted (take k es)
  Sorted-take k i j h lt =
      ground (arith, get_or-take k i ([], []) es, get_or-take k j ([], []) es, s i j)

  pub Sorted-drop : (k : ℕ) → Sorted (drop k es)
  Sorted-drop k i j h lt =
      rw (get_or-drop k i ([], []) es, get_or-drop k j ([], []) es, key_of)
        (s (k + i) (k + j) (omega arith) (omega (arith, length-drop k es)))

-- Two sorted lists with a key that no key of the first is above and every key of the second is.
pub Sorted-append :
    (xs ys : Records) (sep : List ℕ)
    → Sorted xs
    → Sorted ys
    → All (λ e. lex e.0 sep ≢ Ordering.gt) xs
    → All (λ e. lex sep e.0 ≡ Ordering.lt) ys
    → Sorted (xs ++ ys)
Sorted-append xs ys sep p q a b i j h k =
    rw (get_or-append i ([], []) xs ys, get_or-append j ([], []) xs ys, key_of)
      (ground (
        arith,
        length-append xs ys,
        p i j,
        q (i - length xs) (j - length xs),
        All-get_or (λ e. lex e.0 sep ≢ Ordering.gt) xs i ([], []) a,
        All-get_or (λ e. lex sep e.0 ≡ Ordering.lt) ys (j - length xs) ([], []) b,
        lex_le_trans (key_of xs i) sep (key_of ys (j - length xs)),
      ))
