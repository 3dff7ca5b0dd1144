-- ===== src/AntiCache/Chain.antt =====
-- backend/anti-caching/AntiCache.hpp: chains of nodes that are linked both ways, and what unlinking a node
-- and linking one at an end do to them.
use tree.Prelude.{
  ℕ, ◌≡◌, ◌==◌, Bool, true, false, ◌||◌, if◌then◌else◌, List, [], ◌∷◌, ◌++◌, arith, refl,
}
use tree.AntiCache.Lru.{null}

abbrev pub has : ℕ → List ℕ → Bool
has a [] = false
has a (p ∷ l) = (a == p) || has a l

-- No address twice.
abbrev pub Once : List ℕ → Type 0
Once [] = Unit
Once (p ∷ l) = (has p l ≡ false) × Once l

-- From `p` the links lead through the nodes of the list to `q`, and back.
abbrev pub Chain : (ℕ → ℕ) → (ℕ → ℕ) → ℕ → List ℕ → ℕ → Type 0
Chain next prev p [] q = (next p ≡ q) × (prev q ≡ p)
Chain next prev p (a ∷ l) q = (next p ≡ a) × (prev a ≡ p) × Chain next prev a l q

pub has-append : (a : ℕ) (xs ys : List ℕ) → has a (xs ++ ys) ≡ (has a xs || has a ys)
has-append a [] ys = refl
has-append a (x ∷ xs) ys = ground (arith, has-append a xs ys)

pub apart : (a b : ℕ) (l : List ℕ) → has b l ≡ true → has a l ≡ false → (a == b) ≡ false
apart a b [] h k = cc
apart a b (x ∷ l) h k = ground (arith, apart a b l)

-- A write to `next` at no node but the last one, and to `prev` at no node but the first one, spares the chain.
pub frame :
    (next prev next' prev' : ℕ → ℕ) (p q : ℕ) (l : List ℕ)
    → ((a : ℕ) → has a (p ∷ l) ≡ true → next' a ≡ next a)
    → ((a : ℕ) → ((a == q) || has a l) ≡ true → prev' a ≡ prev a)
    → Chain next prev p l q
    → Chain next' prev' p l q
frame next prev next' prev' p q [] n v c = ground (arith, n p, v q)
frame next prev next' prev' p q (a ∷ l) n v c = (
  ground (arith, n p),
  ground (arith, v a),
  frame next prev next' prev' a q l (λ b h. n b (ground (arith, h)))
      (λ b h. v b (ground (arith, h))) c.2,
)

-- The links of a chain from a node on.
pub prev_inside :
    (next prev : ℕ → ℕ) (p q a : ℕ) (xs ys : List ℕ)
    → Chain next prev p (xs ++ (a ∷ ys)) q
    → has (prev a) (p ∷ xs) ≡ true
prev_inside next prev p q a [] ys c = ground arith
prev_inside next prev p q a (x ∷ xs) ys c = ground (arith, prev_inside next prev x q a xs ys c.2)

pub next_inside :
    (next prev : ℕ → ℕ) (p q a : ℕ) (xs ys : List ℕ)
    → Chain next prev p (xs ++ (a ∷ ys)) q
    → ((next a == q) || has (next a) ys) ≡ true
next_inside next prev p q a [] [] c = ground arith
next_inside next prev p q a [] (y ∷ ys) c = ground arith
next_inside next prev p q a (x ∷ xs) ys c = next_inside next prev x q a xs ys c.2

module _ (next prev next' prev' : ℕ → ℕ) (a : ℕ)
    (n : (b : ℕ) → next' b ≡ (if a == b then null else if prev a == b then next a else next b))
    (v : (b : ℕ)
      → prev' b ≡ (if a == b then null else if next a == b then prev a else prev b)) where
  pub unlinked :
      (p q : ℕ) (xs ys : List ℕ)
      → Chain next prev p (xs ++ (a ∷ ys)) q
      → Once (p ∷ (xs ++ (a ∷ ys)))
      → has q (xs ++ (a ∷ ys)) ≡ false
      → Chain next' prev' p (xs ++ ys) q
  unlinked p q [] [] c o h = ground (arith, n p, v q)
  unlinked p q [] (y ∷ ys) c o h = (
    ground (arith, n p),
    ground (arith, v y),
    frame next prev next' prev' y q ys
        (λ b i. ground (arith, n b, apart a b (y ∷ ys), apart p b (y ∷ ys)))
        (λ b i. ground (arith, v b, apart a b ys, apart y b ys)) c.2.2,
  )
  unlinked p q (x ∷ xs) ys c o h = (
    ground (
      arith,
      n p,
      prev_inside next prev x q a xs ys c.2,
      apart p (prev a) (x ∷ xs),
      has-append p xs (a ∷ ys),
    ),
    ground (
      arith,
      v x,
      next_inside next prev x q a xs ys c.2,
      apart x (next a) ys,
      has-append x xs (a ∷ ys),
      has-append q xs (a ∷ ys),
    ),
    unlinked x q xs ys c.2 o.1 (ground (arith, h)),
  )

pub last_inside :
    (next prev : ℕ → ℕ) (p q : ℕ) (l : List ℕ) → Chain next prev p l q → has (prev q) (p ∷ l) ≡ true
last_inside next prev p q [] c = ground arith
last_inside next prev p q (a ∷ l) c = ground (arith, last_inside next prev a q l c.2)

module _ (next prev next' prev' : ℕ → ℕ) (a : ℕ) where
  pub linked_first :
      (q : ℕ) (l : List ℕ)
      → ((b : ℕ) → next' b ≡ (if q == b then a else if a == b then next q else next b))
      → ((b : ℕ) → prev' b ≡ (if next q == b then a else if a == b then q else prev b))
      → Chain next prev q l q
      → Once (q ∷ l)
      → has a (q ∷ l) ≡ false
      → Chain next' prev' q (a ∷ l) q
  linked_first q [] n v c o h =
      (ground (arith, n q), ground (arith, v a), (ground (arith, n a), ground (arith, v q)))
  linked_first q (y ∷ l) n v c o h = (
    ground (arith, n q),
    ground (arith, v a),
    (
      ground (arith, n a),
      ground (arith, v y),
      frame next prev next' prev' y q l
          (λ b i. ground (arith, n b, apart q b (y ∷ l), apart a b (y ∷ l)))
          (λ b i. ground (arith, v b, apart y b l, apart a b l)) c.2,
    ),
  )

  pub linked_last :
      (s q : ℕ) (l : List ℕ)
      → ((b : ℕ) → next' b ≡ (if prev q == b then a else if a == b then q else next b))
      → ((b : ℕ) → prev' b ≡ (if q == b then a else if a == b then prev q else prev b))
      → Chain next prev s l q
      → Once (s ∷ l)
      → has q l ≡ false
      → has a (s ∷ l) ≡ false
      → (a == q) ≡ false
      → Chain next' prev' s (l ++ (a ∷ [])) q
  linked_last s q [] n v c o hq h e =
      (ground (arith, n s), ground (arith, v a), (ground (arith, n a), ground (arith, v q)))
  linked_last s q (y ∷ l) n v c o hq h e = (
    ground (arith, n s, last_inside next prev y q l c.2, apart s (prev q) (y ∷ l)),
    ground (arith, v y),
    linked_last y q l n v c.2 o.1 (ground arith) (ground arith) e,
  )

-- The last node of a chain from `p`.
abbrev pub last : ℕ → List ℕ → ℕ
last p [] = p
last p (x ∷ xs) = last x xs

pub prev-last :
    (next prev : ℕ → ℕ) (p q : ℕ) (l : List ℕ) → Chain next prev p l q → prev q ≡ last p l
prev-last next prev p q [] c = c.1
prev-last next prev p q (x ∷ l) c = prev-last next prev x q l c.2

pub prev-last-but-one :
    (next prev : ℕ → ℕ) (p q a : ℕ) (xs : List ℕ)
    → Chain next prev p (xs ++ (a ∷ [])) q
    → (prev a ≡ last p xs) × (prev q ≡ a)
prev-last-but-one next prev p q a [] c = (c.1, c.2.1)
prev-last-but-one next prev p q a (x ∷ xs) c = prev-last-but-one next prev x q a xs c.2

pub has-middle :
    (a b : ℕ) (xs ys : List ℕ) → has b (xs ++ (a ∷ ys)) ≡ ((b == a) || has b (xs ++ ys))
has-middle a b [] ys = refl
has-middle a b (x ∷ xs) ys = ground (arith, has-middle a b xs ys)

pub Once-middle :
    (a : ℕ) (xs ys : List ℕ) → Once (xs ++ (a ∷ ys)) → (has a (xs ++ ys) ≡ false) × Once (xs ++ ys)
Once-middle a [] ys o = o
Once-middle a (x ∷ xs) ys o =
    let (out, rest) = Once-middle a xs ys o.1 in
    (ground (arith, has-middle a x xs ys), (ground (arith, has-middle a x xs ys), rest))

pub Once-snoc : (a : ℕ) (xs : List ℕ) → Once xs → has a xs ≡ false → Once (xs ++ (a ∷ []))
Once-snoc a [] o h = (refl, tt)
Once-snoc a (x ∷ xs) o h =
    (ground (arith, has-append x xs (a ∷ [])), Once-snoc a xs o.1 (ground arith))
