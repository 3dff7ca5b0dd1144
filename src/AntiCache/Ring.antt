-- ===== src/AntiCache/Ring.antt =====
-- backend/anti-caching/AntiCache.hpp: the ring stands for a list of nodes, and what unlinking a node and
-- linking it at the head or the tail do to the list.
use tree.Prelude.{
  ℕ, ◌≡◌, ◌==◌, Bool, true, false, not, ◌&&◌, if◌then◌else◌, List, [], ◌∷◌, ◌++◌, arith, refl, sym,
  ap, subst, ◌∙◌, if_true,
}
use tree.AntiCache.Lru.{
  Heap, null, lru_head, set_next, set_prev, lru_remove_self, lru_move_to_head, lru_move_to_tail,
}
use tree.AntiCache.Chain.{
  has, apart, Once, Chain, has-append, prev_inside, next_inside, unlinked, linked_first,
  linked_last, has-middle, Once-middle, Once-snoc,
}

if_same : {A : Type 0} → (b : Bool) (x : A) → (if b then x else x) ≡ x
if_same true x = refl
if_same false x = refl

-- The heap's ring shows these nodes, from the one used last on.
pub record Ring {P : Type 0} (h : Heap P) (l : List ℕ) : Type 0 where
  pub chain : Chain h.next h.prev lru_head l lru_head
  pub once : Once (lru_head ∷ l)
  pub real : has null l ≡ false

module _ {P : Type 0} where
  abbrev unlinked_heap : Heap P → ℕ → Heap P
  unlinked_heap h a = record {
    next = λ b. if a == b then null else if h.prev a == b then h.next a else h.next b;
    prev = λ b. if a == b then null else if h.next a == b then h.prev a else h.prev b;
    tuple = h.tuple;
  }

  real_links :
      (h : Heap P) (a : ℕ) (xs ys : List ℕ)
      → Ring h (xs ++ (a ∷ ys))
      → (not (h.prev a == null) && not (h.next a == null)) ≡ true
  real_links h a xs ys r = ground (
    arith,
    prev_inside h.next h.prev lru_head lru_head a xs ys r.chain,
    next_inside h.next h.prev lru_head lru_head a xs ys r.chain,
    apart null (h.prev a) (lru_head ∷ xs),
    apart null (h.next a) ys,
    has-append null xs (a ∷ ys),
    r.real,
  )

  remove_self-unlinked :
      (h : Heap P) (a : ℕ)
      → (not (h.prev a == null) && not (h.next a == null)) ≡ true
      → lru_remove_self h a ≡ unlinked_heap h a
  unfolding lru_remove_self set_next set_prev
  remove_self-unlinked h a e =
      if_true _ _ _ e
      ∙ ap
          (λ w. record {
            next = (unlinked_heap h a).next;
            prev = λ b. if a == b then null else if w == b then h.prev a else h.prev b;
            tuple = h.tuple;
          })
          (if_same (h.prev a == a) (h.next a))

  -- Unlinking a node of the ring takes it from the list, and resets its links.
  pub remove-Ring :
      (h : Heap P) (a : ℕ) (xs ys : List ℕ)
      → Ring h (xs ++ (a ∷ ys))
      → Ring (lru_remove_self h a) (xs ++ ys)
        × ((lru_remove_self h a).prev a ≡ null)
        × ((lru_remove_self h a).tuple ≡ h.tuple)
  remove-Ring h a xs ys r =
      subst (λ h'. Ring h' (xs ++ ys) × (h'.prev a ≡ null) × (h'.tuple ≡ h.tuple))
        (sym (remove_self-unlinked h a (real_links h a xs ys r)))
        (
          record {
            chain =
                unlinked h.next h.prev (unlinked_heap h a).next (unlinked_heap h a).prev a
                  (λ b. refl) (λ b. refl) lru_head lru_head xs ys r.chain r.once (r.once.0);
            once = (Once-middle a (lru_head ∷ xs) ys r.once).1;
            real = ground (arith, has-middle a null xs ys, r.real);
          },
          ground arith,
          refl,
        )

  linked-Ring :
      (h h' : Heap P) (a : ℕ) (l : List ℕ)
      → Ring h l
      → has a (lru_head ∷ l) ≡ false
      → (a == null) ≡ false
      → Chain h'.next h'.prev lru_head (a ∷ l) lru_head
      → Ring h' (a ∷ l)
  linked-Ring h h' a l r out real c = record {
    chain = c;
    once = (ground (arith, r.once.0), (ground arith, r.once.1));
    real = ground (arith, r.real);
  }

  -- Linking a node that is out of the ring puts it first.
  pub move_to_head-Ring :
      (h : Heap P) (a : ℕ) (l : List ℕ)
      → Ring (lru_remove_self h a) l
      → has a (lru_head ∷ l) ≡ false
      → (a == null) ≡ false
      → Ring (lru_move_to_head h a) (a ∷ l)
        × ((lru_move_to_head h a).tuple ≡ (lru_remove_self h a).tuple)
  unfolding lru_move_to_head set_next set_prev
  move_to_head-Ring h a l r out real =
      let h₁ = lru_remove_self h a in
      (
        linked-Ring h₁ (lru_move_to_head h a) a l r out real (
            linked_first h₁.next h₁.prev (lru_move_to_head h a).next (lru_move_to_head h a).prev a
              lru_head l (λ b. refl) (λ b. ground arith) r.chain r.once out),
        refl,
      )

  -- It puts it last.
  pub move_to_tail-Ring :
      (h : Heap P) (a : ℕ) (l : List ℕ)
      → Ring (lru_remove_self h a) l
      → has a (lru_head ∷ l) ≡ false
      → (a == null) ≡ false
      → Ring (lru_move_to_tail h a) (l ++ (a ∷ []))
        × ((lru_move_to_tail h a).tuple ≡ (lru_remove_self h a).tuple)
  unfolding lru_move_to_tail set_next set_prev
  move_to_tail-Ring h a l r out real =
      let h₁ = lru_remove_self h a in
      (
        record {
          chain =
              linked_last h₁.next h₁.prev (lru_move_to_tail h a).next (lru_move_to_tail h a).prev a
                lru_head lru_head l (λ b. ground arith) (λ b. ground arith) r.chain r.once r.once.0
                out (ground arith);
          once = Once-snoc a (lru_head ∷ l) r.once out;
          real = ground (arith, has-append null l (a ∷ []), r.real);
        },
        refl,
      )
