-- ===== src/AntiCache/Joining.antt =====
-- backend/anti-caching/AntiCache.hpp: `admit_element_no_eviction` gives a new tuple a node and links it at an
-- end of the list.
use tree.Prelude.{
  ℕ, ◌+◌, ◌≡◌, ◌==◌, ◌||◌, inl, inr, true, false, Bool, Option, none, some, List, [], ◌∷◌, ◌++◌,
  arith, sym, ap, subst, ◌∙◌, ==→eq, Bool-cases, Option-cases, if◌then◌else◌, ◌&&◌, if_false,
  update, not, ok, ◌<◌, length, length-append,
}
use tree.AntiCache.Lru.{Heap, null, lru_head, lru_remove_self, lru_move_to_head, lru_move_to_tail}
use tree.AntiCache.Chain.{has, apart, frame, has-append}
use tree.AntiCache.Ring.{Ring, move_to_head-Ring, move_to_tail-Ring}
use tree.AntiCache.Tables.{Table, Blocks}
use tree.AntiCache.Adapter.{AntiCache, admit_element_no_eviction}
use tree.AntiCache.Valid.{Valid, view}

abbrev pub listed : Bool → ℕ → List ℕ → List ℕ
listed head p l = if head then p ∷ l else l ++ (p ∷ [])

has-listed : (head : Bool) (x p : ℕ) (l : List ℕ) → has x (listed head p l) ≡ ((x == p) || has x l)
has-listed true x p l = ground arith
has-listed false x p l = ground (arith, has-append x l (p ∷ []))

length-listed : (head : Bool) (p : ℕ) (l : List ℕ) → length (listed head p l) ≡ length l + 1
length-listed true p l = omega arith
length-listed false p l = length-append l (p ∷ [])

module _ {P : Type 0} where
  -- `new TaggedPayload{k, v}`
  abbrev pub new_node : Heap P → ℕ → ℕ → P → Heap P
  new_node h p k v = record {
    next = update h.next p null;
    prev = update h.prev p null;
    tuple = update h.tuple p (some (k, v));
  }

  new_node-Ring :
      (h : Heap P) (l : List ℕ) (p k : ℕ) (v : P)
      → Ring h l
      → has p (lru_head ∷ l) ≡ false
      → Ring (new_node h p k v) l
  new_node-Ring h l p k v r out = record {
    chain =
        frame h.next h.prev (new_node h p k v).next (new_node h p k v).prev lru_head lru_head l
          (λ a i. ground (arith, apart p a (lru_head ∷ l)))
          (λ a i. ground (arith, apart p a (lru_head ∷ l))) r.chain;
    once = r.once;
    real = r.real;
  }

  remove-new_node :
      (h : Heap P) (p k : ℕ) (v : P) → lru_remove_self (new_node h p k v) p ≡ new_node h p k v
  unfolding lru_remove_self
  remove-new_node h p k v =
      let test : (not ((new_node h p k v).prev p == null)
            && not ((new_node h p k v).next p == null))
          ≡ false =
        ground arith in
      if_false _ _ _ test

  abbrev pub linked : Bool → Heap P → ℕ → Heap P
  linked head h p = if head then lru_move_to_head h p else lru_move_to_tail h p

  linked-Ring :
      (head : Bool) (h : Heap P) (l : List ℕ) (p k : ℕ) (v : P)
      → Ring h l
      → has p (lru_head ∷ l) ≡ false
      → (p == null) ≡ false
      → Ring (linked head (new_node h p k v) p) (listed head p l)
        × ((linked head (new_node h p k v) p).tuple ≡ (new_node h p k v).tuple)
  linked-Ring true h l p k v r out real =
      let same = remove-new_node h p k v in
      let ring = subst (λ h'. Ring h' l) (sym same) (new_node-Ring h l p k v r out) in
      let (r', t) = move_to_head-Ring (new_node h p k v) p l ring out real in
      (r', t ∙ ap (λ (h' : Heap P). h'.tuple) same)
  linked-Ring false h l p k v r out real =
      let same = remove-new_node h p k v in
      let ring = subst (λ h'. Ring h' l) (sym same) (new_node-Ring h l p k v r out) in
      let (r', t) = move_to_tail-Ring (new_node h p k v) p l ring out real in
      (r', t ∙ ap (λ (h' : Heap P). h'.tuple) same)

module _ {P : Type 0} {C : Table ℕ} {E : Table (ℕ × ℕ)} {B : Blocks P} where
  -- What `admit_element_no_eviction` leaves.
  abbrev pub joined : Bool → ℕ → P → AntiCache C E B → AntiCache C E B
  joined head k v s = record s {
    next_address = s.next_address + 1;
    cache = C.assign s.cache k s.next_address;
    heap = linked head (new_node s.heap s.next_address k v) s.next_address;
  }

  pub admit_run :
      (s : AntiCache C E B) (k : ℕ) (v : P) (head : Bool)
      → C.find s.cache k ≡ none
      → admit_element_no_eviction s k v head ≡ ok (joined head k v s)
  unfolding admit_element_no_eviction
  admit_run s k v head e = ground (arith, e)

  module _ (head : Bool) (k : ℕ) (v : P) (s : AntiCache C E B) (l : List ℕ) (valid : Valid s l)
      (not_cached : C.find s.cache k ≡ none) where
    abbrev pub now : AntiCache C E B
    now = joined head k v s

    new_address : has s.next_address (lru_head ∷ l) ≡ false
    new_address = elim (Bool-cases (has s.next_address l)) [
      | inl e ↦ absurd (ground (arith, valid.allocated s.next_address e))
      | inr e ↦ ground (arith, e, valid.room)
    ]

    pub relinked :
        Ring now.heap (listed head s.next_address l)
        × (now.heap.tuple ≡ (new_node s.heap s.next_address k v).tuple)
    relinked =
        linked-Ring head s.heap l s.next_address k v valid.ring new_address
          (ground (arith, valid.room))

    pub tuple_now :
        (x : ℕ) → now.heap.tuple x ≡ (if s.next_address == x then some (k, v) else s.heap.tuple x)
    tuple_now x = ap (λ (t : ℕ → Option (ℕ × P)). t x) relinked.1

    pub cache_now :
        (j : ℕ) → C.find now.cache j ≡ (if k == j then some s.next_address else C.find s.cache j)
    cache_now j = C.find-assign s.cache k j s.next_address

    pub listed_before : (j x : ℕ) → C.find s.cache j ≡ some x → (s.next_address == x) ≡ false
    listed_before j x e =
        let (h, _, _) = valid.shown j x e in ground (arith, apart s.next_address x l, new_address)

    pub other_cached : (j x : ℕ) → C.find s.cache j ≡ some x → (k == j) ≡ false
    other_cached j x e = elim (Bool-cases (k == j)) [
      | inl q ↦ cc (e, not_cached, ap (C.find s.cache) (==→eq k j q))
      | inr q ↦ q
    ]

    pub was_cached :
        (j x : ℕ) → C.find now.cache j ≡ some x → (k == j) ≡ false → C.find s.cache j ≡ some x
    was_cached j x e q = ground (arith, cache_now j, e, q)

    listed_old : (x : ℕ) → has x l ≡ true → has x (listed head s.next_address l) ≡ true
    listed_old x h = ground (arith, has-listed head x s.next_address l)

    listed_new : has s.next_address (listed head s.next_address l) ≡ true
    listed_new = ground (arith, has-listed head s.next_address s.next_address l)

    pub shown_now :
        (j x : ℕ)
        → C.find now.cache j ≡ some x
        → (has x (listed head s.next_address l) ≡ true) × (w : P) × (now.heap.tuple x ≡ some (j, w))
    shown_now j x e = elim (Bool-cases (k == j)) [
      | inl q ↦
          let at : s.next_address ≡ x = ground (arith, cache_now j, e, q) in
          (
            subst (λ x. has x (listed head s.next_address l) ≡ true) at listed_new,
            v,
            ground (arith, tuple_now x, at, q),
          )
      | inr q ↦
          let old = was_cached j x e q in
          let (h, w, t) = valid.shown j x old in
          (listed_old x h, w, tuple_now x ∙ ground (arith, t, listed_before j x old))
    ]

    pub known_now :
        (x : ℕ)
        → has x (listed head s.next_address l) ≡ true
        → (j : ℕ) × (w : P) × (now.heap.tuple x ≡ some (j, w)) × (C.find now.cache j ≡ some x)
    known_now x h = elim (Bool-cases (s.next_address == x)) [
      | inl q ↦ (k, v, ground (arith, tuple_now x, q), ground (arith, cache_now k, q))
      | inr q ↦
          let (j, w, t, c) =
            valid.known x (ground (arith, has-listed head x s.next_address l, h, q)) in
          (
            j,
            w,
            ground (arith, tuple_now x, q, t),
            ground (arith, cache_now j, c, other_cached j x c),
          )
    ]

    pub allocated_now :
        (x : ℕ) → has x (listed head s.next_address l) ≡ true → x < s.next_address + 1
    allocated_now x h = elim (Bool-cases (s.next_address == x)) [
      | inl q ↦ ground arith
      | inr q ↦
          let lt = valid.allocated x (ground (arith, has-listed head x s.next_address l, h, q)) in
          omega (arith, lt)
    ]

    pub counted_now : C.item_count now.cache ≡ length (listed head s.next_address l)
    counted_now = ground (
      arith,
      C.count-assign s.cache k s.next_address,
      not_cached,
      valid.counted,
      length-listed head s.next_address l,
    )

    -- A key that nobody knew.
    module _ (no_tomb : E.find s.evict_table k ≡ none) where
      pub joined-Valid : Valid now (listed head s.next_address l)
      joined-Valid = record {
        ring = relinked.0;
        shown = shown_now;
        known = known_now;
        single = λ j x e. elim (Bool-cases (k == j)) [
          | inl q ↦ sym (ap (E.find s.evict_table) (==→eq k j q)) ∙ no_tomb
          | inr q ↦ valid.single j x (was_cached j x e q)
        ];
        stored = valid.stored;
        tombs = valid.tombs;
        allocated = allocated_now;
        keys = valid.keys;
        room = omega (arith, valid.room);
        counted = counted_now;
      }

      pub joined-view : (j : ℕ) → view now j ≡ (if k == j then some v else view s j)
      joined-view j = elim (Bool-cases (k == j)) [
        | inl e ↦ ground (arith, e, cache_now j, tuple_now s.next_address)
        | inr e ↦ elim (Option-cases (C.find s.cache j)) [
          | inl n ↦ ground (arith, e, n, cache_now j)
          | inr (x, n) ↦
              let (_, w, t) = valid.shown j x n in
              ground (arith, e, n, t, cache_now j, tuple_now x, listed_before j x n)
        ]
      ]
