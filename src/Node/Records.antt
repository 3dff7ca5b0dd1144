-- ===== src/Node/Records.antt =====
-- backend/leanstore/storage/btree/core/BTreeNode.cpp: the records of a node, with their whole keys, and
-- what copying a range of slots does to them.
use tree.Prelude.{
  ℕ, zero, suc, ◌≤◌, ◌≡◌, inl, inr, List, [], ◌∷◌, ◌++◌, map, arith, refl, sym, ap, ◌∙◌, ◌==◌,
  length, take, drop, Bool-cases, take-append-drop, length-take, insert_at_end, ==→eq, insert_at,
}
use mathlib.Core.List.{append_assoc, append-nil, map-append}
use tree.Node.Bytes.{head}
use tree.Node.State.{Slot, FenceKey, Node, count, prefix}
use tree.Node.Store.{store_key_value, copy_key_value, copy_slot, for_each, copy_key_value_range}
use tree.Node.State.{HasPrefix}
use tree.Node.Sorted.{All, All-append, All-insert_at, Records}

abbrev pub entry : Node → Slot → List ℕ × List ℕ
entry n s = (prefix n ++ s.key, s.payload)

-- The records of a node in their order: whole key and payload.
abbrev pub entries : Node → Records
entries n = map (entry n) n.slot

-- The fields that copying records leaves alone.
abbrev pub SameFrame : Node → Node → Type 0
SameFrame m n =
    (m.prefix_length ≡ n.prefix_length)
    × (m.lower_fence ≡ n.lower_fence)
    × (m.upper_fence ≡ n.upper_fence)
    × (m.is_leaf ≡ n.is_leaf)
    × (m.upper ≡ n.upper)

abbrev pub HeadsMatch : List Slot → Type 0
HeadsMatch l = All (λ s. s.head ≡ head s.key) l

-- What copying `range` from `src` to the end of `dst` gives.
pub record IsCopied (src dst res : Node) (range : List Slot) : Type 0 where
  pub records : entries res ≡ entries dst ++ map (entry src) range
  pub frame : SameFrame res dst
  pub heads : HeadsMatch dst.slot → HeadsMatch range → HeadsMatch res.slot

IsCopied-nil : (src dst : Node) → IsCopied src dst dst []
IsCopied-nil src dst = record {
  records = sym (append-nil (entries dst));
  frame = (refl, refl, refl, refl, refl);
  heads = λ h _. h;
}

IsCopied-cons :
    (src dst mid res : Node) (s : Slot) (range : List Slot)
    → IsCopied src dst mid (s ∷ [])
    → IsCopied src mid res range
    → IsCopied src dst res (s ∷ range)
IsCopied-cons src dst mid res s range a b = record {
  records =
      b.records
      ∙ ap (λ l. l ++ map (entry src) range) a.records
      ∙ append_assoc (entries dst) (entry src s ∷ []) (map (entry src) range);
  frame = (
    b.frame.0 ∙ a.frame.0,
    b.frame.1 ∙ a.frame.1,
    b.frame.2 ∙ a.frame.2,
    b.frame.3 ∙ a.frame.3,
    b.frame.4 ∙ a.frame.4,
  );
  heads = λ h k. b.heads (a.heads h (k.0, tt)) k.1;
}

map-insert_at :
    {A B : Type 0} (f : A → B) (i : ℕ) (v : A) (xs : List A)
    → map f (insert_at i v xs) ≡ insert_at i (f v) (map f xs)
map-insert_at f zero v xs = refl
map-insert_at f (suc i) v [] = refl
map-insert_at f (suc i) v (x ∷ xs) = ap (λ r. f x ∷ r) (map-insert_at f i v xs)

pub length-map : {A B : Type 0} (f : A → B) (xs : List A) → length (map f xs) ≡ length xs
length-map f [] = refl
length-map f (x ∷ xs) = ap suc (length-map f xs)

pub prefix_frame : (m n : Node) → SameFrame m n → prefix m ≡ prefix n
prefix_frame m n f =
    ap (λ k. take k m.lower_fence.bytes) f.0
    ∙ ap (λ (l : FenceKey). take n.prefix_length l.bytes) f.1

All-frame :
    (src m n : Node) (range : List Slot)
    → SameFrame m n
    → All (λ s. HasPrefix n (prefix src ++ s.key)) range
    → All (λ s. HasPrefix m (prefix src ++ s.key)) range
All-frame src m n [] f h = h
All-frame src m n (s ∷ range) f h = (
  ap (λ k. take k (prefix src ++ s.key)) f.0 ∙ h.0 ∙ sym (prefix_frame m n f),
  All-frame src m n range f h.1,
)

copy_slot-IsCopied :
    (src : Node) (s : Slot) (dst : Node)
    → prefix src ≡ prefix dst
    → IsCopied src dst (copy_slot s dst) (s ∷ [])
unfolding copy_slot
copy_slot-IsCopied src s dst e = record {
  records =
      map-append (entry dst) dst.slot _
      ∙ ap (λ p. entries dst ++ (p ++ s.key, s.payload) ∷ []) (sym e);
  frame = (refl, refl, refl, refl, refl);
  heads = λ h k. All-append (λ s. s.head ≡ head s.key) dst.slot _ h k;
}

-- Where the key has the prefix, the record that is stored is the one that was given.
pub entries-store_key_value :
    (n : Node) (i : ℕ) (key payload : List ℕ)
    → HasPrefix n key
    → entries (store_key_value n i key payload) ≡ insert_at i (key, payload) (entries n)
unfolding store_key_value
entries-store_key_value n i key payload e =
    map-insert_at (entry n) i _ n.slot
    ∙ ap (λ k. insert_at i (k, payload) (entries n))
        (ap (λ p. p ++ drop n.prefix_length key) (sym e) ∙ take-append-drop n.prefix_length key)

pub stored_frame :
    (n : Node) (i : ℕ) (key payload : List ℕ) → SameFrame (store_key_value n i key payload) n
unfolding store_key_value
stored_frame n i key payload = (refl, refl, refl, refl, refl)

pub stored_heads :
    (n : Node) (i : ℕ) (key payload : List ℕ)
    → HeadsMatch n.slot
    → HeadsMatch (store_key_value n i key payload).slot
unfolding store_key_value
stored_heads n i key payload h = All-insert_at (λ s. s.head ≡ head s.key) i _ n.slot refl h

copy_key_value-IsCopied :
    (src : Node) (s : Slot) (dst : Node)
    → HasPrefix dst (prefix src ++ s.key)
    → IsCopied src dst (copy_key_value src s dst) (s ∷ [])
unfolding copy_key_value
copy_key_value-IsCopied src s dst e = record {
  records =
      entries-store_key_value dst (count dst) (prefix src ++ s.key) s.payload e
      ∙ ap (λ k. insert_at k (entry src s) (entries dst)) (sym (length-map (entry dst) dst.slot))
      ∙ insert_at_end (entry src s) (entries dst);
  frame = stored_frame dst (count dst) (prefix src ++ s.key) s.payload;
  heads = λ h _. stored_heads dst (count dst) (prefix src ++ s.key) s.payload h;
}

for_each_slot-IsCopied :
    (src dst : Node) (range : List Slot)
    → prefix src ≡ prefix dst
    → IsCopied src dst (for_each copy_slot range dst) range
for_each_slot-IsCopied src dst [] e = IsCopied-nil src dst
for_each_slot-IsCopied src dst (s ∷ range) e =
    let one = copy_slot-IsCopied src s dst e in
    IsCopied-cons src dst (copy_slot s dst) _ s range one (
      for_each_slot-IsCopied src (copy_slot s dst) range
        (e ∙ sym (prefix_frame (copy_slot s dst) dst one.frame)))

for_each_value-IsCopied :
    (src dst : Node) (range : List Slot)
    → All (λ s. HasPrefix dst (prefix src ++ s.key)) range
    → IsCopied src dst (for_each (copy_key_value src) range dst) range
for_each_value-IsCopied src dst [] e = IsCopied-nil src dst
for_each_value-IsCopied src dst (s ∷ range) e =
    let one = copy_key_value-IsCopied src s dst e.0 in
    IsCopied-cons src dst (copy_key_value src s dst) _ s range one (
      for_each_value-IsCopied src (copy_key_value src s dst) range
        (All-frame src (copy_key_value src s dst) dst range one.frame e.1))

take-append_of_length : (k : ℕ) (xs ys : List ℕ) → length xs ≡ k → take k (xs ++ ys) ≡ xs
take-append_of_length zero [] ys h = refl
take-append_of_length zero (x ∷ xs) ys h = absurd (omega arith)
take-append_of_length (suc k) [] ys h = absurd (omega arith)
take-append_of_length (suc k) (x ∷ xs) ys h =
    ap (λ r. x ∷ r) (take-append_of_length k xs ys (omega arith))

same_prefix :
    (src dst : Node) (s : Slot) (range : List Slot)
    → src.prefix_length ≡ dst.prefix_length
    → src.prefix_length ≤ length src.lower_fence.bytes
    → HasPrefix dst (prefix src ++ s.key)
    → prefix src ≡ prefix dst
same_prefix src dst s range e fits h =
    sym (
      take-append_of_length src.prefix_length (prefix src) s.key
        (length-take src.prefix_length src.lower_fence.bytes fits))
    ∙ ap (λ k. take k (prefix src ++ s.key)) e
    ∙ h

fast_path :
    (src dst : Node) (range : List Slot)
    → src.prefix_length ≡ dst.prefix_length
    → src.prefix_length ≤ length src.lower_fence.bytes
    → All (λ s. HasPrefix dst (prefix src ++ s.key)) range
    → IsCopied src dst (for_each copy_slot range dst) range
fast_path src dst [] e fits h = IsCopied-nil src dst
fast_path src dst (s ∷ range) e fits h =
    for_each_slot-IsCopied src dst (s ∷ range) (same_prefix src dst s range e fits h.0)

-- On both paths of `copyKeyValueRange`, if every key of the range has the prefix of the target, the
-- target gets the records of the range behind its own.
pub copy_key_value_range-IsCopied :
    (src dst : Node) (first number : ℕ)
    → src.prefix_length ≤ length src.lower_fence.bytes
    → All (λ s. HasPrefix dst (prefix src ++ s.key)) (take number (drop first src.slot))
    → IsCopied src dst
        (copy_key_value_range src dst first number)
        (take number (drop first src.slot))
unfolding copy_key_value_range
copy_key_value_range-IsCopied src dst first number fits h =
    elim (Bool-cases (src.prefix_length == dst.prefix_length)) [
      | inl e ↦ rw e (fast_path src dst (take number (drop first src.slot)) (==→eq _ _ e) fits h)
      | inr e ↦ rw e (for_each_value-IsCopied src dst (take number (drop first src.slot)) h)
    ]
