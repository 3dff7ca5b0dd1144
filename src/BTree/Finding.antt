-- ===== src/BTree/Finding.antt =====
-- backend/leanstore/storage/btree/BTreeLL.cpp: finding a key in a list of records, and in the records of
-- a node.
use tree.Prelude.{
  ℕ, zero, suc, ◌<◌, ◌≡◌, ◌≢◌, inl, inr, Bool, true, false, Option, none, some, List, [], ◌∷◌, ◌++◌,
  arith, map, refl, sym, ap, length, get_or, if◌then◌else◌, ltb, Bool-cases, Ordering,
}
use mathlib.Core.Option
use tree.Node.Bytes.{lex, AreBytes, lex_refl, lex_eq}
use tree.Node.State.{Node, count, slot_at, no_slot}
use tree.Node.Search.{lower_bound}
use tree.Node.Position.{IsPosition}
use tree.Node.LowerBound.{lower_bound_exact-lower_bound}
use tree.Node.Hints.{HintsMatch}
use tree.Node.Sorted.{Records, key_of, All}
use tree.Node.Records.{entry, entries, length-map}
use tree.Node.Valid.{IsOrdered, IsOrdered-IsSearchable, lower_bound-records}
use tree.BTree.Descent.{lookup_leaf}

-- The payload of the first record with this key.
unfoldable pub find : Records → List ℕ → Option (List ℕ)
find [] key = none
find ((k, payload) ∷ es) key = elim (lex k key) [
  | Ordering.eq ↦ some payload
  | Ordering.lt ↦ find es key
  | Ordering.gt ↦ find es key
]

pub find-append-missed :
    (es fs : Records) (key : List ℕ) → find es key ≡ none → find (es ++ fs) key ≡ find fs key
unfolding find
find-append-missed [] fs key h = refl
find-append-missed ((k, p) ∷ es) fs key h = ground (arith, find-append-missed es fs key, h)

pub find-append-none :
    (es fs : Records) (key : List ℕ) → find fs key ≡ none → find (es ++ fs) key ≡ find es key
unfolding find
find-append-none [] fs key h = h
find-append-none ((k, p) ∷ es) fs key h = ground (arith, find-append-none es fs key h)

pub find-other :
    (es : Records) (key : List ℕ) → All (λ e. lex e.0 key ≢ Ordering.eq) es → find es key ≡ none
unfolding find
find-other [] key h = refl
find-other ((k, p) ∷ es) key h = ground (arith, h.0, find-other es key h.1)

find-none :
    (es : Records) (key : List ℕ)
    → ((i : ℕ) → i < length es → lex (key_of es i) key ≢ Ordering.eq)
    → find es key ≡ none
unfolding find
find-none [] key h = refl
find-none ((k, p) ∷ es) key h =
    ground (arith, h 0 (omega arith), find-none es key (λ i q. h (suc i) (omega arith)))

find-at :
    (es : Records) (key : List ℕ) (r : ℕ)
    → r < length es
    → key_of es r ≡ key
    → ((i : ℕ) → i < r → lex (key_of es i) key ≡ Ordering.lt)
    → find es key ≡ some (get_or es r ([], [])).1
unfolding find
find-at [] key r h e below = absurd (omega arith)
find-at ((k, p) ∷ es) key zero h e below = ground (arith, lex_refl k, ap (lex k) e)
find-at ((k, p) ∷ es) key (suc r) h e below = ground (
  arith,
  below 0 (omega arith),
  find-at es key r (omega arith) e (λ i q. below (suc i) (omega arith)),
)

get_or-map :
    {A B : Type 0}
    → (f : A → B) (xs : List A) (i : ℕ) (d : A) (e : B) → i < length xs
    → get_or (map f xs) i e ≡ f (get_or xs i d)
get_or-map f [] i d e h = absurd (omega arith)
get_or-map f (x ∷ xs) zero d e h = refl
get_or-map f (x ∷ xs) (suc i) d e h = get_or-map f xs i d e (omega arith)

payload_of-entries :
    (n : Node) (i : ℕ) → i < count n → (get_or (entries n) i ([], [])).1 ≡ (slot_at n i).payload
payload_of-entries n i h = ap (λ e. e.1) (get_or-map (entry n) n.slot i no_slot ([], []) h)

find-position :
    (es : Records) (key : List ℕ) (r : ℕ × Bool)
    → IsPosition (key_of es) (length es) key r
    → find es key ≡ (if r.1 then some (get_or es r.0 ([], [])).1 else none)
find-position es key (pos, true) p = let (h, e) = p.equal refl in find-at es key pos h e p.below
find-position es key (pos, false) p = find-none es key (λ i q e. elim (Bool-cases (ltb i pos)) [
  | inl b ↦ cc (p.below i (ground (arith, b)), e)
  | inr b ↦ cc (p.above i (ground (arith, b)) q refl, lex_eq (key_of es i) key e, lex_refl key)
])

payload_at :
    (n : Node) (r : ℕ × Bool)
    → (r.1 ≡ true → r.0 < count n)
    → Option.map (λ pos. (slot_at n pos).payload) (if r.1 then some r.0 else none)
      ≡ (if r.1 then some (get_or (entries n) r.0 ([], [])).1 else none)
payload_at n (pos, true) h = ap some (sym (payload_of-entries n pos (h refl)))
payload_at n (pos, false) h = refl

-- `lookup` finds in a leaf in order what its records hold.
pub lookup_leaf-find :
    (n : Node) (key : List ℕ)
    → IsOrdered n
    → HintsMatch n
    → AreBytes key
    → lookup_leaf n key ≡ find (entries n) key
unfolding lookup_leaf
lookup_leaf-find n key o h hk =
    let p = lower_bound-records n key o h hk in
    rw
      (
        lower_bound_exact-lower_bound n (IsOrdered-IsSearchable n o h) key hk,
        find-position (entries n) key (lower_bound n key) p,
      )
      (payload_at n (lower_bound n key)
        (λ e. omega (arith, (p.equal e).0, length-map (entry n) n.slot)))
