-- ===== src/Linear/Inserting.antt =====
-- backend/leanstore/storage/hashing/LinearHashing.cpp: the branches of `insert`, with the split that may follow.
use tree.Prelude.{
  ℕ, ◌+◌, ◌^◌, ◌<◌, ◌≤◌, ◌≡◌, true, false, none, some, is_some, List, [], ◌∷◌, ◌++◌, if◌then◌else◌,
  leb, length, arith, refl, sym, ap, subst, ◌∙◌, Run, ok, check, check-true, ◌>>=◌, ◌>>◌, inl, inr,
  Bool-cases, either,
}
use mathlib.Core.List.{append_assoc}
use tree.Linear.Apart.{none-parts}
use tree.Linear.Search.{find_record, same_bytes-eq, same_bytes_refl}
use tree.Linear.Page.{Geometry, Slot, Page, same_bytes, find, new_page, can_insert, insert}
use tree.Linear.Fitting.{Fits, fill, can_insert-fill, new_page-Fits, new_slot, insert_lem}
use tree.Linear.Table.{Functions}
use tree.Linear.Placing.{records, All, All-parts, All-append, Whole}
use tree.Linear.Access.{overflow_page, insert_overflow, insert_chain}
use tree.Linear.Answers.{find_from_lem, nowhere, there}

-- A record among others.
pub record Among (s : Slot) (l m : List Slot) : Type 0 where
  pub before : List Slot
  pub behind : List Slot
  pub old : l ≡ before ++ behind
  pub new : m ≡ before ++ (s ∷ behind)

later : (s : Slot) (k l m : List Slot) → Among s l m → Among s (k ++ l) (k ++ m)
later s k l m a = record {
  before = k ++ a.before;
  behind = a.behind;
  old = ap (λ n. k ++ n) a.old ∙ sym (append_assoc k a.before a.behind);
  new = ap (λ n. k ++ n) a.new ∙ sym (append_assoc k a.before (s ∷ a.behind));
}

pub All-middle :
    {A : Type 0} (P : A → Type 0) (x : A) (l m : List A)
    → P x
    → All P (l ++ m)
    → All P (l ++ (x ∷ m))
All-middle P x [] m h a = (h, a)
All-middle P x (y ∷ l) m h a = (a.0, All-middle P x l m h a.1)

pub find_record-middle :
    (key : List ℕ) (s : Slot) (l m : List Slot)
    → find_record s.key (l ++ m) ≡ none
    → find_record key (l ++ (s ∷ m))
      ≡ (if same_bytes key s.key then some s.payload else find_record key (l ++ m))
find_record-middle key s [] m h = refl
find_record-middle key s (x ∷ l) m h = elim (Bool-cases (same_bytes key s.key)) [
  | inl e ↦
      let k = same_bytes-eq key s.key e in
      let other : same_bytes key x.key ≡ false =
        ap (λ k. same_bytes k x.key) k ∙ ground (arith, h) in
      ground (arith, e, other, find_record-middle key s l m (ground (arith, h)))
  | inr e ↦
      let rest : find_record s.key (l ++ m) ≡ none = ground (arith, h) in
      ground (arith, e, find_record-middle key s l m rest)
]

is_some-find_record :
    (s : Slot) (l m : List Slot) → is_some (find_record s.key (l ++ (s ∷ m))) ≡ true
is_some-find_record s [] m = ground (arith, same_bytes_refl s.key)
is_some-find_record s (x ∷ l) m = ground (arith, is_some-find_record s l m)

module _ (G : Geometry) (F : Functions) (small : G.page_bytes < 2 ^ 15) (key payload : List ℕ)
    (fits : G.slots_offset + 8 + length key + length payload ≤ G.page_bytes) where
  abbrev pub slot : Slot
  slot = new_slot G F.fingerprint key payload

  room_for :
      (p : Page)
      → Fits G p
      → can_insert G p (length key) (length payload)
        ≡ leb (fill G p.slots + 8 + length key + length payload) G.page_bytes
  room_for p f =
      can_insert-fill G p (length key) (length payload) small f (omega (arith, fits, small))

  pub overflow_page_lem :
      (bucket : ℕ)
      → (q : Page) × (overflow_page G F bucket key payload ≡ ok q)
        × Fits G q
        × (q.slots ≡ slot ∷ [])
  unfolding overflow_page new_page
  overflow_page_lem bucket =
      let p = new_page G true bucket in
      let f = new_page-Fits G true bucket (omega (arith, fits)) in
      let (q, run, i) =
        insert_lem G F.fingerprint p key payload small f (omega (arith, fits)) refl in
      let room : can_insert G p (length key) (length payload) ≡ true =
        room_for p f ∙ ground (arith, fits) in
      (
        q,
        check-true (can_insert G p (length key) (length payload))
              (insert G F.fingerprint p key payload) room
            ∙ run,
        i.fits,
        i.slots,
      )

  -- What an insertion makes of a chain.
  pub record Stored (ps : List Page) (r : Run (List Page)) : Type 0 where
    pub pages : List Page
    pub run : r ≡ ok pages
    pub all : All (Fits G) pages
    pub some_page : 0 < length pages
    pub among : Among slot (records ps) (records pages)

  -- A page with room takes the record behind its own.
  pub placed_in :
      (p : Page) (ps : List Page)
      → All (Fits G) (p ∷ ps)
      → can_insert G p (length key) (length payload) ≡ true
      → find_record key p.slots ≡ none
      → (q : Page) × (insert G F.fingerprint p key payload ≡ ok q)
        × (q.slots ≡ p.slots ++ (slot ∷ []))
        × All (Fits G) (q ∷ ps)
        × Among slot (records (p ∷ ps)) (records (q ∷ ps))
  placed_in p ps (f, fs) e absent =
      let (q, run, i) =
        insert_lem G F.fingerprint p key payload small f (ground (arith, room_for p f, e)) absent in
      (
        q,
        run,
        i.slots,
        (i.fits, fs),
        record {
          before = p.slots;
          behind = records ps;
          old = refl;
          new = ap (λ m. m ++ records ps) i.slots ∙ append_assoc p.slots (slot ∷ []) (records ps);
        },
      )

  stored_later :
      (p : Page) (ps : List Page) (r : Run (List Page))
      → Fits G p
      → Stored ps r
      → Stored (p ∷ ps) (r >>= λ qs. ok (p ∷ qs))
  stored_later p ps r f t = record {
    pages = p ∷ t.pages;
    run = ap (λ (r : Run (List Page)). r >>= λ qs. ok (p ∷ qs)) t.run;
    all = (f, t.all);
    some_page = omega arith;
    among = later slot p.slots (records ps) (records t.pages) t.among;
  }

  insert_overflow_lem :
      (bucket : ℕ) (ps : List Page)
      → All (Fits G) ps
      → find_record key (records ps) ≡ none
      → Stored ps (insert_overflow G F bucket key payload ps)
  unfolding insert_overflow
  insert_overflow_lem bucket [] h unseen =
      let (q, run, f, s) = overflow_page_lem bucket in
      record {
        pages = q ∷ [];
        run = ap (λ (r : Run Page). r >>= λ q. ok (q ∷ [])) run;
        all = (f, tt);
        some_page = omega arith;
        among = record { before = []; behind = []; old = refl; new = ap (λ m. m ++ []) s };
      }
  insert_overflow_lem bucket (p ∷ ps) h unseen =
      let (here, behind) = none-parts key p.slots (records ps) unseen in
      either (Stored (p ∷ ps)) (can_insert G p (length key) (length payload)) _ _
        (λ e.
          let (q, run, s, f, a) = placed_in p ps h e here in
          record {
            pages = q ∷ ps;
            run = ap (λ (r : Run Page). r >>= λ q. ok (q ∷ ps)) run;
            all = f;
            some_page = omega arith;
            among = a;
          })
        (λ e.
          stored_later p ps (insert_overflow G F bucket key payload ps) h.0
            (insert_overflow_lem bucket ps h.1 behind))

  found_again :
      (p q : Page)
      → All (Whole G F) p.slots
      → q.slots ≡ p.slots ++ (slot ∷ [])
      → is_some (find F.fingerprint q key) ≡ true
  unfolding find
  found_again p q w e =
      let whole : Whole G F slot = record { fingerprint = refl; fits = omega (arith, fits) } in
      let all =
        subst (All (Whole G F)) (sym e)
          (All-append (Whole G F) p.slots (slot ∷ []) w (whole, tt)) in
      let seen : is_some (find_record key q.slots) ≡ true =
        ap (λ l. is_some (find_record key l)) e ∙ is_some-find_record slot p.slots [] in
      elim (find_from_lem G F 0 q.slots key all) [
        | nowhere a r ↦ absurd (ground (arith, seen, r))
        | there n a r ↦ ap is_some a
      ]

  pub insert_chain_lem :
      (bucket : ℕ) (ps : List Page)
      → All (Fits G) ps
      → All (Whole G F) (records ps)
      → find_record key (records ps) ≡ none
      → 0 < length ps
      → Stored ps (insert_chain G F bucket key payload ps)
  unfolding insert_chain
  insert_chain_lem bucket [] h w unseen n = absurd (omega (arith, n))
  insert_chain_lem bucket (p ∷ ps) h w unseen n =
      let (here, behind) = none-parts key p.slots (records ps) unseen in
      either (Stored (p ∷ ps)) (can_insert G p (length key) (length payload)) _ _
        (λ e.
          let (q, run, s, f, a) = placed_in p ps h e here in
          record {
            pages = q ∷ ps;
            run =
                ap
                  (λ (r : Run Page).
                    r >>= λ q. check (is_some (find F.fingerprint q key)) >> ok (q ∷ ps))
                  run
                ∙ check-true (is_some (find F.fingerprint q key)) (ok (q ∷ ps))
                    (found_again p q (All-parts (Whole G F) p.slots (records ps) w).0 s);
            all = f;
            some_page = omega arith;
            among = a;
          })
        (λ e.
          stored_later p ps (insert_overflow G F bucket key payload ps) h.0
            (insert_overflow_lem bucket ps h.1 behind))
