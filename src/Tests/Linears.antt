-- ===== src/Tests/Linears.antt =====
-- Witnesses for linear hashing, from a new table with pages of 4096 bytes.
use tree.Prelude.{
  ℕ, ◌<◌, ◌≡◌, true, false, Option, none, some, List, [], ◌∷◌, if◌then◌else◌, length, arith, refl,
  ◌∙◌, Run, ok, fault, update, either_if, ltb, if_false, is_some, ==→eq, ◌==◌,
}
use tree.Linear.Apart.{Distinct}
use tree.Linear.Search.{find_record}
use tree.Linear.Page.{Geometry, Page, same_bytes, new_page}
use tree.Linear.Fitting.{Fits}
use tree.Linear.Placing.{records, All}
use tree.Linear.Table.{Functions, Table, create}
use tree.Linear.Access.{lookup}
use tree.Linear.Valid.{IsDistinct, Valid, view, PlacedAt}
use tree.Linear.Roomy.{create-Valid}
use tree.Linear.Cutting.{without}
use tree.Linear.Remove.{remove}
use tree.Linear.Removing.{remove-lookup, remove-IsDistinct}
use tree.Linear.Addressing.{address}

abbrev pages : Geometry
pages = record { page_bytes = 4096; slots_offset = 32 }

abbrev first_byte : List ℕ → ℕ
first_byte [] = 0
first_byte (b ∷ l) = b

-- Any load asks for a split.
abbrev functions : Functions
functions = record {
  fingerprint = length;
  hash_func = first_byte;
  over_load = λ stored buckets. true;
}

-- Two records of bucket 0, the second of which goes to bucket 128.
abbrev page : Page
page = record {
  slots =
      record { fingerprint = 1; key = 0 ∷ []; payload = 40 ∷ [] }
      ∷ record { fingerprint = 1; key = 128 ∷ []; payload = 50 ∷ [] }
      ∷ [];
  space_used = 4;
  data_offset = 4092;
  bucket = 0;
  is_overflow = false;
}

abbrev table : Table
table = record (create pages) { chain = update (create pages).chain 0 (page ∷ []) }

page-Fits : Fits pages page
page-Fits = record { used = refl; apart = omega arith; within = omega arith }

valid : Valid pages functions 0 128 table
unfolding create
valid =
    let new = create-Valid pages functions (omega arith) in
    record {
      sorted = record {
        placed = λ c.
            either_if (λ ps. All (PlacedAt pages functions 0 128 c) (records ps)) (0 == c)
              (page ∷ []) _
              (λ e. (
                record {
                  whole = record { fingerprint = refl; fits = omega arith };
                  place = ==→eq 0 c e;
                },
                (
                  record {
                    whole = record { fingerprint = refl; fits = omega arith };
                    place = ==→eq 0 c e;
                  },
                  tt,
                ),
              ))
              (λ e. new.sorted.placed c);
        fits = λ c.
            either_if (All (Fits pages)) (0 == c) (page ∷ []) _ (λ e. (page-Fits, tt))
              (λ e. new.sorted.fits c);
        present = λ c h.
            either_if (λ (ps : List Page). 0 < length ps) (0 == c) (page ∷ []) _ (λ e. omega arith)
              (λ e. new.sorted.present c h);
        absent = λ c h. if_false (0 == c) (page ∷ []) _ (ground (arith, h)) ∙ new.sorted.absent c h;
      };
      word = refl;
      low = omega arith;
      high = omega arith;
      started = refl;
      finished = refl;
      target = refl;
    }

distinct : IsDistinct table
unfolding create new_page
distinct c =
    either_if (λ ps. Distinct (records ps)) (0 == c) (page ∷ []) _ (λ e. (refl, (refl, tt)))
      (λ e. either_if (λ ps. Distinct (records ps)) (ltb c 128) _ [] (λ _. tt) (λ _. tt))

-- The pages of bucket 0 in what a run leaves.
abbrev bucket_0 : Run (Option Table) → List Page
bucket_0 fault = []
bucket_0 (ok none) = []
bucket_0 (ok (some t)) = t.chain 0

-- The record is found, the merge that its page asks for finds no neighbour.
remove-lookup_example :
    (t' : Table) × (remove pages functions table (0 ∷ [])
      ≡ ok (some (is_some (view functions 0 128 table (0 ∷ [])), t')))
    × Valid pages functions 0 128 t'
    × ((k : List ℕ)
        → lookup pages functions t' k
          ≡ ok (
              some (
                if same_bytes k (0 ∷ [])
                then find_record
                    (0 ∷ [])
                    (without (0 ∷ []) (records (table.chain (address functions 0 128 (0 ∷ [])))))
                else view functions 0 128 table k)))
remove-lookup_example =
    remove-lookup pages functions 0 128 table (0 ∷ []) (omega arith) (omega arith) valid

remove-IsDistinct_example :
    (t' : Table) × (remove pages functions table (0 ∷ [])
      ≡ ok (some (is_some (view functions 0 128 table (0 ∷ [])), t')))
    × Valid pages functions 0 128 t'
    × IsDistinct t'
    × (lookup pages functions t' (0 ∷ []) ≡ ok (some none))
remove-IsDistinct_example =
    remove-IsDistinct pages functions 0 128 table (0 ∷ []) (omega arith) (omega arith) valid
      distinct
