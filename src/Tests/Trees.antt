-- ===== src/Tests/Trees.antt =====
-- Witnesses for the two-tree adapter, over sorted lists.
use tree.Prelude.{
  ℕ, ◌≡◌, ◌≢◌, refl, Bool, true, false, none, some, List, [], ◌∷◌, arith, ok, fault, ◌>>=◌,
}
use tree.Index.{Index}
use tree.Index.Sorted.{SortedTree, sorted_index}
use tree.TwoTree.Record.{HotRecord, TaggedPayload, tagged, delete_mark, modified}
use tree.TwoTree.State.{TwoTree, Config, Draws, should_migrate, cache_under_pressure_soft}
use tree.TwoTree.Access.{Round, lookup_rounds, insert_locked, remove, update_locked, put_locked}
use tree.TwoTree.Evict.{Locks, choose_range, evict_one, evict_a_bunch}
use tree.TwoTree.View.{view, Fits, Same, Wrote}
use tree.TwoTree.Answers.{lookup_rounds-view, answer}
use tree.TwoTree.Writes.{insert-Wrote, remove-Wrote, put-Wrote, update-Wrote}
use tree.TwoTree.LostUpdates.{update_lost, update_forgotten, insert-remove, evict_a_bunch_mark}

abbrev pub H : ℕ → Index (HotRecord ℕ)
H room = sorted_index (HotRecord ℕ) room

abbrev pub C : Index ℕ
C = sorted_index ℕ 100

abbrev config : Bool → Config
config inclusive = record {
  hot_partition_capacity_bytes = 100;
  soft_capacity_bytes = 97;
  inclusive = inclusive;
  lazy_migration = false;
  lazy_migration_threshold = 10;
  key_bytes = 8;
  tagged_bytes = 9;
}

-- A hot tree with room for `room` records over a cold tree.
abbrev pub state :
    (inclusive : Bool) (room : ℕ) → SortedTree (HotRecord ℕ) → SortedTree ℕ → TwoTree (H room) C
state inclusive room hot cold = record {
  config = config inclusive;
  hot = hot;
  cold = cold;
  clock_hand = 0;
  eviction_round = 0;
  eviction_round_ref_counter = (0, 0);
  hot_partition_item_count = 0;
  hot_partition_size_bytes = 0;
  upward_migrations = 0;
  failed_upward_migrations = 0;
  downward_migrations = 0;
  eviction_items = 0;
  total_lookups = 0;
  lookups_hit_top = 0;
}

-- Key 3 shows 30 in the hot tree, key 5 shows 50 in the cold tree.
abbrev hot₃ : SortedTree (HotRecord ℕ)
hot₃ = record {
  entries = (3, tagged (record { payload = 30; bits = 1 })) ∷ [];
  sorted = omega arith;
}

abbrev cold₅ : SortedTree ℕ
cold₅ = record { entries = (5, 50) ∷ []; sorted = omega arith }

abbrev both : TwoTree (H 9) C
both = state false 9 hot₃ cold₅

both-Fits : (j : ℕ) → Fits both j
unfolding modified
both-Fits j = record { single = λ tp. ground arith; backed = λ tp. ground arith }

abbrev roomy : Draws
roomy = record { soft_pages = 0; hard_pages = 0; migrate_roll = 0; admit_roll = 0 }

abbrev free : Locks
free = record { read_lock = λ _. some 0; write_lock = λ _. some false }

unmarked : (j : ℕ) → (H 9).lookup both.hot j ≢ some delete_mark
unmarked j = ground arith

abbrev sample : TaggedPayload ℕ
sample = record { payload = 30; bits = 0xE3 }

abbrev once : List Round
once = record { read_ok = true; upgraded = true; valid = true; draws = roomy } ∷ []

lookup_rounds-view_example :
    (b : Bool) × (w : ℕ) × (t : TwoTree (H 9) C) × (lookup_rounds (H 9) C both once 5 0
      ≡ ok (some (b, w), t))
    × (answer b w ≡ view both 5)
    × ((j : ℕ) → Same both t j)
lookup_rounds-view_example = lookup_rounds-view once both 5 0 ((λ _. refl), tt) refl both-Fits

insert-Wrote_example :
    (t : TwoTree (H 9) C) × (insert_locked (H 9) C both 4 40 ≡ ok t)
    × ((j : ℕ) → Wrote both 4 (some 40) j t)
insert-Wrote_example = insert-Wrote both 4 40 refl refl both-Fits

remove-Wrote_example :
    (r : Bool × TwoTree (H 9) C) × (remove (H 9) C both 3 ≡ ok r)
    × ((j : ℕ) → (r.0 ≡ true) × Wrote both 3 none j r.1)
remove-Wrote_example = remove-Wrote both 3 both-Fits

put-Wrote_example :
    (t : TwoTree (H 9) C) × (put_locked (H 9) C both 5 51 ≡ ok t)
    × ((j : ℕ) → Wrote both 5 (some 51) j t)
put-Wrote_example = put-Wrote both 5 51 (unmarked 5) (λ _ _ e. cc) both-Fits

update-Wrote_example :
    (t : TwoTree (H 9) C) × (update_locked (H 9) C both roomy 5 51 ≡ ok t)
    × ((j : ℕ) → Wrote both 5 (some 51) j t)
unfolding cache_under_pressure_soft
update-Wrote_example = update-Wrote both roomy 5 51 50 refl (λ _ _. refl) both-Fits

abbrev pressed : Draws
pressed = record roomy { soft_pages = 1 }

abbrev full : TwoTree (H 1) C
full = state false 1 hot₃ cold₅

update_lost_example :
    (t : TwoTree (H 1) C) × (update_locked (H 1) C full pressed 5 51 ≡ ok t)
    × ((j : ℕ) → view t j ≡ view full j)
unfolding should_migrate cache_under_pressure_soft
update_lost_example = update_lost full pressed 5 51 50 refl refl refl refl refl

abbrev inclusive₅ : TwoTree (H 9) C
inclusive₅ = state true 9 (record { entries = []; sorted = tt }) cold₅

update_forgotten_example :
    (t : TwoTree (H 9) C) × (update_locked (H 9) C inclusive₅ pressed 5 51 ≡ ok t)
    × (view t 5 ≡ some 51)
    × (u : TwoTree (H 9) C) × (evict_one
          (H 9)
          C
          t
          (record { key = 5; copy = sample; lock_version = 0 })
          true
        ≡ ok u)
    × (view u 5 ≡ some 50)
unfolding should_migrate cache_under_pressure_soft
update_forgotten_example =
    update_forgotten inclusive₅ pressed 5 51 50 refl refl refl refl refl refl sample 0

insert-remove_example : (remove (H 9) C both 5 >>= λ r. insert_locked (H 9) C r.1 5 55) ≡ fault
insert-remove_example = insert-remove both 5 55

abbrev marked : TwoTree (H 9) C
marked = state false 9 (record { entries = (3, delete_mark) ∷ []; sorted = omega arith }) cold₅

evict_a_bunch_mark_example : evict_a_bunch (H 9) C marked free ≡ fault
unfolding choose_range
evict_a_bunch_mark_example =
    evict_a_bunch_mark marked
      (record marked { eviction_round = 1; eviction_round_ref_counter = (1, 0) }) free 3 3 0 refl
      refl (omega arith) (omega arith)
