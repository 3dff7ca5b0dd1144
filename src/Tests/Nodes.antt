-- ===== src/Tests/Nodes.antt =====
-- Witnesses for the B-tree node, at a small page.
use tree.Prelude.{
  ℕ, ◌/◌, ◌≡◌, ◌↔◌, true, false, none, List, [], ◌∷◌, arith, refl, length, if◌then◌else◌, insert_at,
  remove_at,
}
use tree.Node.Bytes.{lex, compare_loop, cmp_keys, cmp_keys-lex}
use tree.Node.State.{
  get_fence_key, Layout, Slot, Node, count, can_insert, free_space, free_space_after_compaction,
}
use tree.Node.Store.{common_bytes, fenced_node, compactify, update_hint, hinted_head}
use tree.Node.Search.{lower_bound, search_slots, hint_range, search_loop}
use tree.Node.Hints.{update_hint-HintsMatch}
use tree.Node.Position.{IsPosition}
use tree.Node.Sorted.{key_of}
use tree.Node.Fences.{Between, lower_key, upper_key}
use tree.Node.Records.{entries}
use tree.Node.Valid.{lower_bound-records}
use tree.Node.Compaction.{IsValid, fenced_node-IsValid, compactify_lem}
use tree.Node.Inserting.{insert_lem}
use tree.Node.Removing.{remove_lem}
use tree.Node.Update.{insert, remove, compare_key_with_boundaries, inside}
use tree.Node.Boundaries.{compare_key_with_boundaries-Between}

abbrev pub page : Layout
page = record { page_bytes = 512; slots_offset = 92; slot_bytes = 10 }

-- An empty leaf without fences, and leaves with one and two records.
abbrev pub empty : Node
empty = fenced_node page true none none

pub empty-IsValid : IsValid page empty
empty-IsValid = fenced_node-IsValid page true none none (omega arith) (omega arith) (omega arith)

abbrev pub key_a : List ℕ
key_a = 7 ∷ 1 ∷ 2 ∷ 3 ∷ 9 ∷ []

abbrev pub key_b : List ℕ
key_b = 7 ∷ 1 ∷ 2 ∷ 3 ∷ []

pub empty-Between : (key : List ℕ) → Between (lower_key empty) (upper_key empty) key
unfolding fenced_node get_fence_key
empty-Between key = (tt, tt)

abbrev pub one : Node
one = (insert page empty key_a (5 ∷ [])).1

empty_can : can_insert page empty 5 1 ≡ true
unfolding can_insert fenced_node free_space free_space_after_compaction common_bytes
empty_can = refl

empty_new : (lower_bound empty key_a).1 ≡ false
unfolding lower_bound fenced_node search_slots hint_range search_loop cmp_keys compare_loop
    common_bytes
empty_new = refl

insert_lem_example :
    ((insert page empty key_a (5 ∷ [])).0 ≡ (lower_bound empty key_a).0)
    × (entries one ≡ insert_at (insert page empty key_a (5 ∷ [])).0 (key_a, 5 ∷ []) (entries empty))
    × (lower_key one ≡ lower_key empty)
    × (upper_key one ≡ upper_key empty)
    × IsValid page one
insert_lem_example =
    insert_lem page empty key_a (5 ∷ []) empty-IsValid (omega arith) (empty-Between key_a)
      (omega arith) empty_can empty_new

pub one-IsValid : IsValid page one
one-IsValid =
    (insert_lem page empty key_a (5 ∷ []) empty-IsValid (omega arith) (empty-Between key_a)
      (omega arith) empty_can empty_new).4

lower_bound-records_example :
    IsPosition (key_of (entries one)) (length (entries one)) key_b (lower_bound one key_b)
lower_bound-records_example =
    lower_bound-records one key_b one-IsValid.ordered one-IsValid.hints (omega arith)

cmp_keys-lex_example : cmp_keys key_a key_b ≡ lex key_a key_b
cmp_keys-lex_example = cmp_keys-lex key_a key_b

compactify_lem_example :
    (entries (compactify page one) ≡ entries one)
    × (lower_key (compactify page one) ≡ lower_key one)
    × (upper_key (compactify page one) ≡ upper_key one)
    × IsValid page (compactify page one)
    × (free_space page (compactify page one) ≡ free_space_after_compaction page one)
compactify_lem_example = compactify_lem page one one-IsValid

remove_lem_example :
    ((remove one key_a).0 ≡ (lower_bound one key_a).1)
    × (entries (remove one key_a).1 ≡ (
        if (remove one key_a).0
        then remove_at (lower_bound one key_a).0 (entries one)
        else entries one))
    × (lower_key (remove one key_a).1 ≡ lower_key one)
    × (upper_key (remove one key_a).1 ≡ upper_key one)
    × IsValid page (remove one key_a).1
remove_lem_example = remove_lem page one key_a one-IsValid (omega arith)

abbrev new_slot : Slot
new_slot = record { offset = 500; key = key_b; payload = []; head = 7 }

update_hint-HintsMatch_example :
    (update_hint (record one { slot = insert_at 0 new_slot one.slot }) 0).hint 3
    ≡ hinted_head
        (update_hint (record one { slot = insert_at 0 new_slot one.slot }) 0)
        (count (update_hint (record one { slot = insert_at 0 new_slot one.slot }) 0) / 17)
        3
update_hint-HintsMatch_example =
    update_hint-HintsMatch one 0 new_slot one-IsValid.hints (omega arith) 3 (omega arith)

compare_key_with_boundaries-Between_example :
    (compare_key_with_boundaries one key_b ≡ inside) ↔ Between (lower_key one) (upper_key one) key_b
compare_key_with_boundaries-Between_example = compare_key_with_boundaries-Between one key_b
