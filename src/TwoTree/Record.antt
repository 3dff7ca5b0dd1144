-- ===== src/TwoTree/Record.antt =====
-- backend/twotree/ConcurrentTwoBTree.hpp: `TaggedPayload`, and the records of the hot tree. The
-- bits are one byte: bit 0 is `modified`, bit 1 is `referenced`, bit 2 is `deleted`, and the top 3
-- bits are a reference count. Each bit operation is written as the arithmetic that it does.
use tree.Prelude.{
  ℕ, ◌+◌, ◌-◌, ◌*◌, ◌/◌, ◌%◌, ◌<◌, ◌==◌, ◌≡◌, Bool, true, false, if◌then◌else◌, arith,
}

pub record TaggedPayload (P : Type 0) : Type 0 where
  pub payload : P
  pub bits : ℕ

-- A record of the hot tree is a tagged payload, or the single byte `kDeletedBits`, told apart by
-- its length.
pub data HotRecord (P : Type 0) : Type 0 where
  tagged : TaggedPayload P → HotRecord P
  delete_mark : HotRecord P

module _ {P : Type 0} where
  unfoldable pub modified : TaggedPayload P → Bool
  modified tp = tp.bits % 2 == 1

  unfoldable pub set_modified : TaggedPayload P → TaggedPayload P
  set_modified tp = record tp { bits = tp.bits / 2 * 2 + 1 }

  unfoldable pub clear_modified : TaggedPayload P → TaggedPayload P
  clear_modified tp = record tp { bits = tp.bits / 2 * 2 }

  unfoldable pub get_reference_count : TaggedPayload P → ℕ
  get_reference_count tp = tp.bits / 32

  -- The shifted count is cut to a byte.
  unfoldable pub set_reference_count : TaggedPayload P → ℕ → TaggedPayload P
  set_reference_count tp count = record tp { bits = tp.bits % 32 + count * 32 % 256 }

  unfoldable pub bump_reference_count : TaggedPayload P → TaggedPayload P
  unfolding get_reference_count set_reference_count
  bump_reference_count tp =
      let old = get_reference_count tp in set_reference_count tp (if old == 7 then 7 else old + 1)

  unfoldable pub dec_reference_count : TaggedPayload P → TaggedPayload P
  unfolding get_reference_count set_reference_count
  dec_reference_count tp =
      let old = get_reference_count tp in set_reference_count tp (if old == 0 then 0 else old - 1)

  unfoldable pub referenced : TaggedPayload P → Bool
  referenced tp = tp.bits / 2 % 2 == 1

  unfoldable pub set_referenced : TaggedPayload P → TaggedPayload P
  set_referenced tp = record tp { bits = tp.bits / 4 * 4 + 2 + tp.bits % 2 }

  unfoldable pub clear_referenced : TaggedPayload P → TaggedPayload P
  clear_referenced tp = record tp { bits = tp.bits / 4 * 4 + tp.bits % 2 }

  unfoldable pub deleted : TaggedPayload P → Bool
  deleted tp = tp.bits / 4 % 2 == 1

  unfoldable pub set_deleted : TaggedPayload P → TaggedPayload P
  set_deleted tp = record tp { bits = tp.bits / 8 * 8 + 4 + tp.bits % 4 }

  unfoldable pub clear_deleted : TaggedPayload P → TaggedPayload P
  clear_deleted tp = record tp { bits = tp.bits / 8 * 8 + tp.bits % 4 }

-- Every flag operation sets its own flag and keeps the others, and a reference count stays within
-- 3 bits, moving by one and stopping at 7 and at 0.
module _ {P : Type 0} (tp : TaggedPayload P) (byte : tp.bits < 256) where
  -- Setting or clearing `modified` or `referenced` has that effect on that flag, keeps the other
  -- flags and the reference count, and leaves a byte. Bumping and decreasing the reference count
  -- moves it by one, saturating at 7 and at 0, and keeps the flags and a byte.
  tag_operations :
      (modified (set_modified tp) ≡ true)
      × (modified (clear_modified tp) ≡ false)
      × (referenced (set_modified tp) ≡ referenced tp)
      × (referenced (set_referenced tp) ≡ true)
      × (referenced (clear_referenced tp) ≡ false)
      × (modified (set_referenced tp) ≡ modified tp)
      × (modified (clear_referenced tp) ≡ modified tp)
      × (deleted (set_deleted tp) ≡ true)
      × (deleted (clear_deleted tp) ≡ false)
      × (get_reference_count (set_referenced (set_modified tp)) ≡ get_reference_count tp)
      × (get_reference_count (bump_reference_count tp)
          ≡ (if get_reference_count tp == 7 then 7 else get_reference_count tp + 1))
      × (get_reference_count (dec_reference_count tp) ≡ get_reference_count tp - 1)
      × (modified (bump_reference_count tp) ≡ modified tp)
      × (modified (dec_reference_count tp) ≡ modified tp)
      × (referenced (bump_reference_count tp) ≡ referenced tp)
      × (referenced (dec_reference_count tp) ≡ referenced tp)
      × ((bump_reference_count tp).bits < 256)
      × ((dec_reference_count tp).bits < 256)
      × ((set_modified (set_referenced tp)).bits < 256)
  unfolding modified set_modified clear_modified referenced set_referenced clear_referenced deleted
      set_deleted clear_deleted get_reference_count bump_reference_count dec_reference_count
  tag_operations = ground arith
