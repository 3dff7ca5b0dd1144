-- ===== src/Linear/Page.antt =====
-- backend/leanstore/storage/hashing/LinearHashing.hpp and LinearHashing.cpp: `LinearHashingNode`. A slot carries
-- the bytes that the page holds at its offset; `count` is the length of the list of slots. The page that
-- `overflow` leads to is the next one of a list of pages.
use tree.Prelude.{
  ℕ, suc, ◌+◌, ◌*◌, ◌%◌, ◌^◌, ◌==◌, ◌||◌, ◌&&◌, Bool, true, false, not, Option, none, some, is_some,
  List, [], ◌∷◌, ◌++◌, if◌then◌else◌, leb, length, get_or, take, remove_at, modify_at, add16, sub16,
  Run, ok, check, ◌>>◌,
}

-- `EFFECTIVE_PAGE_SIZE` and the offset of the field `slot`.
pub record Geometry : Type 0 where
  pub page_bytes : ℕ
  pub slots_offset : ℕ

-- `sizeof(Slot)`
abbrev pub slot_bytes : ℕ
slot_bytes = 8

pub record Slot : Type 0 where
  pub fingerprint : ℕ
  pub key : List ℕ
  pub payload : List ℕ

pub record Page : Type 0 where
  pub slots : List Slot
  pub space_used : ℕ
  pub data_offset : ℕ
  pub bucket : ℕ
  pub is_overflow : Bool

abbrev pub no_slot : Slot
no_slot = record { fingerprint = 0; key = []; payload = [] }

abbrev pub slot_at : Page → ℕ → Slot
slot_at p i = get_or p.slots i no_slot

-- `getKeyLen(i) + getPayloadLength(i)`
abbrev pub heap_bytes : Slot → ℕ
heap_bytes s = length s.key + length s.payload

-- What `memcmp` tells of two keys of one length.
abbrev pub same_bytes : List ℕ → List ℕ → Bool
same_bytes [] [] = true
same_bytes [] (b ∷ l) = false
same_bytes (a ∷ m) [] = false
same_bytes (a ∷ m) (b ∷ l) = (a == b) && same_bytes m l

unfoldable pub cmp_keys : List ℕ → List ℕ → Bool
cmp_keys a b = if not (length a == length b) then false else same_bytes a b

-- `fingerprint` is the function of that name, which reads XXH.
unfoldable pub find_from : (List ℕ → ℕ) → ℕ → List Slot → List ℕ → Option ℕ
unfolding cmp_keys
find_from fingerprint i [] key = none
find_from fingerprint i (s ∷ ss) key =
    let rest = find_from fingerprint (suc i) ss key in
    if s.fingerprint == fingerprint key then (if cmp_keys key s.key then some i else rest) else rest

unfoldable pub find : (List ℕ → ℕ) → Page → List ℕ → Option ℕ
unfolding find_from
find fingerprint p key = find_from fingerprint 0 p.slots key

unfoldable pub remove_slot : Page → ℕ → Page
remove_slot p i = record p {
  space_used = sub16 p.space_used (heap_bytes (slot_at p i));
  slots = remove_at i p.slots;
}

unfoldable pub update : Page → ℕ → List ℕ → List ℕ → Run Page
update p i key payload =
    check (length key == length (slot_at p i).key)
    >> (check (length payload == length (slot_at p i).payload)
        >> (check (same_bytes key (slot_at p i).key)
            >> ok (record p { slots = modify_at i (λ s. record s { payload = payload }) p.slots })))

module _ (G : Geometry) where
  -- The constructor.
  unfoldable pub new_page : Bool → ℕ → Page
  new_page overflow bucket = record {
    slots = [];
    space_used = 0;
    data_offset = G.page_bytes;
    bucket = bucket;
    is_overflow = overflow;
  }

  -- `reinterpret_cast<u8*>(slot + count) - ptr()`
  abbrev pub slots_end : Page → ℕ
  slots_end p = G.slots_offset + slot_bytes * length p.slots

  unfoldable pub free_space : Page → ℕ
  free_space p = sub16 p.data_offset (slots_end p)

  unfoldable pub free_space_after_compaction : Page → ℕ
  free_space_after_compaction p = sub16 (sub16 G.page_bytes (slots_end p)) p.space_used

  unfoldable pub space_used_for_data : Page → ℕ
  space_used_for_data p = add16 (slots_end p) p.space_used

  unfoldable pub has_enough_space_for : Page → ℕ → Bool
  unfolding free_space free_space_after_compaction
  has_enough_space_for p needed =
      leb needed (free_space p) || leb needed (free_space_after_compaction p)

  unfoldable pub space_needed : ℕ → ℕ → ℕ
  space_needed key_len payload_len = add16 (add16 slot_bytes key_len) payload_len

  unfoldable pub can_insert : Page → ℕ → ℕ → Bool
  unfolding has_enough_space_for space_needed
  can_insert p key_len payload_len = has_enough_space_for p (space_needed key_len payload_len)

  -- A round of the loop of `copyKeyValueRange`.
  unfoldable pub copy_key_value : Page → Slot → Page
  copy_key_value dst s = record dst {
    slots = dst.slots ++ (s ∷ []);
    data_offset = sub16 dst.data_offset (heap_bytes s);
    space_used = add16 dst.space_used (heap_bytes s);
  }

  -- The slots go behind those of `dst`.
  unfoldable pub copy_key_value_range : Page → List Slot → Page
  unfolding copy_key_value
  copy_key_value_range dst [] = dst
  copy_key_value_range dst (s ∷ ss) = copy_key_value_range (copy_key_value dst s) ss

  unfoldable pub compactify : Page → Page
  unfolding copy_key_value_range new_page
  compactify p = copy_key_value_range (new_page p.is_overflow p.bucket) p.slots

  unfoldable pub request_space_for : Page → ℕ → Bool × Page
  unfolding free_space free_space_after_compaction compactify
  request_space_for p needed =
      if leb needed (free_space p)
      then (true, p)
      else if leb needed (free_space_after_compaction p)
      then (true, compactify p)
      else (false, p)

  -- The field of the length of a payload has 15 bits.
  unfoldable pub store_key_value : (List ℕ → ℕ) → Page → List ℕ → List ℕ → Page
  store_key_value fingerprint p key payload =
      let space = add16 (length key) (length payload) in
      record p {
        slots =
            p.slots
            ++ (record {
              fingerprint = fingerprint key;
              key = key;
              payload = take (length payload % 2 ^ 15) payload;
            }
                ∷ []);
        data_offset = sub16 p.data_offset space;
        space_used = add16 p.space_used space;
      }

  -- With the assertions of its first block, which a build with `DEBUG_BLOCK` makes.
  unfoldable pub insert : (List ℕ → ℕ) → Page → List ℕ → List ℕ → Run Page
  unfolding can_insert find request_space_for space_needed store_key_value
  insert fingerprint p key payload =
      let r = request_space_for p (space_needed (length key) (length payload)) in
      check (can_insert p (length key) (length payload))
      >> (check (not (is_some (find fingerprint p key)))
          >> (check r.0 >> ok (store_key_value fingerprint r.1 key payload)))
