-- ===== src/Linear/Fitting.antt =====
-- backend/leanstore/storage/hashing/LinearHashing.cpp: the space of a page, and what a copy or an insertion makes
-- of it.
use tree.Prelude.{
  not, none, is_some, check-true, ℕ, ◌+◌, ◌*◌, ◌%◌, ◌^◌, ◌<◌, ◌≤◌, ◌≡◌, Bool, true, List, [], ◌∷◌,
  ◌++◌, leb, length, length-append, take, take_all, arith, refl, sym, ap, subst, ◌∙◌, add16, sub16,
  Run, ok, check, ◌>>◌, inl, inr, Bool-cases, if_true, if_false,
}
use mathlib.Core.List.{append-nil, append_assoc}
use tree.Linear.Search.{find_record, find_from-none}
use tree.Linear.Page.{
  find, Geometry, Slot, Page, heap_bytes, new_page, slots_end, free_space,
  free_space_after_compaction, has_enough_space_for, space_needed, can_insert, copy_key_value,
  copy_key_value_range, compactify, request_space_for, store_key_value, insert, slot_bytes,
}

abbrev pub heap_sum : List Slot → ℕ
heap_sum [] = 0
heap_sum (s ∷ ss) = heap_bytes s + heap_sum ss

pub heap_sum-append : (l m : List Slot) → heap_sum (l ++ m) ≡ heap_sum l + heap_sum m
heap_sum-append [] m = omega arith
heap_sum-append (s ∷ l) m = omega (arith, heap_sum-append l m)

module _ (G : Geometry) where
  -- What the header, the slots and the records take.
  abbrev pub fill : List Slot → ℕ
  fill l = G.slots_offset + slot_bytes * length l + heap_sum l

  -- The counters of a page tell the room that its slots take.
  pub record Fits (p : Page) : Type 0 where
    pub used : p.space_used ≡ heap_sum p.slots
    pub apart : slots_end G p ≤ p.data_offset
    pub within : p.data_offset + heap_sum p.slots ≤ G.page_bytes

  pub can_insert-fill :
      (p : Page) (k v : ℕ)
      → G.page_bytes < 2 ^ 15
      → Fits p
      → 8 + k + v < 2 ^ 16
      → can_insert G p k v ≡ leb (fill p.slots + 8 + k + v) G.page_bytes
  unfolding can_insert has_enough_space_for free_space free_space_after_compaction space_needed
  can_insert-fill p k v small f n = ground (arith, small, f.used, f.apart, f.within, n)

  pub new_page-Fits : (o : Bool) (b : ℕ) → G.slots_offset ≤ G.page_bytes → Fits (new_page G o b)
  unfolding new_page
  new_page-Fits o b h = record { used = refl; apart = omega (arith, h); within = omega arith }

  -- What a copy of slots behind those of a page gives.
  pub record Copied (p : Page) (l : List Slot) (q : Page) : Type 0 where
    pub slots : q.slots ≡ p.slots ++ l
    pub fits : Fits q
    pub offset : q.data_offset + heap_sum l ≡ p.data_offset
    pub overflow : q.is_overflow ≡ p.is_overflow
    pub bucket : q.bucket ≡ p.bucket

  copy-Fits :
      (p : Page) (s : Slot)
      → G.page_bytes < 2 ^ 15
      → Fits p
      → slots_end G p + 8 + heap_bytes s ≤ p.data_offset
      → Fits (copy_key_value G p s)
  unfolding copy_key_value
  copy-Fits p s small f h = record {
    used = ground (arith, f.used, f.within, h, small, heap_sum-append p.slots (s ∷ []));
    apart = ground (arith, f.within, h, small, length-append p.slots (s ∷ []));
    within = ground (arith, f.within, h, small, heap_sum-append p.slots (s ∷ []));
  }

  pub copy_lem :
      (p : Page) (l : List Slot)
      → G.page_bytes < 2 ^ 15
      → Fits p
      → slots_end G p + 8 * length l + heap_sum l ≤ p.data_offset
      → Copied p l (copy_key_value_range G p l)
  unfolding copy_key_value_range copy_key_value
  copy_lem p [] small f h = record {
    slots = sym (append-nil p.slots);
    fits = f;
    offset = omega arith;
    overflow = refl;
    bucket = refl;
  }
  copy_lem p (s ∷ l) small f h =
      let q = copy_key_value G p s in
      let room : slots_end G p + 8 + heap_bytes s ≤ p.data_offset = omega (arith, h) in
      let left : q.data_offset + heap_bytes s ≡ p.data_offset =
        ground (arith, h, small, f.within) in
      let c =
        copy_lem q l small (copy-Fits p s small f room)
          (omega (arith, h, left, length-append p.slots (s ∷ []))) in
      record {
        slots = c.slots ∙ append_assoc p.slots (s ∷ []) l;
        fits = c.fits;
        offset = omega (arith, c.offset, left);
        overflow = c.overflow;
        bucket = c.bucket;
      }

  pub compactify_lem :
      (p : Page)
      → G.page_bytes < 2 ^ 15
      → Fits p
      → Copied (new_page G p.is_overflow p.bucket) p.slots (compactify G p)
  unfolding compactify new_page
  compactify_lem p small f =
      copy_lem (new_page G p.is_overflow p.bucket) p.slots small
        (new_page-Fits p.is_overflow p.bucket (omega (arith, f.apart, f.within)))
        (omega (arith, f.apart, f.within))

  -- The slot of a record.
  abbrev pub new_slot : (List ℕ → ℕ) → List ℕ → List ℕ → Slot
  new_slot fingerprint key payload = record {
    fingerprint = fingerprint key;
    key = key;
    payload = payload;
  }

  pub record Inserted (p : Page) (s : Slot) (q : Page) : Type 0 where
    pub slots : q.slots ≡ p.slots ++ (s ∷ [])
    pub fits : Fits q
    pub overflow : q.is_overflow ≡ p.is_overflow
    pub bucket : q.bucket ≡ p.bucket

  store-copy :
      (F : List ℕ → ℕ) (p : Page) (key payload : List ℕ)
      → length key + length payload < 2 ^ 15
      → store_key_value G F p key payload ≡ copy_key_value G p (new_slot F key payload)
  unfolding store_key_value copy_key_value
  store-copy F p key payload h =
      let s = new_slot F key payload in
      let space : add16 (length key) (length payload) ≡ length key + length payload =
        omega (arith, h) in
      let fit : length payload % 2 ^ 15 ≡ length payload = omega (arith, h) in
      let whole : take (length payload % 2 ^ 15) payload ≡ payload =
        ap (λ n. take n payload) fit ∙ take_all payload in
      ap
        (λ l. record p {
          slots = p.slots ++ (record s { payload = l } ∷ []);
          data_offset = sub16 p.data_offset (add16 (length key) (length payload));
          space_used = add16 p.space_used (add16 (length key) (length payload));
        })
        whole
      ∙ ap
          (λ n. record p {
            slots = p.slots ++ (s ∷ []);
            data_offset = sub16 p.data_offset n;
            space_used = add16 p.space_used n;
          })
          space

  store_lem :
      (F : List ℕ → ℕ) (p : Page) (key payload : List ℕ)
      → G.page_bytes < 2 ^ 15
      → Fits p
      → slots_end G p + 8 + length key + length payload ≤ p.data_offset
      → Inserted p (new_slot F key payload) (store_key_value G F p key payload)
  unfolding copy_key_value
  store_lem F p key payload small f h =
      subst (Inserted p (new_slot F key payload))
        (sym (store-copy F p key payload (omega (arith, h, small, f.within))))
        (record {
          slots = refl;
          fits = copy-Fits p (new_slot F key payload) small f (omega (arith, h));
          overflow = refl;
          bucket = refl;
        })

  -- A page with room for a record takes it, after a compaction if it must.
  pub insert_lem :
      (F : List ℕ → ℕ) (p : Page) (key payload : List ℕ)
      → G.page_bytes < 2 ^ 15
      → Fits p
      → fill p.slots + 8 + length key + length payload ≤ G.page_bytes
      → find_record key p.slots ≡ none
      → (q : Page) × (insert G F p key payload ≡ ok q) × Inserted p (new_slot F key payload) q
  unfolding insert find request_space_for free_space free_space_after_compaction space_needed
  insert_lem F p key payload small f h absent =
      let can = can_insert G p (length key) (length payload) in
      let room_told : can ≡ true =
        can_insert-fill p (length key) (length payload) small f (omega (arith, h, small))
        ∙ ground (arith, h) in
      let new : not (is_some (find F p key)) ≡ true =
        ap (λ o. not (is_some o)) (find_from-none F 0 p.slots key absent) in
      let n = space_needed G (length key) (length payload) in
      let put : Bool × Page → Run Page =
        λ r. check r.0 >> ok (store_key_value G F r.1 key payload) in
      let asserted : insert G F p key payload ≡ put (request_space_for G p n) =
        check-true can (check (not (is_some (find F p key))) >> put (request_space_for G p n))
          room_told
        ∙ check-true (not (is_some (find F p key))) (put (request_space_for G p n)) new in
      elim (Bool-cases (leb n (free_space G p))) [
        | inl e ↦ (
          store_key_value G F p key payload,
          asserted ∙ ap put (if_true _ (true, p) _ e),
          store_lem F p key payload small f (ground (arith, e, h, small, f.apart, f.within)),
        )
        | inr e ↦
            let room : leb n (free_space_after_compaction G p) ≡ true =
              ground (arith, h, small, f.used, f.within, f.apart) in
            let c = compactify_lem p small f in
            let t =
              store_lem F (compactify G p) key payload small c.fits
                (omega (arith, h, c.offset, ap length c.slots)) in
            (
              store_key_value G F (compactify G p) key payload,
              asserted
                  ∙ ap put (if_false _ (true, p) _ e ∙ if_true _ (true, compactify G p) _ room),
              record {
                slots = t.slots ∙ ap (λ l. l ++ (new_slot F key payload ∷ [])) c.slots;
                fits = t.fits;
                overflow = t.overflow ∙ c.overflow;
                bucket = t.bucket ∙ c.bucket;
              },
            )
      ]
