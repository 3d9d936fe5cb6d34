-- ===== src/Cache/Requests.antt =====
-- `get_or_create_image_buffer` and the releases of mlvfs/resource_manager.c: what a request
-- returns, what it leaves in the cache, and the invariant that every call keeps.
use mlvfs.Base.{
  ℕ, ◌+◌, ◌≤◌, ◌≡◌, refl, ap, sym, ◌∙◌, inl, inr, Bool, true, false, Option, none, some, [], ◌∷◌,
  ◌++◌, length, arith, Bytes, Option-cases,
}
use mlvfs.Cache.{
  Frame, ImageBuffer, Cache, Allocation, empty_frame, get_image_buffer, new_image_buffer, update,
  mark, find_or_create, fill, fill_if_empty, get_or_create_image_buffer,
}
use mlvfs.Cache.Cleanup.{Ascending, kept, Inv, image_buffer_cleanup_lem}
use mlvfs.Cache.Update.{Distinct, update-Ascending, length-update, update-Distinct, update-append}

-- The cache between two requests: the count is right, at most seventeen buffers are held, and
-- no two have one address or one name.
pub record IsValid (c : Cache) : Type 0 where
  pub inv : Inv c
  pub bounded : length c.image_buffers ≤ 17
  pub distinct : Distinct c.image_buffers

abbrev pub written : ℕ → (ImageBuffer → ImageBuffer) → Cache → Cache
written a f c = record c { image_buffers = update a f c.image_buffers }

pub written-IsValid :
    (f : ImageBuffer → ImageBuffer) (a : ℕ) (c : Cache)
    → ((b : ImageBuffer) → (f b).dng_filename ≡ b.dng_filename)
    → ((b : ImageBuffer) → (f b).address ≡ b.address)
    → IsValid c
    → IsValid (written a f c)
written-IsValid f a c n d v = record {
  inv = record {
    counted = v.inv.counted ∙ sym (length-update f n d a c.image_buffers);
    ascending = update-Ascending f n d a 0 c.next_address c.image_buffers v.inv.ascending;
  };
  bounded = omega (arith, length-update f n d a c.image_buffers, v.bounded);
  distinct = update-Distinct f n d a c.image_buffers v.distinct;
}

-- The buffer that a request for a new name creates, before and after the callback.
abbrev pub fresh : Bytes → Cache → ImageBuffer
fresh path c = record {
  address = c.next_address;
  dng_filename = path;
  frame = empty_frame;
  in_use = true;
}

abbrev pub extended : Bytes → Cache → ImageBuffer → Cache
extended path c b = record {
  image_buffers = kept c.image_buffers ++ b ∷ [];
  image_buffer_count = length (kept c.image_buffers) + 1;
  next_address = c.next_address + 1;
}

-- What a request returns and leaves, by cases. A hit returns the buffer, filled if its image, the
-- last argument, is missing; a miss appends a filled buffer behind what the cleanup keeps.
abbrev pub answer_hit :
    (Bytes → Frame → Frame) → ImageBuffer → Cache → Option Bytes → ImageBuffer × Bool × Cache
answer_hit cbr b c (some d) = (b, false, c)
answer_hit cbr b c none = (fill cbr b, false, written b.address (fill cbr) c)

abbrev pub answer :
    (Bytes → Frame → Frame) → Bytes → Cache → Option ImageBuffer → ImageBuffer × Bool × Cache
answer cbr path c none = (fill cbr (fresh path c), true, extended path c (fill cbr (fresh path c)))
answer cbr path c (some b) = answer_hit cbr b c b.frame.image_data

abbrev pub had : Allocation
had = record { node = true; filename = true }

module _ (path : Bytes) (c : Cache) (v : IsValid c) where
  new_image_buffer_lem :
      new_image_buffer had path c
      ≡ some (mark false (fresh path c), extended path c (mark false (fresh path c)))
  unfolding new_image_buffer
  new_image_buffer_lem =
      let (l, n, i) = image_buffer_cleanup_lem c v.inv in ground (arith, i.counted, ap length l)

  find_or_create-new :
      get_image_buffer path c.image_buffers ≡ none
      → find_or_create had path c ≡ some (fresh path c, true, extended path c (fresh path c))
  unfolding find_or_create
  find_or_create-new e =
      let (l, n, i) = image_buffer_cleanup_lem c v.inv in
      let a : Ascending 0 (kept c.image_buffers) c.next_address = rw (l, n) at i.ascending in
      let u =
        update-append (mark true) 0 c.next_address (kept c.image_buffers)
          (mark false (fresh path c)) a refl in
      rw (e, find_or_create, new_image_buffer_lem) (rw u refl)

  find_or_create-old :
      (b : ImageBuffer)
      → get_image_buffer path c.image_buffers ≡ some b
      → find_or_create had path c ≡ some (b, false, c)
  unfolding find_or_create
  find_or_create-old b e = rw (e, find_or_create)

  module _ (cbr : Bytes → Frame → Frame) where
    answer-old : (b : ImageBuffer) → fill_if_empty cbr (b, false, c) ≡ answer cbr path c (some b)
    unfolding fill_if_empty
    answer-old b = ground arith

    answer-new :
        fill_if_empty cbr (fresh path c, true, extended path c (fresh path c))
        ≡ answer cbr path c none
    unfolding fill_if_empty
    answer-new =
        let (l, n, i) = image_buffer_cleanup_lem c v.inv in
        let a : Ascending 0 (kept c.image_buffers) c.next_address = rw (l, n) at i.ascending in
        rw (update-append (fill cbr) 0 c.next_address (kept c.image_buffers) (fresh path c) a refl)

    -- With memory at hand, a request in a valid cache returns the buffer of its path as it is,
    -- or filled by the callback if it has no image; where no buffer has that path, a new one in
    -- use is put behind those that a cleanup keeps, and is returned as the callback fills it.
    pub get_or_create_image_buffer_lem :
        get_or_create_image_buffer had cbr path c
        ≡ some (answer cbr path c (get_image_buffer path c.image_buffers))
    unfolding get_or_create_image_buffer
    get_or_create_image_buffer_lem = elim (Option-cases (get_image_buffer path c.image_buffers)) [
      | inl e ↦ rw (e, find_or_create-new e, get_or_create_image_buffer) (ap some answer-new)
      | inr (b, e) ↦
          rw (e, find_or_create-old b e, get_or_create_image_buffer) (ap some (answer-old b))
    ]
