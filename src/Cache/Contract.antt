-- ===== src/Cache/Contract.antt =====
-- One request to the cache of mlvfs/resource_manager.c: what it returns and what it keeps true.
use mlvfs.Base.{
  ◌≤◌, ◌≡◌, refl, ap, ◌∙◌, Bool, Option, none, some, [], ◌∷◌, length, arith, Bytes, subst,
  length-append,
}
use mlvfs.Cache.{
  Frame, ImageBuffer, Cache, empty_frame, get_image_buffer, fill, get_or_create_image_buffer,
}
use mlvfs.Cache.Cleanup.{Ascending, append-Ascending, kept, image_buffer_cleanup_lem}
use mlvfs.Cache.Eviction.{image_buffer_cleanup_bounds}
use mlvfs.Cache.Update.{
  get_image_buffer-name, kept-Distinct, get_image_buffer-kept, append-Distinct,
  get_image_buffer-append, get_image_buffer-update,
}
use mlvfs.Cache.Requests.{
  IsValid, fresh, had, answer, answer_hit, get_or_create_image_buffer_lem, written-IsValid,
}
use mlvfs.Cache.Filled.{Filled, Filled-kept, Filled-append, Filled-update, Filled-get}

-- A callback that leaves no image leaves the same again when it is run on its own result.
abbrev pub Retries : (Bytes → Frame → Frame) → Type 0
Retries cbr =
    (path : Bytes)
    → (cbr path empty_frame).image_data ≡ none
    → cbr path (cbr path empty_frame) ≡ cbr path empty_frame

module _ (cbr : Bytes → Frame → Frame) (retries : Retries cbr) where
  refilled :
      (b : ImageBuffer)
      → b.frame ≡ cbr b.dng_filename empty_frame
      → b.frame.image_data ≡ none
      → (fill cbr b).frame ≡ cbr b.dng_filename empty_frame
  refilled b e h =
      ap (cbr b.dng_filename) e
      ∙ retries b.dng_filename (subst (λ (f : Frame). f.image_data ≡ none) e h)

  module _ (path : Bytes) (c : Cache) (v : IsValid c) where
    answer-new-IsValid :
        get_image_buffer path c.image_buffers ≡ none → IsValid (answer cbr path c none).2
    answer-new-IsValid e =
        let (l, n, i) = image_buffer_cleanup_lem c v.inv in
        let (few, _, _) = image_buffer_cleanup_bounds c v.inv in
        let a : Ascending 0 (kept c.image_buffers) c.next_address = rw (l, n) at i.ascending in
        let few' : length (kept c.image_buffers) ≤ 16 = rw l at few in
        let b = fill cbr (fresh path c) in
        record {
          inv = record {
            counted = omega (arith, length-append (kept c.image_buffers) (b ∷ []));
            ascending = append-Ascending 0 c.next_address (kept c.image_buffers) b a refl;
          };
          bounded = omega (arith, length-append (kept c.image_buffers) (b ∷ []));
          distinct =
              append-Distinct (kept c.image_buffers) b (kept-Distinct c.image_buffers v.distinct)
                (get_image_buffer-kept path c.image_buffers e);
        }

    module _ (b : ImageBuffer) (e : get_image_buffer path c.image_buffers ≡ some b) where
      hit-IsValid : (o : Option Bytes) → IsValid (answer_hit cbr b c o).2
      hit-IsValid none = written-IsValid (fill cbr) b.address c (λ x. refl) (λ x. refl) v
      hit-IsValid (some d) = v

      hit-found :
          (o : Option Bytes)
          → get_image_buffer path (answer_hit cbr b c o).2.image_buffers
            ≡ some (answer_hit cbr b c o).0
      hit-found none =
          get_image_buffer-update (fill cbr) (λ x. refl) (λ x. refl) path 0 c.next_address
            c.image_buffers b v.inv.ascending e
      hit-found (some d) = e

      module _ (f : Filled cbr c.image_buffers) where
        hit-Filled :
            (o : Option Bytes)
            → b.frame.image_data ≡ o
            → Filled cbr (answer_hit cbr b c o).2.image_buffers
        hit-Filled none h =
            Filled-update cbr (fill cbr) path 0 c.next_address c.image_buffers b v.inv.ascending e
              (refilled b (Filled-get cbr path c.image_buffers b f e) h) f
        hit-Filled (some d) h = f

        hit-frame :
            (o : Option Bytes)
            → b.frame.image_data ≡ o
            → (answer_hit cbr b c o).0.frame ≡ cbr b.dng_filename empty_frame
        hit-frame none h = refilled b (Filled-get cbr path c.image_buffers b f e) h
        hit-frame (some d) h = Filled-get cbr path c.image_buffers b f e

    -- A request keeps the cache valid, hit or miss.
    answer-IsValid :
        (o : Option ImageBuffer)
        → get_image_buffer path c.image_buffers ≡ o
        → IsValid (answer cbr path c o).2
    answer-IsValid none e = answer-new-IsValid e
    answer-IsValid (some b) e = hit-IsValid b e b.frame.image_data

    answer-found :
        (o : Option ImageBuffer)
        → get_image_buffer path c.image_buffers ≡ o
        → get_image_buffer path (answer cbr path c o).2.image_buffers ≡ some (answer cbr path c o).0
    answer-found none e =
        get_image_buffer-append (kept c.image_buffers) (fill cbr (fresh path c))
          (get_image_buffer-kept path c.image_buffers e)
    answer-found (some b) e = hit-found b e b.frame.image_data

    answer-Filled :
        (o : Option ImageBuffer)
        → get_image_buffer path c.image_buffers ≡ o
        → Filled cbr c.image_buffers
        → Filled cbr (answer cbr path c o).2.image_buffers
    answer-Filled none e f =
        Filled-append cbr (kept c.image_buffers) (fill cbr (fresh path c))
          (Filled-kept cbr c.image_buffers f) refl
    answer-Filled (some b) e f = hit-Filled b e f b.frame.image_data refl

    answer-frame :
        (o : Option ImageBuffer)
        → get_image_buffer path c.image_buffers ≡ o
        → Filled cbr c.image_buffers
        → (answer cbr path c o).0.frame ≡ cbr path empty_frame
    answer-frame none e f = refl
    answer-frame (some b) e f =
        hit-frame b e f b.frame.image_data refl
        ∙ ap (λ (p : Bytes). cbr p empty_frame) (get_image_buffer-name path c.image_buffers b e)

    -- A request to a valid cache, with memory at hand: the buffer returned is the one that the
    -- cache then holds under the path, the cache stays valid, and if each buffer held what the
    -- callback makes of its name, then so do the new cache's and the one returned.
    pub get_or_create_image_buffer_contract :
        Filled cbr c.image_buffers
        → (b : ImageBuffer) × (created : Bool) × (c' : Cache) × (get_or_create_image_buffer had cbr
              path c
            ≡ some (b, created, c'))
          × IsValid c'
          × Filled cbr c'.image_buffers
          × (get_image_buffer path c'.image_buffers ≡ some b)
          × (b.frame ≡ cbr path empty_frame)
    get_or_create_image_buffer_contract f =
        let o = get_image_buffer path c.image_buffers in
        let r = answer cbr path c o in
        (
          r.0,
          r.1,
          r.2,
          get_or_create_image_buffer_lem path c v cbr,
          answer-IsValid o refl,
          answer-Filled o refl f,
          answer-found o refl,
          answer-frame o refl f,
        )
