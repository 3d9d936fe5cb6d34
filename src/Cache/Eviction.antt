-- ===== src/Cache/Eviction.antt =====
-- Which buffers a cleanup of mlvfs/resource_manager.c may free, and how many it leaves.
use mlvfs.Base.{
  ℕ, zero, suc, ◌+◌, ◌-◌, ◌≤◌, min, ◌≡◌, refl, ◌⊎◌, List, [], ◌∷◌, length, drop, if◌then◌else◌,
  arith, length-drop,
}
use mlvfs.Cache.{ImageBuffer, Cache, image_buffer_cleanup}
use mlvfs.Cache.Cleanup.{drop_unused, unused_count, kept, Inv, image_buffer_cleanup_lem}

-- The buffers in use, in order.
abbrev pub used : List ImageBuffer → List ImageBuffer
used [] = []
used (b ∷ bs) = if b.in_use then b ∷ used bs else used bs

used-drop_unused : (k : ℕ) (bs : List ImageBuffer) → used (drop_unused k bs) ≡ used bs
unfolding drop_unused
used-drop_unused zero bs = refl
used-drop_unused (suc k) [] = refl
used-drop_unused (suc k) (b ∷ bs) =
    ground (arith, used-drop_unused (suc k) bs, used-drop_unused k bs)

length-used : (bs : List ImageBuffer) → length bs ≡ length (used bs) + unused_count bs
unfolding unused_count
length-used [] = omega arith
length-used (b ∷ bs) = ground (arith, length-used bs)

length-drop_unused :
    (k : ℕ) (bs : List ImageBuffer)
    → length (drop_unused k bs) + min k (unused_count bs) ≡ length bs
unfolding drop_unused unused_count
length-drop_unused zero bs = omega arith
length-drop_unused (suc k) [] = omega arith
length-drop_unused (suc k) (b ∷ bs) =
    ground (arith, length-drop_unused (suc k) bs, length-drop_unused k bs)

unused_count-drop_unused :
    (k : ℕ) (bs : List ImageBuffer) → unused_count (drop_unused k bs) ≡ unused_count bs - k
unfolding drop_unused unused_count
unused_count-drop_unused zero bs = omega arith
unused_count-drop_unused (suc k) [] = omega arith
unused_count-drop_unused (suc k) (b ∷ bs) =
    ground (arith, unused_count-drop_unused (suc k) bs, unused_count-drop_unused k bs)

unused_count-drop : (k : ℕ) (bs : List ImageBuffer) → unused_count (drop k bs) ≤ unused_count bs
unfolding unused_count
unused_count-drop zero bs = omega arith
unused_count-drop (suc k) [] = omega arith
unused_count-drop (suc k) (b ∷ bs) = omega (arith, unused_count-drop k bs)

module _ (c : Cache) (inv : Inv c) where
  few : List ImageBuffer
  few = drop_unused (length c.image_buffers - 4) c.image_buffers

  length-few :
      (length few ≤ 4 ⊎ unused_count few ≡ 0)
      × (length few ≤ 4 ⊎ length few ≡ length (used c.image_buffers))
  unfolding few
  length-few =
      let k = length c.image_buffers - 4 in
      let bs = c.image_buffers in
      (
        omega (arith, length-drop_unused k bs, unused_count-drop_unused k bs, length-used bs),
        omega (arith, length-drop_unused k bs, length-used bs),
      )

  -- After a cleanup of a cache whose count is right and whose addresses ascend, at most sixteen
  -- buffers are left, the count is right, and more than four are left only if none of those that
  -- are left could be freed.
  pub image_buffer_cleanup_bounds :
      (length (image_buffer_cleanup c).image_buffers ≤ 16)
      × ((image_buffer_cleanup c).image_buffer_count
          ≡ length (image_buffer_cleanup c).image_buffers)
      × (length (image_buffer_cleanup c).image_buffers ≤ 4
          ⊎ unused_count (image_buffer_cleanup c).image_buffers ≡ 0)
  unfolding kept few
  image_buffer_cleanup_bounds =
      let (e, _, i) = image_buffer_cleanup_lem c inv in
      let k = length few - 16 in
      (
        rw e (omega (arith, length-drop k few)),
        i.counted,
        rw e (omega (arith, length-drop k few, length-few, unused_count-drop k few)),
      )

  -- While at most sixteen buffers are in use, a cleanup of a cache whose count is right and
  -- whose addresses ascend frees none of them and keeps their order.
  pub image_buffer_cleanup_keeps_used :
      length (used c.image_buffers) ≤ 16
      → used (image_buffer_cleanup c).image_buffers ≡ used c.image_buffers
  unfolding kept few
  image_buffer_cleanup_keeps_used h =
      let (e, _, _) = image_buffer_cleanup_lem c inv in
      let k : length few - 16 ≡ 0 = omega (arith, length-few) in
      rw e (rw k (used-drop_unused (length c.image_buffers - 4) c.image_buffers))
