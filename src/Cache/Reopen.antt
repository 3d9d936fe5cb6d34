-- ===== src/Cache/Reopen.antt =====
-- A buffer of mlvfs/resource_manager.c that was released and is asked for again.
use mlvfs.Base.{
  suc, ◌-◌, ◌<◌, ◌≡◌, ap, ◌∙◌, false, none, some, List, [], ◌∷◌, length, arith, Bytes,
  eq_of_bytes_eq, bytes_eq_refl,
}
use mlvfs.Cache.{
  Frame, ImageBuffer, Cache, get_image_buffer, first_unused, image_buffer_cleanup,
  get_or_create_image_buffer,
}
use mlvfs.Cache.Cleanup.{drop_unused, drop_unused-one, kept, image_buffer_cleanup_lem}
use mlvfs.Cache.Update.{
  Distinct, get_image_buffer-name, get_image_buffer-drop_unused, get_image_buffer-drop,
}
use mlvfs.Cache.Requests.{IsValid, had, answer, answer_hit, get_or_create_image_buffer_lem}

first_unused-in_use :
    (bs : List ImageBuffer) (b : ImageBuffer) → first_unused bs ≡ some b → b.in_use ≡ false
unfolding first_unused
first_unused-in_use [] b u = cc
first_unused-in_use (x ∷ xs) b u = ground (arith, first_unused-in_use xs b)

get_image_buffer-drop_one :
    (path : Bytes) (bs : List ImageBuffer) (b : ImageBuffer)
    → Distinct bs
    → first_unused bs ≡ some b
    → get_image_buffer path bs ≡ some b
    → get_image_buffer path (drop_unused 1 bs) ≡ none
unfolding get_image_buffer first_unused drop_unused
get_image_buffer-drop_one path [] b d u e = cc
get_image_buffer-drop_one path (x ∷ xs) b d u e = ground (
  arith,
  get_image_buffer-drop_one path xs b d.1,
  first_unused-in_use xs b,
  get_image_buffer-name path xs b,
  bytes_eq_refl path,
  eq_of_bytes_eq x.dng_filename path,
)

-- A cached frame that was released stays not in use when it is asked for again: the request
-- returns it as it is, and if it is the oldest unused one of more than four buffers, the next
-- cleanup frees it although its caller still holds the pointer.
pub reopened-evictable :
    (cbr : Bytes → Frame → Frame) (path : Bytes) (c : Cache) (b : ImageBuffer) (d : Bytes)
    → IsValid c
    → 4 < length c.image_buffers
    → get_image_buffer path c.image_buffers ≡ some b
    → first_unused c.image_buffers ≡ some b
    → b.frame.image_data ≡ some d
    → (get_or_create_image_buffer had cbr path c ≡ some (b, false, c))
      × (get_image_buffer path (image_buffer_cleanup c).image_buffers ≡ none)
unfolding kept
reopened-evictable cbr path c b d v many e u h =
    let bs = c.image_buffers in
    let k : length bs - 4 ≡ suc (length bs - 5) = omega arith in
    let one = get_image_buffer-drop_one path bs b v.distinct u e in
    let few = get_image_buffer-drop_unused path (length bs - 5) (drop_unused 1 bs) one in
    let few' : get_image_buffer path (drop_unused (length bs - 4) bs) ≡ none =
      rw (k, ← drop_unused-one (length bs - 5) bs) few in
    let hit : answer_hit cbr b c b.frame.image_data ≡ (b, false, c) = ground arith in
    (
      get_or_create_image_buffer_lem path c v cbr ∙ ap some (rw (e, answer) hit),
      rw (image_buffer_cleanup_lem c v.inv).0 (get_image_buffer-drop path _ _ few'),
    )
