-- ===== src/Read/Tests.antt =====
-- The reads of mlvfs/main.c over a frame with a header of three bytes.
use mlvfs.Base.{
  ◌≡◌, refl, true, bytes_eq, List, [], ◌∷◌, ◌++◌, some, Bytes, slice, write_at, arith, replicate,
}
use mlvfs.Cache.{
  get_or_create_image_buffer, find_or_create, new_image_buffer, fill_if_empty, get_image_buffer,
  image_buffer_cleanup, cleanup_unused, cleanup_total, free_image_buffer, unlink, first_unused,
  update, held, release_image_buffer, release_image_buffer_by_path, Frame, Cache, empty_frame,
}
use mlvfs.Cache.Requests.{had}
use mlvfs.Cache.Contract.{Retries}
use mlvfs.Cache.History.{Call, requests, releases_path, live, step, run, empty_cache}
use mlvfs.Read.{copy_dng, read_dng, open_dng}
use mlvfs.Read.Range.{range, Renders, read_dng_lem}
use mlvfs.Read.Cached.{open_dng_transparent}

abbrev made : Bytes → Frame → Frame
made path f = record {
  header_size = 3;
  size = 4;
  header = some (1 ∷ 2 ∷ 3 ∷ []);
  image_data = some (4 ∷ 5 ∷ 6 ∷ 7 ∷ []);
}

made-Renders :
    (path : Bytes) → Renders 3 (made path empty_frame) (1 ∷ 2 ∷ 3 ∷ []) (4 ∷ 5 ∷ 6 ∷ 7 ∷ [])
made-Renders path = record {
  header = refl;
  image_data = refl;
  header_size = refl;
  size = refl;
  length_header = refl;
  some_header = omega arith;
}

made-Retries : Retries made
made-Retries path e = refl

abbrev buffer : Bytes
buffer = replicate 6 9

-- Across the end of the header.
read_dng-made :
    read_dng 3 (made [] empty_frame) buffer 2 3
    ≡ some (record { result = 3; buf = 3 ∷ 4 ∷ 5 ∷ 9 ∷ 9 ∷ 9 ∷ [] })
unfolding read_dng copy_dng slice write_at
read_dng-made = refl

read_dng_lem_example :
    read_dng 3 (made [] empty_frame) buffer 5 6
    ≡ some (range ((1 ∷ 2 ∷ 3 ∷ []) ++ (4 ∷ 5 ∷ 6 ∷ 7 ∷ [])) buffer 5 6)
read_dng_lem_example =
    read_dng_lem 3 (made [] empty_frame) (1 ∷ 2 ∷ 3 ∷ []) (4 ∷ 5 ∷ 6 ∷ 7 ∷ []) buffer 5 6
      (made-Renders [])

abbrev history : List Call
history = requests (1 ∷ []) ∷ requests (2 ∷ []) ∷ releases_path (1 ∷ []) ∷ []

history-live : live made history empty_cache ≡ true
unfolding live step get_or_create_image_buffer find_or_create new_image_buffer fill_if_empty
    get_image_buffer image_buffer_cleanup cleanup_unused cleanup_total free_image_buffer unlink
    first_unused update held release_image_buffer release_image_buffer_by_path bytes_eq
history-live = refl

open_dng_transparent_example :
    (c : Cache) × (c' : Cache) × (run made history empty_cache ≡ some c)
    × (open_dng had made 3 (1 ∷ []) buffer 2 3 c
        ≡ some (range ((1 ∷ 2 ∷ 3 ∷ []) ++ (4 ∷ 5 ∷ 6 ∷ 7 ∷ [])) buffer 2 3, c'))
open_dng_transparent_example =
    open_dng_transparent made history 3 (1 ∷ []) (1 ∷ 2 ∷ 3 ∷ []) (4 ∷ 5 ∷ 6 ∷ 7 ∷ []) buffer 2 3
      made-Retries history-live (made-Renders (1 ∷ []))
