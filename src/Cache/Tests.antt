-- ===== src/Cache/Tests.antt =====
-- The cache of mlvfs/resource_manager.c on small inputs.
use mathlib.Core.Option
use mlvfs.Base.{
  ℕ, ◌≤◌, ◌≡◌, refl, Bool, true, false, none, some, List, [], ◌∷◌, length, arith, Bytes, bytes_eq,
  ◌⊎◌,
}
use mlvfs.Cache.{
  Frame, ImageBuffer, Cache, get_image_buffer, first_unused, mark, image_buffer_cleanup,
  cleanup_unused, cleanup_total, free_image_buffer, unlink, get_or_create_image_buffer,
  release_image_buffer_by_path, release_image_buffer, held, update, find_or_create,
  new_image_buffer, fill_if_empty,
}
use mlvfs.Cache.Cleanup.{Inv, unused_count}
use mlvfs.Cache.Eviction.{used, image_buffer_cleanup_bounds, image_buffer_cleanup_keeps_used}
use mlvfs.Cache.Requests.{IsValid, had, answer, get_or_create_image_buffer_lem}
use mlvfs.Cache.Contract.{Retries}
use mlvfs.Cache.History.{
  Call, requests, releases, releases_path, live, step, run, empty_cache, run_transparent,
  release_image_buffer_by_path_lem,
}
use mlvfs.Cache.Reopen.{reopened-evictable}

abbrev loaded : ℕ → Frame
loaded k = record { header_size = 1; size = 1; header = some (k ∷ []); image_data = some (k ∷ []) }

abbrev buffer : ℕ → Bool → ImageBuffer
buffer k u = record { address = k; dng_filename = k ∷ []; frame = loaded k; in_use = u }

-- Six buffers, of which the second and the fourth are in use.
abbrev six : Cache
six = record {
  image_buffers =
      buffer 0 false
      ∷ buffer 1 true
      ∷ buffer 2 false
      ∷ buffer 3 true
      ∷ buffer 4 false
      ∷ buffer 5 false
      ∷ [];
  image_buffer_count = 6;
  next_address = 6;
}

six-Inv : Inv six
six-Inv = record { counted = refl; ascending = omega arith }

six-IsValid : IsValid six
unfolding get_image_buffer bytes_eq
six-IsValid = record {
  inv = six-Inv;
  bounded = omega arith;
  distinct = (refl, (refl, (refl, (refl, (refl, (refl, tt))))));
}

-- The two oldest unused buffers go.
cleanup_six :
    (image_buffer_cleanup six).image_buffers
    ≡ buffer 1 true ∷ buffer 3 true ∷ buffer 4 false ∷ buffer 5 false ∷ []
unfolding image_buffer_cleanup cleanup_unused cleanup_total free_image_buffer unlink first_unused
cleanup_six = refl

image_buffer_cleanup_bounds_example :
    (length (image_buffer_cleanup six).image_buffers ≤ 16)
    × ((image_buffer_cleanup six).image_buffer_count
        ≡ length (image_buffer_cleanup six).image_buffers)
    × (length (image_buffer_cleanup six).image_buffers ≤ 4
        ⊎ unused_count (image_buffer_cleanup six).image_buffers ≡ 0)
image_buffer_cleanup_bounds_example = image_buffer_cleanup_bounds six six-Inv

image_buffer_cleanup_keeps_used_example :
    used (image_buffer_cleanup six).image_buffers ≡ buffer 1 true ∷ buffer 3 true ∷ []
image_buffer_cleanup_keeps_used_example = image_buffer_cleanup_keeps_used six six-Inv (omega arith)

-- A callback that makes a one-byte frame of the path's length.
abbrev callback : Bytes → Frame → Frame
callback path f = loaded (length path)

callback-Retries : Retries callback
callback-Retries path e = refl

get_or_create_image_buffer_lem_example :
    get_or_create_image_buffer had callback (7 ∷ []) six
    ≡ some (answer callback (7 ∷ []) six (get_image_buffer (7 ∷ []) six.image_buffers))
get_or_create_image_buffer_lem_example =
    get_or_create_image_buffer_lem (7 ∷ []) six six-IsValid callback

release_image_buffer_by_path_lem_example :
    IsValid (release_image_buffer_by_path (3 ∷ []) six)
    × (get_image_buffer (3 ∷ []) (release_image_buffer_by_path (3 ∷ []) six).image_buffers
        ≡ Option.map (mark false) (get_image_buffer (3 ∷ []) six.image_buffers))
    × (bytes_eq (3 ∷ []) (1 ∷ []) ≡ false
        → get_image_buffer (1 ∷ []) (release_image_buffer_by_path (3 ∷ []) six).image_buffers
          ≡ get_image_buffer (1 ∷ []) six.image_buffers)
release_image_buffer_by_path_lem_example =
    release_image_buffer_by_path_lem (3 ∷ []) (1 ∷ []) six six-IsValid

abbrev history : List Call
history =
    requests (1 ∷ [])
    ∷ requests (2 ∷ [])
    ∷ releases_path (1 ∷ [])
    ∷ requests (3 ∷ [])
    ∷ releases 1
    ∷ []

history-live : live callback history empty_cache ≡ true
unfolding live step get_or_create_image_buffer find_or_create new_image_buffer fill_if_empty
    get_image_buffer image_buffer_cleanup cleanup_unused cleanup_total free_image_buffer unlink
    first_unused update held release_image_buffer release_image_buffer_by_path bytes_eq
history-live = refl

run_transparent_example :
    (c : Cache) × (b : ImageBuffer) × (created : Bool) × (c' : Cache) × (run callback history
        empty_cache
      ≡ some c)
    × IsValid c
    × (get_or_create_image_buffer had callback (1 ∷ []) c ≡ some (b, created, c'))
    × (b.frame ≡ loaded 1)
run_transparent_example = run_transparent callback history (1 ∷ []) callback-Retries history-live

reopened-evictable_example :
    (get_or_create_image_buffer had callback (0 ∷ []) six ≡ some (buffer 0 false, false, six))
    × (get_image_buffer (0 ∷ []) (image_buffer_cleanup six).image_buffers ≡ none)
unfolding get_image_buffer bytes_eq first_unused
reopened-evictable_example =
    reopened-evictable callback (0 ∷ []) six (buffer 0 false) (0 ∷ []) six-IsValid (omega arith)
      refl refl refl
