-- ===== src/Read/Cached.antt =====
-- A read by `mlvfs_read` of mlvfs/main.c through the cache of mlvfs/resource_manager.c.
use mlvfs.Base.{ℕ, ◌≡◌, refl, true, ap, ◌∙◌, some, List, ◌++◌, Bytes}
use mlvfs.Cache.{Frame, Cache, empty_frame}
use mlvfs.Cache.Requests.{had}
use mlvfs.Cache.Contract.{Retries}
use mlvfs.Cache.History.{Call, live, run, empty_cache, run_transparent}
use mlvfs.Read.{read_dng, open_dng}
use mlvfs.Read.Range.{range, Renders, read_dng_lem}

-- After any history of requests and releases in which each release by address is of a buffer that
-- is still cached, with memory at hand and a callback that makes the same again of a buffer it left
-- without an image, a read of a DNG file whose frame the callback
-- can render returns the range of that frame: neither what was cached nor what was evicted shows
-- in it.
pub open_dng_transparent :
    (process_frame : Bytes → Frame → Frame) (ks : List Call) (hs : ℕ)
    (path header image_data buf : Bytes) (offset size : ℕ)
    → Retries process_frame
    → live process_frame ks empty_cache ≡ true
    → Renders hs (process_frame path empty_frame) header image_data
    → (c : Cache) × (c' : Cache) × (run process_frame ks empty_cache ≡ some c)
      × (open_dng had process_frame hs path buf offset size c
          ≡ some (range (header ++ image_data) buf offset size, c'))
unfolding open_dng
open_dng_transparent process_frame ks hs path header image_data buf offset size t l r =
    let (c, b, created, c', e, v, g, w) = run_transparent process_frame ks path t l in
    let read : read_dng hs b.frame buf offset size
        ≡ some (range (header ++ image_data) buf offset size) =
      ap (λ (f : Frame). read_dng hs f buf offset size) w
      ∙ read_dng_lem hs (process_frame path empty_frame) header image_data buf offset size r in
    (c, c', e, rw (g, open_dng, read) refl)
