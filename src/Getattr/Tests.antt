-- ===== src/Getattr/Tests.antt =====
-- The attributes of the one frame of "/v/A.MLV", by mlvfs/main.c.
use mlvfs.Base.{ℕ, ◌+◌, ◌*◌, ◌^◌, ◌<◌, ◌≡◌, refl, some, [], Bytes}
use mlvfs.FrameNumber.{plus}
use mlvfs.Attributes.{had, lookup_dng_attr}
use mlvfs.Index.Store.{Disk}
use mlvfs.Getattr.{
  FuseStat, Attrs, file_mode, x_res, y_res, dng_get_size, timespec_of, mlvfs_getattr,
}
use mlvfs.Getattr.Frames.{FramePath, mlvfs_getattr-frames}
use mlvfs.Getattr.Sample.{
  no_match, options, services, stack, wav_headers, root, file, path, disk, headers, headers-disk,
  path-FramePath,
}

mlvfs_getattr-frames_example :
    (st : FuseStat) × (attrs' : Attrs) × (mlvfs_getattr no_match options services had stack
        wav_headers path [] disk
      ≡ some (plus 0, st, attrs', disk))
    × (st.st_mode ≡ file_mode)
    × (st.st_size ≡ dng_get_size headers)
    × (x_res headers.rawi_hdr * y_res headers.rawi_hdr * 2 < 2 ^ 31
        → st.st_size ≡ 65536 + x_res headers.rawi_hdr * y_res headers.rawi_hdr * 2)
    × (lookup_dng_attr file attrs' ≡ some st)
    × (st.st_mtim ≡ timespec_of services headers)
    × ((other : Bytes) (k : ℕ) (later : Attrs) (d'' : Disk)
        → FramePath root file k other
        → lookup_dng_attr file later ≡ some st
        → mlvfs_getattr no_match options services had stack wav_headers other later d''
          ≡ some (plus 0, st, later, d''))
unfolding lookup_dng_attr
mlvfs_getattr-frames_example =
    mlvfs_getattr-frames no_match options services stack wav_headers refl file path 0 [] disk disk
      headers path-FramePath refl headers-disk
