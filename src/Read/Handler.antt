-- ===== src/Read/Handler.antt =====
-- `mlvfs_read` of mlvfs/main.c: which file a read is of.
mod Tests
use mlvfs.Base.{
  ℕ, ◌≡◌, refl, ap, ◌∙◌, Bool, true, false, Option, none, some, List, [], ◌∷◌, ◌++◌, length, ◌==◌,
  if◌then◌else◌, Bytes, write_at,
}
use mlvfs.FrameNumber.{Number, plus, minus, dng_name}
use mlvfs.Cache.{
  Frame, ImageBuffer, Cache, Allocation, get_image_buffer, get_or_create_image_buffer, empty_frame,
}
use mlvfs.Cache.Requests.{had}
use mlvfs.Cache.Contract.{Retries}
use mlvfs.Cache.History.{Call, live, run, empty_cache, run_transparent}
use mlvfs.Paths.{SlreMatch, Options, string_ends_with, mlvfs_resolve_path, mlvfs_resolve_virtual}
use mlvfs.Index.Store.{Disk}
use mlvfs.Handlers.{Process, Calls, rdonly, negated}
use mlvfs.Getattr.{dng, gif, log, wav, dng_get_header_size}
use mlvfs.Getattr.Frames.{FramePath, resolve-FramePath, string_ends_with-dng_name}
use mlvfs.Read.{Reply, read_dng, read_gif, read_log}
use mlvfs.Read.Range.{range, Renders, read_dng_lem}

-- The result, the buffer, the handle `fi->fh`, which is the address of an image buffer, and the
-- process.
pub record Served : Type 0 where
  pub result : Number
  pub buf : Bytes
  pub fh : Option ℕ
  pub process : Process

-- The image buffer behind a handle.
unfoldable pub buffer_at : ℕ → List ImageBuffer → Option ImageBuffer
buffer_at a [] = none
buffer_at a (b ∷ bs) = if b.address == a then some b else buffer_at a bs

-- The callbacks of the cache, the disk that `process_frame` leaves, which can gain an IDX file, the
-- allocations of a new buffer, and the parts that stand elsewhere: the read of a WAV file, and the
-- text of the log. While the MLV files stay the same, a callback makes a frame of the path alone.
pub record Sources : Type 0 where
  pub process_frame : Bytes → Frame → Frame
  pub frame_disk : Bytes → Disk → Disk
  pub create_preview : Bytes → Frame → Frame
  pub preview_disk : Bytes → Disk → Disk
  pub allocation : Allocation
  pub wav_get_data : Bytes → Bytes → ℕ → ℕ → Process → Option (ℕ × Bytes × Process)
  pub debug_log : Bytes → Process → Option Bytes

-- Whether a request has to run the callback: no buffer of the path holds an image.
unfoldable pub is_cached : Bytes → Cache → Bool
is_cached path c = elim (get_image_buffer path c.image_buffers) [
  | none ↦ false
  | some b ↦ elim (b.frame.image_data) [ none ↦ false | some _ ↦ true ]
]

-- The handle after a read of a DNG file: it is set where the buffer is whole.
unfoldable pub handle_of : ImageBuffer → Option ℕ → Option ℕ
handle_of b fh = elim (b.frame.header) [
  | none ↦ fh
  | some _ ↦ elim (b.frame.image_data) [ none ↦ fh | some _ ↦ some b.address ]
]

-- The DNG branch with its image buffer.
unfoldable pub read_buffer : ImageBuffer → Bytes → ℕ → ℕ → Option ℕ → Process → Option Served
read_buffer b buf offset size fh p = elim (read_dng dng_get_header_size b.frame buf offset size) [
  | none ↦ none
  | some r ↦ some (record { result = plus r.result; buf = r.buf; fh = handle_of b fh; process = p })
]

-- `none` is a fault, or a buffer behind the handle that is gone.
module _ (slre_match : SlreMatch) (options : Options) (calls : Calls) (sources : Sources) where
  -- A file on disk.
  unfoldable pub read_real : Bytes → Bytes → ℕ → ℕ → Process → Served
  read_real resolved_filename buf size offset p =
      let fd = calls.open_as resolved_filename rdonly p in
      let res = calls.pread resolved_filename size offset fd.1 in
      let answer : Served = elim res.0 [
        | none ↦ record { result = negated res.1.errno; buf = buf; fh = none; process = res.1 }
        | some bs ↦ record {
          result = plus (length bs);
          buf = write_at buf 0 bs;
          fh = none;
          process = res.1;
        }
      ] in
      if fd.0
      then answer
      else record { result = negated fd.1.errno; buf = buf; fh = none; process = fd.1 }

  -- A virtual file that has no handle, by what its name ends in.
  unfoldable pub read_virtual : Bytes → Bytes → Bytes → Bytes → ℕ → ℕ → Process → Option Served
  read_virtual path mlv_filename path_in_mlv buf size offset p =
      let frame : Option Served =
        elim (get_or_create_image_buffer sources.allocation sources.process_frame path p.cache) [
          | none ↦ none
          | some (b, created, c') ↦
              let d = if is_cached path p.cache then p.disk else sources.frame_disk path p.disk in
              read_buffer b buf offset size none (record p { disk = d; cache = c' })
        ] in
      let preview : Option Served =
        elim (get_or_create_image_buffer sources.allocation sources.create_preview path p.cache) [
          | none ↦ none
          | some (b, created, c') ↦
              let r = read_gif b.frame buf offset size in
              some (record {
                result = plus r.result;
                buf = r.buf;
                fh = none;
                process = record p {
                  disk =
                      if is_cached path p.cache then p.disk else sources.preview_disk path p.disk;
                  cache = c';
                };
              })
        ] in
      let sound : Option Served = elim (sources.wav_get_data mlv_filename buf offset size p) [
        | none ↦ none
        | some (n, buf', p') ↦
            some (record { result = plus n; buf = buf'; fh = none; process = p' })
      ] in
      let text = read_log (sources.debug_log mlv_filename p) buf offset size in
      if string_ends_with path_in_mlv dng
      then frame
      else if string_ends_with path_in_mlv wav
      then sound
      else if string_ends_with path_in_mlv gif
      then preview
      else if string_ends_with path_in_mlv log
      then some (record { result = plus text.result; buf = text.buf; fh = none; process = p })
      else some (record { result = minus 2; buf = buf; fh = none; process = p })

  unfoldable pub mlvfs_read : Bytes → Bytes → ℕ → ℕ → Option ℕ → Process → Option Served
  mlvfs_read path buf size offset (some a) p = elim (buffer_at a p.cache.image_buffers) [
    | none ↦ none
    | some b ↦ read_buffer b buf offset size (some a) p
  ]
  mlvfs_read path buf size offset none p = elim (mlvfs_resolve_virtual slre_match options path) [
    | some resolved_filename ↦ some (read_real resolved_filename buf size offset p)
    | none ↦ elim (mlvfs_resolve_path slre_match options path) [
      | none ↦ some (record { result = minus 2; buf = buf; fh = none; process = p })
      | some (mlv_filename, path_in_mlv) ↦
          read_virtual path mlv_filename path_in_mlv buf size offset p
    ]
  ]

  -- With the plain name scheme, after any history of requests and releases of image buffers in
  -- which each release by address is of a buffer that is still cached, with memory at hand, a
  -- callback that makes the same again of a buffer it left without an image, and a frame below
  -- a million that it can render with a header of 65536 bytes: a read of the path of the frame
  -- without a handle, by a process with this cache, returns the range that was asked for of the
  -- DNG file that the callback makes of the path. Where the image is cached the files on disk
  -- stay as they are, and else they are what rendering the frame leaves.
  pub mlvfs_read-FramePath :
      (ks : List Call) (file path header image_data buf : Bytes) (i offset size : ℕ)
      → options.name_scheme ≡ 0
      → sources.allocation ≡ had
      → FramePath options.mlv_path file i path
      → Retries sources.process_frame
      → live sources.process_frame ks empty_cache ≡ true
      → Renders dng_get_header_size (sources.process_frame path empty_frame) header image_data
      → (c : Cache) × (run sources.process_frame ks empty_cache ≡ some c)
        × ((p : Process)
            → p.cache ≡ c
            → (r : Served) × (mlvfs_read path buf size offset none p ≡ some r)
              × (r.result ≡ plus (range (header ++ image_data) buf offset size).result)
              × (r.buf ≡ (range (header ++ image_data) buf offset size).buf)
              × (is_cached path c ≡ true → r.process.disk ≡ p.disk)
              × (is_cached path c ≡ false → r.process.disk ≡ sources.frame_disk path p.disk))
  unfolding mlvfs_read read_virtual read_buffer
  mlvfs_read-FramePath ks file path header image_data buf i offset size scheme memory f retries
        alive renders =
      let (c, b, created, c', e, v, g, w) =
        run_transparent sources.process_frame ks path retries alive in
      let (virtual, resolved) = resolve-FramePath slre_match options scheme file path i f in
      let hs : ℕ = dng_get_header_size in
      let read : read_dng hs b.frame buf offset size
          ≡ some (range (header ++ image_data) buf offset size) =
        ap (λ (x : Frame). read_dng hs x buf offset size) w
        ∙ read_dng_lem hs (sources.process_frame path empty_frame) header image_data buf offset size
            renders in
      let ends = string_ends_with-dng_name f.base i in
      (
        c,
        e,
        λ p same.
            let found : get_or_create_image_buffer had sources.process_frame path p.cache
                ≡ some (b, created, c') =
              ap (get_or_create_image_buffer had sources.process_frame path) same ∙ g in
            (
              record {
                result = plus (range (header ++ image_data) buf offset size).result;
                buf = (range (header ++ image_data) buf offset size).buf;
                fh = handle_of b none;
                process = record p {
                  disk = if is_cached path p.cache then p.disk else sources.frame_disk path p.disk;
                  cache = c';
                };
              },
              rw
                  (
                    mlvfs_read, virtual, resolved, read_virtual, ends, memory, found, read_buffer,
                    read,
                  )
                  refl,
              refl,
              refl,
              λ cached. rw (same, cached) refl,
              λ new. rw (same, new) refl,
            ),
      )
