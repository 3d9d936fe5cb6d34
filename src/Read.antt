-- ===== src/Read.antt =====
-- The reads of the virtual DNG, GIF and log files by `mlvfs_read` of mlvfs/main.c.
pub mod Range
pub mod Cached
pub mod Handler
mod Tests
use mlvfs.Base.{
  ℕ, ◌+◌, ◌-◌, min, Bool, true, false, ◌&&◌, Option, none, some, List, length, ltb, if◌then◌else◌,
  Bytes, slice, write_at,
}
use mlvfs.Cache.{Frame, ImageBuffer, Cache, Allocation, get_or_create_image_buffer}

-- The number of bytes that is returned, and the buffer.
pub record Reply : Type 0 where
  pub result : ℕ
  pub buf : Bytes

-- The copies of the DNG branch. `dng_header_size` is `dng_get_header_size()`. `none` is a read
-- before the start or behind the end of the image data, where its offset or what is left of it
-- is negative.
unfoldable pub copy_dng : ℕ → Frame → Bytes → Bytes → Bytes → ℕ → ℕ → Option Reply
copy_dng dng_header_size f header image_data buf read_offset read_size =
    let in_header = ltb read_offset dng_header_size && ltb 0 f.header_size in
    let remaining = if in_header then min read_size (dng_header_size - read_offset) else 0 in
    let buf' = if in_header then write_at buf 0 (slice header read_offset remaining) else buf in
    let image_offset = if in_header then 0 else read_offset - dng_header_size in
    let before = if in_header then false else ltb read_offset dng_header_size in
    let copied =
      write_at buf' remaining
        (slice image_data image_offset (min (read_size - remaining) (f.size - image_offset))) in
    if ltb remaining read_size && ltb 0 f.size
    then if before
      then none
      else if ltb f.size image_offset
      then none
      else some (record { result = read_size; buf = copied })
    else some (record { result = read_size; buf = buf' })

-- The DNG branch with its image buffer.
unfoldable pub read_dng : ℕ → Frame → Bytes → ℕ → ℕ → Option Reply
read_dng dng_header_size f buf offset size = elim f.header [
  | none ↦ some (record { result = 0; buf = buf })
  | some header ↦ elim f.image_data [
    | none ↦ some (record { result = 0; buf = buf })
    | some image_data ↦
        let file_size = f.header_size + f.size in
        let read_offset = min offset file_size in
        let read_size = min size (file_size - read_offset) in
        let read_size' =
          if ltb file_size (read_offset + read_size) then file_size - read_offset else read_size in
        copy_dng dng_header_size f header image_data buf read_offset read_size'
  ]
]

-- The GIF branch with its image buffer.
unfoldable pub read_gif : Frame → Bytes → ℕ → ℕ → Reply
read_gif f buf offset size = elim f.image_data [
  | none ↦ record { result = 0; buf = buf }
  | some image_data ↦
      let read_offset = min offset f.size in
      let read_size = min size (f.size - read_offset) in
      record { result = read_size; buf = write_at buf 0 (slice image_data read_offset read_size) }
]

-- The log branch, with the text of the log.
unfoldable pub read_log : Option Bytes → Bytes → ℕ → ℕ → Reply
read_log none buf offset size = record { result = 0; buf = buf }
read_log (some log) buf offset size =
    let read_bytes = min size (length log - offset) in
    if ltb offset (length log)
    then record { result = read_bytes; buf = write_at buf 0 (slice log offset read_bytes) }
    else record { result = 0; buf = buf }

-- A read of a DNG file that has no handle yet: the reply and the cache. `none` is a fault.
unfoldable pub open_dng :
    Allocation
    → (Bytes → Frame → Frame)
    → ℕ
    → Bytes
    → Bytes
    → ℕ
    → ℕ
    → Cache
    → Option (Reply × Cache)
open_dng m process_frame dng_header_size path buf offset size c =
    elim (get_or_create_image_buffer m process_frame path c) [
      | none ↦ none
      | some (b, created, c') ↦ elim (read_dng dng_header_size b.frame buf offset size) [
        | none ↦ none
        | some r ↦ some (r, c')
      ]
    ]
