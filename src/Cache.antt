-- ===== src/Cache.antt =====
-- The image buffer cache of mlvfs/resource_manager.c and the struct of resource_manager.h.
pub mod Cleanup
pub mod Eviction
pub mod Update
pub mod Requests
pub mod Filled
pub mod Contract
pub mod History
pub mod Reopen
mod Tests
use mlvfs.Base.{
  ℕ, zero, suc, ◌+◌, ◌-◌, ◌≡◌, Bool, true, false, Option, none, some, List, [], ◌∷◌, ◌++◌, map, ltb,
  ◌==◌, if◌then◌else◌, Bytes, bytes_eq,
}

-- What a `new_buffer_cbr` assigns to a buffer: the header, the image and their sizes. A null
-- pointer is `none`.
pub record Frame : Type 0 where
  pub header_size : ℕ
  pub size : ℕ
  pub header : Option Bytes
  pub image_data : Option Bytes

-- `struct image_buffer`, with its address. The `next` pointers are the order of the list.
pub record ImageBuffer : Type 0 where
  pub address : ℕ
  pub dng_filename : Bytes
  pub frame : Frame
  pub in_use : Bool

-- The globals `image_buffers` and `image_buffer_count`. `next_address` stands for the allocator,
-- which here never hands out an address twice.
pub record Cache : Type 0 where
  pub image_buffers : List ImageBuffer
  pub image_buffer_count : ℕ
  pub next_address : ℕ

abbrev pub max_unused_image_buffer_count : ℕ
max_unused_image_buffer_count = 4

abbrev pub max_total_image_buffer_count : ℕ
max_total_image_buffer_count = 16

-- What `memset` leaves in a new buffer.
abbrev pub empty_frame : Frame
empty_frame = record { header_size = 0; size = 0; header = none; image_data = none }

unfoldable pub get_image_buffer : Bytes → List ImageBuffer → Option ImageBuffer
get_image_buffer path [] = none
get_image_buffer path (b ∷ bs) =
    if bytes_eq b.dng_filename path then some b else get_image_buffer path bs

-- The unlinking half of `free_image_buffer`: the node with this address leaves the list.
unfoldable pub unlink : ℕ → List ImageBuffer → List ImageBuffer
unlink a [] = []
unlink a (b ∷ bs) = if b.address == a then bs else b ∷ unlink a bs

unfoldable pub free_image_buffer : ImageBuffer → Cache → Cache
free_image_buffer b c = record c {
  image_buffers = unlink b.address c.image_buffers;
  image_buffer_count = c.image_buffer_count - 1;
}

-- The `for` of `image_buffer_cleanup`: the oldest buffer that is not in use.
unfoldable pub first_unused : List ImageBuffer → Option ImageBuffer
first_unused [] = none
first_unused (b ∷ bs) = if b.in_use then first_unused bs else some b

-- The first `while` of `image_buffer_cleanup`. Each round lowers the count, which is the fuel.
unfoldable pub cleanup_unused : ℕ → Cache → Cache
cleanup_unused zero c = c
cleanup_unused (suc fuel) c =
    let victim = first_unused c.image_buffers in
    let rest : Cache = elim victim [
      | none ↦ c
      | some b ↦ cleanup_unused fuel (free_image_buffer b c)
    ] in
    if ltb max_unused_image_buffer_count c.image_buffer_count then rest else c

-- The second `while` of `image_buffer_cleanup`.
unfoldable pub cleanup_total : ℕ → Cache → Cache
cleanup_total zero c = c
cleanup_total (suc fuel) c =
    let step : Cache = elim c.image_buffers [
      | [] ↦ c
      | b ∷ bs ↦ cleanup_total fuel (free_image_buffer b c)
    ] in
    if ltb max_total_image_buffer_count c.image_buffer_count then step else c

unfoldable pub image_buffer_cleanup : Cache → Cache
image_buffer_cleanup c =
    let c' = cleanup_unused c.image_buffer_count c in cleanup_total c'.image_buffer_count c'

-- The results of the two calls of `malloc` in `new_image_buffer`: true if memory was had.
pub record Allocation : Type 0 where
  pub node : Bool
  pub filename : Bool

-- `none` is the null result. The list that a failure leaves is not kept: the only caller uses
-- the null result at once.
unfoldable pub new_image_buffer : Allocation → Bytes → Cache → Option (ImageBuffer × Cache)
new_image_buffer m path c =
    let c' = image_buffer_cleanup c in
    let b : ImageBuffer = record {
      address = c'.next_address;
      dng_filename = path;
      frame = empty_frame;
      in_use = false;
    } in
    let c'' : Cache = record {
      image_buffers = c'.image_buffers ++ b ∷ [];
      image_buffer_count = c'.image_buffer_count + 1;
      next_address = c'.next_address + 1;
    } in
    if m.node then (if m.filename then some (b, c'') else none) else none

-- A write through the pointer to the buffer with this address.
unfoldable pub update : ℕ → (ImageBuffer → ImageBuffer) → List ImageBuffer → List ImageBuffer
update a f [] = []
update a f (b ∷ bs) = if b.address == a then f b ∷ bs else b ∷ update a f bs

abbrev pub mark : Bool → ImageBuffer → ImageBuffer
mark u b = record b { in_use = u }

-- The part of `get_or_create_image_buffer` under `image_buffer_mutex`: the buffer, whether it was
-- created, and the cache. `none` is the write through a null pointer.
unfoldable pub find_or_create : Allocation → Bytes → Cache → Option (ImageBuffer × Bool × Cache)
find_or_create m path c = elim (get_image_buffer path c.image_buffers) [
  | some b ↦ some (b, false, c)
  | none ↦ elim (new_image_buffer m path c) [
    | none ↦ none
    | some (b, c') ↦ some (
      mark true b,
      true,
      record c' { image_buffers = update b.address (mark true) c'.image_buffers },
    )
  ]
]

-- `new_buffer_cbr`, run on a buffer with no image.
abbrev pub fill : (Bytes → Frame → Frame) → ImageBuffer → ImageBuffer
fill cbr b = record b { frame = cbr b.dng_filename b.frame }

-- The part under the buffer's own mutex.
unfoldable pub fill_if_empty :
    (Bytes → Frame → Frame) → ImageBuffer × Bool × Cache → ImageBuffer × Bool × Cache
fill_if_empty cbr (b, created, c) = elim b.frame.image_data [
  | some _ ↦ (b, created, c)
  | none ↦ (
    fill cbr b,
    created,
    record c { image_buffers = update b.address (fill cbr) c.image_buffers },
  )
]

unfoldable pub get_or_create_image_buffer :
    Allocation → (Bytes → Frame → Frame) → Bytes → Cache → Option (ImageBuffer × Bool × Cache)
get_or_create_image_buffer m cbr path c = elim (find_or_create m path c) [
  | none ↦ none
  | some r ↦ some (fill_if_empty cbr r)
]

-- Whether a buffer of the list has the address.
unfoldable pub held : ℕ → List ImageBuffer → Bool
held a [] = false
held a (b ∷ bs) = if b.address == a then true else held a bs

-- `release_image_buffer` by the buffer's address: `none` is the write through a pointer to a buffer
-- that was freed. `release_image_buffer_by_path` finds its buffer in the list.
unfoldable pub release_image_buffer : ℕ → Cache → Option Cache
release_image_buffer a c =
    if held a c.image_buffers
    then some (record c { image_buffers = update a (mark false) c.image_buffers })
    else none

unfoldable pub release_image_buffer_by_path : Bytes → Cache → Cache
release_image_buffer_by_path path c = elim (get_image_buffer path c.image_buffers) [
  | none ↦ c
  | some b ↦ record c { image_buffers = update b.address (mark false) c.image_buffers }
]
