-- ===== src/Unpack.antt =====
-- The unpacking of raw pixels by mlvfs/dng.c, and `get_image_data` of mlvfs/main.c for frames that
-- are not compressed.
pub mod Pixel
pub mod Image
pub mod Compressed
pub mod Untile
pub mod Pixels
pub mod Frames
mod Tests
use mlvfs.Base.{
  ℕ, zero, suc, ◌+◌, ◌-◌, ◌*◌, ◌/◌, ◌%◌, ◌^◌, Option, none, some, List, [], ◌∷◌, ◌++◌, get_or,
  Bytes, le_value, le_bytes, slice, write_at, replicate, length, take, drop, ◌==◌, if◌then◌else◌,
}
use mlvfs.Headers.{sizeof_mlv_vidf_hdr}

-- `ROR(v, a)` on 32 bits. The shifts take their amount modulo 32, as on the processors that the
-- program is built for.
unfoldable pub ror : ℕ → ℕ → ℕ
ror v a = v / 2 ^ (a % 32) + v * 2 ^ (32 - a % 32) % 2 ^ 32

-- The pixel in two words from the bit `bits_shift` on.
unfoldable pub fetch_pixel : ℕ → ℕ → ℕ → ℕ → ℕ
fetch_pixel bpp bits_shift low high =
    let rotate_value = 16 + ((32 - bpp) - bits_shift) in
    let uncorrected_data = low + 65536 * high in ror uncorrected_data rotate_value % 2 ^ bpp

-- The body of the loop at `dng_pixel_index`. A word behind the buffer reads 0 here.
unfoldable pub unpack_pixel : ℕ → ℕ → List ℕ → ℕ → ℕ
unpack_pixel bpp pixel_start_address packed_bits dng_pixel_index =
    let bits_offset = dng_pixel_index * bpp % 2 ^ 32 in
    let bits_address = bits_offset / 16 - pixel_start_address in
    fetch_pixel bpp (bits_offset % 16) (get_or packed_bits bits_address 0)
      (get_or packed_bits (bits_address + 1) 0)

-- The loop from `dng_pixel_index`, with `n` pixels left.
unfoldable pub unpack_pixels : ℕ → ℕ → List ℕ → ℕ → ℕ → List ℕ
unpack_pixels bpp pixel_start_address packed_bits dng_pixel_index zero = []
unpack_pixels bpp pixel_start_address packed_bits dng_pixel_index (suc n) =
    unpack_pixel bpp pixel_start_address packed_bits dng_pixel_index
    ∷ unpack_pixels bpp pixel_start_address packed_bits (dng_pixel_index + 1) n

-- The 16-bit words of a buffer, and back.
unfoldable pub words_of : ℕ → Bytes → List ℕ
words_of zero bs = []
words_of (suc n) bs = le_value (slice bs 0 2) ∷ words_of n (drop 2 bs)

unfoldable pub bytes_of : List ℕ → Bytes
bytes_of [] = []
bytes_of (w ∷ ws) = le_bytes 2 w ++ bytes_of ws

-- The buffer after the call, for offsets that are not negative. The number of bits per pixel is
-- that of the RAWI header; the cases for 8, 10, 12 and 14 are the same code.
unfoldable pub dng_get_image_data : ℕ → List ℕ → Bytes → ℕ → ℕ → Bytes
dng_get_image_data bpp packed_bits output_buffer offset max_size =
    let pixel_start_index = offset % 2 ^ 32 / 2 in
    let pixel_start_address = pixel_start_index * bpp % 2 ^ 32 / 16 in
    write_at output_buffer (offset % 2) (
      bytes_of (unpack_pixels bpp pixel_start_address packed_bits pixel_start_index (max_size / 2)))

-- `packed_size`, in words.
unfoldable pub packed_size : ℕ → ℕ → ℕ
packed_size bpp max_size = (max_size / 2 + 2) * bpp / 16

-- A frame as it is stored: its position, `frameSpace` of its VIDF header and the bits per pixel.
pub record StoredFrame : Type 0 where
  pub position : ℕ
  pub frame_space : ℕ
  pub bits_per_pixel : ℕ

-- What `fread` leaves in the buffer of zeros that `calloc` gives.
unfoldable pub read_packed : Bytes → ℕ → ℕ → List ℕ
read_packed file position n =
    let got = slice file position (n * 2) in words_of n (got ++ replicate (n * 2 - length got) 0)

-- The result and the buffer, for a frame that is not compressed. Memory is at hand.
unfoldable pub get_image_data : StoredFrame → Bytes → Bytes → ℕ → ℕ → ℕ × Bytes
get_image_data f file output_buffer offset max_size =
    let bpp = f.bits_per_pixel in
    let pixel_start_address = offset / 2 * bpp / 16 in
    let position = f.position + f.frame_space + sizeof_mlv_vidf_hdr + pixel_start_address * 2 in
    let packed_bits = read_packed file position (packed_size bpp max_size) in
    (max_size, dng_get_image_data bpp packed_bits output_buffer offset max_size)
