-- ===== src/Dng.antt =====
-- The entries of a DNG file's directories, and the area behind them that holds what does not fit
-- an entry: `add_array`, `add_string`, `add_rational`, `add_timecode` and `add_ifd` of
-- mlvfs/dng.c. A 32-bit integer, signed or not, is written by its value modulo 2 ^ 32.
pub mod Tags
pub mod Cameras
pub mod Focal
pub mod Integers
pub mod Header
pub mod Build
pub mod Writable
pub mod Tables
pub mod RoundTrip
pub mod Reader
pub mod DateFits
pub mod DateTime
pub mod Tiff
mod Tests
pub mod Entries
pub mod Texts
pub mod Filled
pub mod Directory
use mlvfs.Base.{
  ℕ, zero, suc, ◌+◌, ◌*◌, ◌/◌, ◌%◌, ◌^◌, List, [], ◌∷◌, ◌++◌, length, replicate, leb, ltb, ◌==◌,
  if◌then◌else◌, Bytes, le_value, le_bytes, write_at,
}
use mlvfs.Dng.Tags.{byte_order_ii, magic_tiff, tt_ascii}

-- `tiff_header`, as it stands in memory.
unfoldable pub tiff_header : Bytes
tiff_header = le_bytes 2 byte_order_ii ++ (le_bytes 2 magic_tiff ++ (le_bytes 2 8 ++ le_bytes 2 0))

-- `struct directory_entry`.
pub record DirectoryEntry : Type 0 where
  pub tag : ℕ
  pub tag_type : ℕ
  pub count : ℕ
  pub value : ℕ

-- The buffer of the header, and where its next data goes.
pub record Output : Type 0 where
  pub header : Bytes
  pub data_offset : ℕ

-- The bytes of an array of 32-bit integers.
unfoldable pub array_bytes : List ℕ → Bytes
array_bytes [] = []
array_bytes (a ∷ rest) = le_bytes 4 a ++ array_bytes rest

-- The bytes at the data offset, which moves behind them.
unfoldable pub add_bytes : Bytes → Output → Output
add_bytes bs o = record {
  header = write_at o.header o.data_offset bs;
  data_offset = o.data_offset + length bs;
}

-- The value of the entry that points to the data stands beside what becomes of the buffer.
unfoldable pub add_array : List ℕ → Output → ℕ × Output
add_array array o = (o.data_offset, add_bytes (array_bytes array) o)

-- A string that fits 4 bytes with its terminator stands in the entry itself.
unfoldable pub add_string : Bytes → Output → ℕ × Output
add_string str o =
    let text = str ++ zero ∷ [] in
    let o' = add_bytes text o in
    if leb (length text) 4
    then (le_value text, o)
    else (o.data_offset, record o' { data_offset = o'.data_offset + o'.data_offset % 2 })

unfoldable pub add_rational : ℕ → ℕ → Output → ℕ × Output
add_rational numerator denominator o =
    (o.data_offset, add_bytes (le_bytes 4 denominator) (add_bytes (le_bytes 4 numerator) o))

-- Of a number that is not negative: a byte.
unfoldable pub to_tc_byte : ℕ → ℕ
to_tc_byte v = (v / 10 * 16 + v % 10) % 256

-- The four bytes of a time code, of numbers that are not negative, and the four behind them.
unfoldable pub timecode : ℕ → ℕ → ℕ → ℕ → Bytes
timecode hours minutes seconds frames =
    (to_tc_byte frames % 64)
    ∷ (to_tc_byte seconds % 128)
    ∷ (to_tc_byte minutes % 128)
    ∷ (to_tc_byte hours % 64)
    ∷ replicate 4 0

unfoldable pub add_timecode : Bytes → Output → ℕ × Output
add_timecode tc o = (o.data_offset, add_bytes tc o)

-- An entry of the two tables, as the macros make it.
pub data Item : Type 0 where
  value_entry : (tag tag_type count value : ℕ) → Item
  string_entry : (tag : ℕ) (str : Bytes) → Item
  rational_entry : (tag tag_type : ℕ) (array : List ℕ) → Item
  rational_entry2 : (tag tag_type numerator denominator : ℕ) → Item
  array_entry : (tag tag_type : ℕ) (array : List ℕ) → Item
  timecode_entry : (tag tag_type : ℕ) (tc : Bytes) → Item

abbrev pub entry_of : ℕ → ℕ → ℕ → ℕ → DirectoryEntry
entry_of tag tag_type count value = record {
  tag = tag;
  tag_type = tag_type;
  count = count;
  value = value;
}

unfoldable pub directory_entry : Item → Output → DirectoryEntry × Output
directory_entry (value_entry tag t count value) o = (entry_of tag t count value, o)
directory_entry (string_entry tag str) o =
    let r = add_string str o in (entry_of tag tt_ascii (length str + 1) r.0, r.1)
directory_entry (rational_entry tag t array) o =
    let r = add_array array o in (entry_of tag t (length array / 2) r.0, r.1)
directory_entry (rational_entry2 tag t numerator denominator) o =
    let r = add_rational numerator denominator o in (entry_of tag t 1 r.0, r.1)
directory_entry (array_entry tag t array) o =
    let r = add_array array o in (entry_of tag t (length array) r.0, r.1)
directory_entry (timecode_entry tag t tc) o =
    let r = add_timecode tc o in (entry_of tag t 8 r.0, r.1)

-- A table is filled from its first entry on.
unfoldable pub directory_entries : List Item → Output → List DirectoryEntry × Output
directory_entries [] o = ([], o)
directory_entries (item ∷ items) o =
    let r = directory_entry item o in
    let rest = directory_entries items r.1 in (r.0 ∷ rest.0, rest.1)

-- `struct directory_entry` in memory.
unfoldable pub directory_entry_bytes : DirectoryEntry → Bytes
directory_entry_bytes e =
    le_bytes 2 e.tag ++ (le_bytes 2 e.tag_type ++ (le_bytes 4 e.count ++ le_bytes 4 e.value))

unfoldable pub ifd_bytes : List DirectoryEntry → Bytes
ifd_bytes [] = []
ifd_bytes (e ∷ es) = directory_entry_bytes e ++ ifd_bytes es

-- The position behind the directory, and the buffer.
unfoldable pub add_ifd : List DirectoryEntry → ℕ → ℕ → Bytes → ℕ × Bytes
add_ifd ifd next_ifd_offset position header =
    let counted = write_at header position (le_bytes 2 (length ifd)) in
    let listed = write_at counted (position + 2) (ifd_bytes ifd) in
    let end = position + 2 + 12 * length ifd in
    (end + 4, write_at listed end (le_bytes 4 next_ifd_offset))
