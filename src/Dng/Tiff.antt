-- ===== src/Dng/Tiff.antt =====
-- What a reader of TIFF files finds in a file, told by the TIFF 6.0 description of it.
use mlvfs.Base.{
  ℕ, zero, suc, ◌+◌, ◌*◌, Option, none, some, List, [], ◌∷◌, ◌++◌, map, take, drop, leb, ◌==◌, ◌&&◌,
  ◌||◌, if◌then◌else◌, Bytes, le_value, le_bytes, slice,
}
use mlvfs.Dng.{
  DirectoryEntry, Item, value_entry, string_entry, rational_entry, rational_entry2, array_entry,
  timecode_entry, entry_of, array_bytes,
}
use mlvfs.Dng.Tags.{
  tt_byte, tt_ascii, tt_short, tt_long, tt_rational, tt_undefined, tt_s_rational, tc_exif_ifd,
}

-- How many bytes one value of a type takes.
unfoldable pub type_size : ℕ → ℕ
type_size t =
    if t == tt_byte || (t == tt_ascii || t == tt_undefined)
    then 1
    else if t == tt_short
    then 2
    else if t == tt_long
    then 4
    else if t == tt_rational || t == tt_s_rational
    then 8
    else 0

-- What a directory says under a tag.
pub record Field : Type 0 where
  pub tag : ℕ
  pub tag_type : ℕ
  pub contents : Bytes

abbrev pub field_of : ℕ → ℕ → Bytes → Field
field_of tag tag_type contents = record { tag = tag; tag_type = tag_type; contents = contents }

-- Values of up to 4 bytes stand in the entry, and others at the offset that it holds.
unfoldable pub read_field : Bytes → DirectoryEntry → Field
read_field h e =
    let n = e.count * type_size e.tag_type in
    field_of e.tag e.tag_type (if leb n 4 then take n (le_bytes 4 e.value) else slice h e.value n)

unfoldable pub read_entry : Bytes → DirectoryEntry
read_entry bs =
    entry_of (le_value (slice bs 0 2)) (le_value (slice bs 2 2)) (le_value (slice bs 4 4))
      (le_value (slice bs 8 4))

unfoldable pub read_entries : ℕ → Bytes → List DirectoryEntry
read_entries zero bs = []
read_entries (suc n) bs = read_entry (take 12 bs) ∷ read_entries n (drop 12 bs)

-- The fields of the directory at an offset.
unfoldable pub read_ifd : Bytes → ℕ → List Field
read_ifd h offset =
    let n = le_value (slice h offset 2) in
    map (read_field h) (read_entries n (slice h (offset + 2) (12 * n)))

-- The value of a tag.
unfoldable pub find_field : ℕ → List Field → Option Bytes
find_field t [] = none
find_field t (f ∷ fs) = if f.tag == t then some f.contents else find_field t fs

-- The first directory of a little-endian file, and the one that its Exif tag points to.
unfoldable pub read_tiff : Bytes → Option (List Field × List Field)
read_tiff h =
    let first = read_ifd h (le_value (slice h 4 4)) in
    if le_value (slice h 0 2) == 18761 && le_value (slice h 2 2) == 42
    then elim (find_field tc_exif_ifd first) [
      | none ↦ none
      | some offset ↦ some (first, read_ifd h (le_value offset))
    ]
    else none

-- What an entry is to say.
unfoldable pub contents : Item → Bytes
contents (value_entry tag t count value) = take (count * type_size t) (le_bytes 4 value)
contents (string_entry tag str) = str ++ zero ∷ []
contents (rational_entry tag t array) = array_bytes array
contents (rational_entry2 tag t numerator denominator) =
    le_bytes 4 numerator ++ le_bytes 4 denominator
contents (array_entry tag t array) = array_bytes array
contents (timecode_entry tag t tc) = tc

unfoldable pub field : Item → Field
field (value_entry tag t count value) = field_of tag t (contents (value_entry tag t count value))
field (string_entry tag str) = field_of tag tt_ascii (contents (string_entry tag str))
field (rational_entry tag t array) = field_of tag t (contents (rational_entry tag t array))
field (rational_entry2 tag t numerator denominator) =
    field_of tag t (contents (rational_entry2 tag t numerator denominator))
field (array_entry tag t array) = field_of tag t (contents (array_entry tag t array))
field (timecode_entry tag t tc) = field_of tag t (contents (timecode_entry tag t tc))
