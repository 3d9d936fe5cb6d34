-- ===== src/Dng/Entries.antt =====
-- A table that is filled says what its entries are to say, as long as the data area has room.
use mlvfs.Base.{
  ℕ, ◌+◌, ◌*◌, ◌%◌, ◌^◌, ◌≤◌, ◌<◌, ◌≡◌, refl, sym, ap, subst, ◌∙◌, false, List, [], ◌∷◌, length,
  length-append, arith, leb, Bytes, le_bytes, length-le_bytes, write_at, slice, IsBytes, take_all,
  length-write_at, slice-write_at_self, slice-write_at_before,
}
use mlvfs.Dng.{
  DirectoryEntry, Output, Item, value_entry, string_entry, rational_entry, rational_entry2,
  array_entry, timecode_entry, array_bytes, add_bytes,
}
use mlvfs.Dng.Tiff.{type_size, field_of, read_field, field}

-- What an item must be for an entry to hold it.
unfoldable pub Fits : Item → Type 0
Fits (value_entry tag t count value) =
    (tag < 65536) × (t < 65536) × (count < 2 ^ 32) × (value < 2 ^ 32) × (count * type_size t ≤ 4)
Fits (string_entry tag str) = (tag < 65536) × IsBytes str × (length str + 1 < 2 ^ 32)
Fits (rational_entry tag t array) =
    (tag < 65536)
    × (t < 65536)
    × (type_size t ≡ 8)
    × (length array % 2 ≡ 0)
    × (2 ≤ length array)
    × (length array < 2 ^ 32)
Fits (rational_entry2 tag t n d) = (tag < 65536) × (t < 65536) × (type_size t ≡ 8)
Fits (array_entry tag t array) =
    (tag < 65536) × (t < 65536) × (type_size t ≡ 4) × (2 ≤ length array) × (length array < 2 ^ 32)
Fits (timecode_entry tag t tc) = (tag < 65536) × (t < 65536) × (type_size t ≡ 1) × (length tc ≡ 8)

-- The most that an item takes of the data area.
unfoldable pub room : Item → ℕ
room (value_entry tag t count value) = 0
room (string_entry tag str) = length str + 2
room (rational_entry tag t array) = 4 * length array
room (rational_entry2 tag t n d) = 8
room (array_entry tag t array) = 4 * length array
room (timecode_entry tag t tc) = 8

unfoldable pub room_all : List Item → ℕ
room_all [] = 0
room_all (item ∷ items) = room item + room_all items

pub record IsEntry (e : DirectoryEntry) : Type 0 where
  pub tag_fits : e.tag < 65536
  pub tag_type_fits : e.tag_type < 65536
  pub count_fits : e.count < 2 ^ 32
  pub value_fits : e.value < 2 ^ 32

-- Two buffers that hold the same bytes between two offsets.
abbrev pub Agree : Bytes → Bytes → ℕ → ℕ → Type 0
Agree h b lo hi = (i n : ℕ) → lo ≤ i → i + n ≤ hi → slice h i n ≡ slice b i n

-- The data area between two outputs: what stood before is kept.
pub record Grows (o o' : Output) (most : ℕ) : Type 0 where
  pub starts : o.data_offset ≤ o'.data_offset
  pub ends : o'.data_offset ≤ o.data_offset + most
  pub length_kept : length o'.header ≡ length o.header
  pub before_kept : Agree o'.header o.header 0 o.data_offset

pub record Adds (item : Item) (o : Output) (e : DirectoryEntry) (o' : Output) : Type 0 where
  pub grows : Grows o o' (room item)
  pub is_entry : IsEntry e
  pub reads :
      (h : Bytes) → Agree h o'.header o.data_offset o'.data_offset → read_field h e ≡ field item

pub length-array_bytes : (array : List ℕ) → length (array_bytes array) ≡ 4 * length array
unfolding array_bytes
length-array_bytes [] = refl
length-array_bytes (a ∷ rest) = omega (
  arith,
  length-append (le_bytes 4 a) (array_bytes rest),
  length-le_bytes 4 a,
  length-array_bytes rest,
)

slice_whole : (bs : Bytes) → slice bs 0 (length bs) ≡ bs
unfolding slice
slice_whole bs = take_all bs

pub add_bytes-Grows :
    (bs : Bytes) (o : Output)
    → o.data_offset + length bs ≤ length o.header
    → Grows o (add_bytes bs o) (length bs)
unfolding add_bytes
add_bytes-Grows bs o h = record {
  starts = omega arith;
  ends = omega arith;
  length_kept = length-write_at o.header o.data_offset bs h;
  before_kept = λ i n lo hi. slice-write_at_before o.header o.data_offset bs i n (omega arith) hi;
}

-- The data that an entry points to.
pub add_bytes-reads :
    (bs : Bytes) (o : Output) (h : Bytes) (hi : ℕ)
    → o.data_offset + length bs ≤ length o.header
    → o.data_offset + length bs ≤ hi
    → Agree h (add_bytes bs o).header o.data_offset hi
    → slice h o.data_offset (length bs) ≡ bs
unfolding add_bytes
add_bytes-reads bs o h hi fits inside agree =
    let e : o.data_offset + 0 ≡ o.data_offset = omega arith in
    let stored : slice (write_at o.header o.data_offset bs) (o.data_offset + 0) (length bs)
        ≡ slice bs 0 (length bs) =
      slice-write_at_self o.header o.data_offset bs 0 (length bs) (omega arith) (omega arith) in
    agree o.data_offset (length bs) (omega arith) inside
    ∙ ap (λ (p : ℕ). slice (write_at o.header o.data_offset bs) p (length bs)) (sym e)
    ∙ stored
    ∙ slice_whole bs

-- An entry whose values do not fit it.
pub far_field :
    (h bs : Bytes) (e : DirectoryEntry)
    → 4 < length bs
    → e.count * type_size e.tag_type ≡ length bs
    → slice h e.value (length bs) ≡ bs
    → read_field h e ≡ field_of e.tag e.tag_type bs
unfolding read_field
far_field h bs e far size stored =
    let no : leb (length bs) 4 ≡ false = ground arith in rw (size, no, stored) refl

pub add_bytes-Adds :
    (item : Item) (o : Output) (bs : Bytes) (e : DirectoryEntry)
    → length bs ≡ room item
    → o.data_offset + length bs ≤ length o.header
    → 4 < length bs
    → IsEntry e
    → e.count * type_size e.tag_type ≡ length bs
    → e.value ≡ o.data_offset
    → field item ≡ field_of e.tag e.tag_type bs
    → Adds item o e (add_bytes bs o)
add_bytes-Adds item o bs e most fits far entry size value says = record {
  grows = subst (Grows o (add_bytes bs o)) most (add_bytes-Grows bs o fits);
  is_entry = entry;
  reads = λ h agree.
      far_field h bs e far size (
        ap (λ (p : ℕ). slice h p (length bs)) value
        ∙ add_bytes-reads bs o h (add_bytes bs o).data_offset fits (unfold add_bytes in omega arith)
            agree)
      ∙ sym says;
}
