-- ===== src/Dng/Filled.antt =====
-- Each kind of entry, and a whole table.
use mlvfs.Base.{
  ℕ, suc, ◌*◌, ◌/◌, ◌^◌, ◌≤◌, ◌<◌, ◌≡◌, refl, sym, ap, ap₂, subst, ◌∙◌, List, [], ◌∷◌, ◌++◌, map,
  length, length-append, All, arith, Bytes, le_bytes, write_at-write_at,
}
use mlvfs.Dng.{
  DirectoryEntry, Output, Item, value_entry, string_entry, rational_entry, rational_entry2,
  array_entry, timecode_entry, entry_of, array_bytes, add_bytes, add_array, add_rational,
  add_timecode, directory_entry, directory_entries,
}
use mlvfs.Dng.Tiff.{type_size, Field, field_of, read_field, contents, field}
use mlvfs.Dng.Entries.{
  Fits, room, room_all, IsEntry, Agree, Grows, Adds, length-array_bytes, add_bytes-Adds,
}
use mlvfs.Dng.Texts.{HasRoom, value_entry-Adds, string_entry-Adds}

array-Adds :
    (item : Item) (o : Output) (array : List ℕ) (e : DirectoryEntry)
    → length array * 4 ≡ room item
    → HasRoom o (room item)
    → 2 ≤ length array
    → e.tag < 65536
    → e.tag_type < 65536
    → e.count < 2 ^ 32
    → e.count * type_size e.tag_type ≡ 4 * length array
    → e.value ≡ o.data_offset
    → field item ≡ field_of e.tag e.tag_type (array_bytes array)
    → Adds item o e (add_bytes (array_bytes array) o)
array-Adds item o array e all r two tag t count size value says =
    let l = length-array_bytes array in
    add_bytes-Adds item o (array_bytes array) e (omega (arith, l)) (omega (arith, l, r.enough))
      (omega (arith, l))
      (record {
        tag_fits = tag;
        tag_type_fits = t;
        count_fits = count;
        value_fits = omega (arith, value, r.enough, r.short);
      })
      (omega (arith, l)) value says

abbrev output_of : Bytes → ℕ → Output
output_of header data_offset = record { header = header; data_offset = data_offset }

two_words :
    (n d : ℕ) (o : Output)
    → add_bytes (le_bytes 4 n ++ le_bytes 4 d) o
      ≡ add_bytes (le_bytes 4 d) (add_bytes (le_bytes 4 n) o)
unfolding add_bytes
two_words n d o =
    let joined = write_at-write_at o.header o.data_offset (le_bytes 4 n) (le_bytes 4 d) in
    let l = length-append (le_bytes 4 n) (le_bytes 4 d) in
    ap₂ output_of (sym joined) (omega (arith, l))

directory_entry-Adds :
    (item : Item) (o : Output)
    → Fits item
    → HasRoom o (room item)
    → let r = directory_entry item o in Adds item o r.0 r.1
unfolding directory_entry Fits room field contents
directory_entry-Adds (value_entry tag t count value) o f r = value_entry-Adds tag t count value o f
directory_entry-Adds (string_entry tag str) o f r = string_entry-Adds tag str o f r
directory_entry-Adds (rational_entry tag t array) o f r =
    unfold add_array in
    array-Adds (rational_entry tag t array) o array _ (omega arith) r f.4 f.0 f.1
      (omega (arith, f.5)) (omega (arith, f.3, ap (λ (s : ℕ). length array / 2 * s) f.2)) refl refl
directory_entry-Adds (rational_entry2 tag t n d) o f r =
    let joined : add_bytes (le_bytes 4 n ++ le_bytes 4 d) o
        ≡ add_bytes (le_bytes 4 d) (add_bytes (le_bytes 4 n) o) =
      two_words n d o in
    let l : length (le_bytes 4 n ++ le_bytes 4 d) ≡ 8 = unfold le_bytes in refl in
    unfold add_rational in
    subst (Adds (rational_entry2 tag t n d) o (entry_of tag t 1 o.data_offset)) joined (
      add_bytes-Adds (rational_entry2 tag t n d) o (le_bytes 4 n ++ le_bytes 4 d) _ l
        (omega (arith, l, r.enough)) (omega (arith, l))
        (record {
          tag_fits = f.0;
          tag_type_fits = f.1;
          count_fits = omega arith;
          value_fits = omega (arith, r.enough, r.short);
        })
        (omega (arith, l, f.2)) refl refl)
directory_entry-Adds (array_entry tag t array) o f r =
    unfold add_array in
    array-Adds (array_entry tag t array) o array _ (omega arith) r f.3 f.0 f.1 f.4
      (omega (arith, ap (λ (s : ℕ). length array * s) f.2)) refl refl
directory_entry-Adds (timecode_entry tag t tc) o f r =
    unfold add_timecode in
    add_bytes-Adds (timecode_entry tag t tc) o tc _ f.3 (omega (arith, f.3, r.enough))
      (omega (arith, f.3))
      (record {
        tag_fits = f.0;
        tag_type_fits = f.1;
        count_fits = omega arith;
        value_fits = omega (arith, r.enough, r.short);
      })
      (omega (arith, f.2, f.3)) refl refl

-- A table whose entries say what they are to say, wherever the data area is kept.
pub record Fills (items : List Item) (o : Output) (es : List DirectoryEntry) (o' : Output)
    : Type 0 where
  pub grows : Grows o o' (room_all items)
  pub are_entries : All IsEntry es
  pub as_many : length es ≡ length items
  pub reads :
      (h : Bytes)
      → Agree h o'.header o.data_offset o'.data_offset
      → map (read_field h) es ≡ map field items

pub directory_entries-Fills :
    (items : List Item) (o : Output)
    → All Fits items
    → HasRoom o (room_all items)
    → let r = directory_entries items o in Fills items o r.0 r.1
unfolding directory_entries room_all
directory_entries-Fills [] o f r = record {
  grows = record {
    starts = omega arith;
    ends = omega arith;
    length_kept = refl;
    before_kept = λ i n lo hi. refl;
  };
  are_entries = tt;
  as_many = refl;
  reads = λ h agree. refl;
}
directory_entries-Fills (item ∷ items) o f r =
    let e = directory_entry item o in
    let first : Adds item o e.0 e.1 =
      directory_entry-Adds item o f.0
        (record { enough = omega (arith, r.enough); short = r.short }) in
    let g = first.grows in
    let rest : Fills items e.1 (directory_entries items e.1).0 (directory_entries items e.1).1 =
      directory_entries-Fills items e.1 f.1 (record {
        enough = omega (arith, r.enough, g.ends, g.length_kept);
        short = omega (arith, r.short, g.length_kept);
      }) in
    let g' = rest.grows in
    record {
      grows = record {
        starts = omega (arith, g.starts, g'.starts);
        ends = omega (arith, g.ends, g'.ends);
        length_kept = g'.length_kept ∙ g.length_kept;
        before_kept =
            λ i n lo hi. g'.before_kept i n lo (omega (arith, g.starts)) ∙ g.before_kept i n lo hi;
      };
      are_entries = (first.is_entry, rest.are_entries);
      as_many = ap suc rest.as_many;
      reads = λ h agree.
          ap₂ (λ (x : Field) (xs : List Field). x ∷ xs)
            (first.reads h (λ i n lo hi.
              agree i n lo (omega (arith, g'.starts)) ∙ g'.before_kept i n (omega arith) hi))
            (rest.reads h (λ i n lo hi. agree i n (omega (arith, g.starts)) hi));
    }
