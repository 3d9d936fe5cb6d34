-- ===== src/Dng/RoundTrip.antt =====
-- The header that mlvfs/dng.c makes is read back by a reader of TIFF files.
use mlvfs.Base.{
  ℕ, ◌+◌, ◌*◌, ◌≤◌, ◌≡◌, sym, ap, ◌∙◌, List, map, length, length-replicate, All, arith, Bytes,
  le_bytes, write_at, slice, length-write_at, slice-write_at_self, slice-write_at_before,
  slice-write_at_after,
}
use mlvfs.Dng.{DirectoryEntry, Output, Item, tiff_header, directory_entries, add_ifd}
use mlvfs.Dng.Build.{blank_header, dng_header, first_data_offset}
use mlvfs.Dng.Tiff.{read_ifd, field}
use mlvfs.Dng.Entries.{Fits, room_all, Agree}
use mlvfs.Dng.Filled.{Fills, directory_entries-Fills}
use mlvfs.Dng.Directory.{
  directory_bytes, length-directory_bytes, add_ifd_lem, read_ifd-directory_bytes,
}

-- Two directories side by side in a buffer, behind its first eight bytes.
record Holds (h b : Bytes) (first second : List DirectoryEntry) : Type 0 where
  length_kept : length h ≡ length b
  start_kept : Agree h b 0 8
  area_kept : (i n : ℕ) → first_data_offset ≤ i → slice h i n ≡ slice b i n
  first_held :
      (i n : ℕ)
      → i + n ≤ 6 + 12 * length first
      → slice h (8 + i) n ≡ slice (directory_bytes first 0) i n
  second_held :
      (i n : ℕ)
      → i + n ≤ 6 + 12 * length second
      → slice h (506 + i) n ≡ slice (directory_bytes second 0) i n

write_both :
    (b : Bytes) (first second : List DirectoryEntry)
    → length b ≡ 65536
    → length first ≡ 41
    → length second ≡ 11
    → let r = add_ifd first 0 8 b in Holds (add_ifd second 0 r.0 r.1).1 b first second
write_both b first second size few fewer =
    let d1 = directory_bytes first 0 in
    let d2 = directory_bytes second 0 in
    let l1 : length d1 ≡ 498 = omega (arith, length-directory_bytes first 0) in
    let l2 : length d2 ≡ 138 = omega (arith, length-directory_bytes second 0) in
    let p : 8 + 6 + 12 * length first ≡ 506 = omega arith in
    let b1 = write_at b 8 d1 in
    let s1 : length b1 ≡ 65536 = length-write_at b 8 d1 (omega arith) ∙ size in
    rw (add_ifd_lem first 0 8 b, p, add_ifd_lem second 0 506 b1)
      record {
        length_kept =
            length-write_at b1 506 d2 (omega arith) ∙ length-write_at b 8 d1 (omega arith);
        start_kept = λ i n lo hi.
            slice-write_at_before b1 506 d2 i n (omega arith) (omega arith)
            ∙ slice-write_at_before b 8 d1 i n (omega arith) hi;
        area_kept = λ i n lo.
            slice-write_at_after b1 506 d2 i n (omega arith) (omega arith)
            ∙ slice-write_at_after b 8 d1 i n (omega arith) (omega arith);
        first_held = λ i n hi.
            slice-write_at_before b1 506 d2 (8 + i) n (omega arith) (omega arith)
            ∙ slice-write_at_self b 8 d1 i n (omega arith) (omega arith);
        second_held = λ i n hi. slice-write_at_self b1 506 d2 i n (omega arith) (omega arith);
      }

length-blank_header : length blank_header ≡ 65536
unfolding blank_header
length-blank_header = length-replicate {A = ℕ} 65536 0

abbrev start : Output
start = record { header = write_at blank_header 0 tiff_header; data_offset = first_data_offset }

length-start : length start.header ≡ 65536
unfolding tiff_header le_bytes
length-start =
    length-write_at blank_header 0 tiff_header (omega (arith, length-blank_header))
    ∙ length-blank_header

start_holds : (i n : ℕ) → i + n ≤ 8 → slice start.header i n ≡ slice tiff_header i n
unfolding tiff_header le_bytes
start_holds i n h =
    let e : 0 + i ≡ i = omega arith in
    ap (λ (k : ℕ). slice start.header k n) (sym e)
    ∙ slice-write_at_self blank_header 0 tiff_header i n (omega arith) (omega arith)

-- What a reader finds in a header: the start of the file, and the fields of both directories.
pub record ReadsBack (h : Bytes) (first second : List Item) : Type 0 where
  pub length_whole : length h ≡ 65536
  pub file_start : (i n : ℕ) → i + n ≤ 8 → slice h i n ≡ slice tiff_header i n
  pub at_first : read_ifd h 8 ≡ map field first
  pub at_second : read_ifd h 506 ≡ map field second

pub dng_header-ReadsBack :
    (first second : List Item)
    → All Fits first
    → All Fits second
    → length first ≡ 41
    → length second ≡ 11
    → room_all first + room_all second + first_data_offset ≤ 65536
    → ReadsBack (dng_header first second) first second
unfolding dng_header
dng_header-ReadsBack first second fit1 fit2 few fewer enough =
    let r1 = directory_entries first start in
    let f1 : Fills first start r1.0 r1.1 =
      directory_entries-Fills first start fit1
        (record { enough = omega (arith, length-start); short = omega (arith, length-start) }) in
    let g1 = f1.grows in
    let s1 : length r1.1.header ≡ 65536 = g1.length_kept ∙ length-start in
    let r2 = directory_entries second r1.1 in
    let f2 : Fills second r1.1 r2.0 r2.1 =
      directory_entries-Fills second r1.1 fit2
        (record { enough = omega (arith, s1, g1.ends); short = omega (arith, s1) }) in
    let g2 = f2.grows in
    let s2 : length r2.1.header ≡ 65536 = g2.length_kept ∙ s1 in
    let n1 : length r1.0 ≡ 41 = f1.as_many ∙ few in
    let n2 : length r2.0 ≡ 11 = f2.as_many ∙ fewer in
    let w = write_both r2.1.header r1.0 r2.0 s2 n1 n2 in
    let p1 = add_ifd r1.0 0 8 r2.1.header in
    let h = (add_ifd r2.0 0 p1.0 p1.1).1 in
    record {
      length_whole = w.length_kept ∙ s2;
      file_start = λ i n hi.
          w.start_kept i n (omega arith) hi
          ∙ g2.before_kept i n (omega arith) (omega (arith, g1.starts))
          ∙ g1.before_kept i n (omega arith) (omega arith)
          ∙ start_holds i n hi;
      at_first =
          read_ifd-directory_bytes h 8 0 r1.0 f1.are_entries (omega arith) w.first_held
          ∙ f1.reads h (λ i n lo hi. w.area_kept i n lo ∙ g2.before_kept i n (omega arith) hi);
      at_second =
          read_ifd-directory_bytes h 506 0 r2.0 f2.are_entries (omega arith) w.second_held
          ∙ f2.reads h (λ i n lo hi. w.area_kept i n (omega (arith, g1.starts)));
    }
