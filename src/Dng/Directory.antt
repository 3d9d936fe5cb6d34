-- ===== src/Dng/Directory.antt =====
-- A directory that is written can be read.
use mlvfs.Base.{
  ℕ, ◌+◌, ◌*◌, ◌≤◌, ◌<◌, ◌≡◌, refl, sym, ap, ap₂, ◌∙◌, List, [], ◌∷◌, ◌++◌, map, take, drop, length,
  length-append, All, arith, Bytes, le_value, le_bytes, length-le_bytes, le_value-le_bytes,
  write_at, write_at-write_at, slice, slice-append, take-append, drop-append, append_assoc,
}
use mlvfs.Dng.{DirectoryEntry, directory_entry_bytes, ifd_bytes, add_ifd}
use mlvfs.Dng.Tiff.{read_field, read_entry, read_entries, read_ifd}
use mlvfs.Dng.Entries.{IsEntry}

length-directory_entry_bytes : (e : DirectoryEntry) → length (directory_entry_bytes e) ≡ 12
unfolding directory_entry_bytes le_bytes
length-directory_entry_bytes e = refl

pub length-ifd_bytes : (es : List DirectoryEntry) → length (ifd_bytes es) ≡ 12 * length es
unfolding ifd_bytes
length-ifd_bytes [] = refl
length-ifd_bytes (e ∷ es) = omega (
  arith,
  length-append (directory_entry_bytes e) (ifd_bytes es),
  length-directory_entry_bytes e,
  length-ifd_bytes es,
)

-- Four fields side by side.
abbrev joined : Bytes → Bytes → Bytes → Bytes → Bytes
joined a b c d = a ++ (b ++ (c ++ d))

read_entry-directory_entry_bytes :
    (e : DirectoryEntry) → IsEntry e → read_entry (directory_entry_bytes e) ≡ e
unfolding read_entry directory_entry_bytes
read_entry-directory_entry_bytes e h =
    let a = le_bytes 2 e.tag in
    let b = le_bytes 2 e.tag_type in
    let c = le_bytes 4 e.count in
    let d = le_bytes 4 e.value in
    let tag : slice (joined a b c d) 0 2 ≡ a = unfold slice le_bytes in refl in
    let tag_type : slice (joined a b c d) 2 2 ≡ b = unfold slice le_bytes in refl in
    let count : slice (joined a b c d) 4 4 ≡ c = unfold slice le_bytes in refl in
    let value : slice (joined a b c d) 8 4 ≡ d = unfold slice le_bytes in refl in
    rw
      (
        tag,
        tag_type,
        count,
        value,
        le_value-le_bytes 2 e.tag h.tag_fits,
        le_value-le_bytes 2 e.tag_type h.tag_type_fits,
        le_value-le_bytes 4 e.count h.count_fits,
        le_value-le_bytes 4 e.value h.value_fits,
      )
      refl

pub read_entries-ifd_bytes :
    (es : List DirectoryEntry) → All IsEntry es → read_entries (length es) (ifd_bytes es) ≡ es
unfolding read_entries ifd_bytes
read_entries-ifd_bytes [] h = refl
read_entries-ifd_bytes (e ∷ es) h =
    let l = length-directory_entry_bytes e in
    let first : take 12 (directory_entry_bytes e ++ ifd_bytes es) ≡ directory_entry_bytes e =
      ap (λ (n : ℕ). take n (directory_entry_bytes e ++ ifd_bytes es)) (sym l)
      ∙ take-append (directory_entry_bytes e) (ifd_bytes es) in
    let rest : drop 12 (directory_entry_bytes e ++ ifd_bytes es) ≡ ifd_bytes es =
      ap (λ (n : ℕ). drop n (directory_entry_bytes e ++ ifd_bytes es)) (sym l)
      ∙ drop-append (directory_entry_bytes e) (ifd_bytes es) in
    ap₂ (λ (x : DirectoryEntry) (xs : List DirectoryEntry). x ∷ xs)
      (ap read_entry first ∙ read_entry-directory_entry_bytes e h.0)
      (ap (read_entries (length es)) rest ∙ read_entries-ifd_bytes es h.1)

-- The bytes of a whole directory.
unfoldable pub directory_bytes : List DirectoryEntry → ℕ → Bytes
directory_bytes es next = le_bytes 2 (length es) ++ (ifd_bytes es ++ le_bytes 4 next)

pub length-directory_bytes :
    (es : List DirectoryEntry) (next : ℕ) → length (directory_bytes es next) ≡ 6 + 12 * length es
unfolding directory_bytes
length-directory_bytes es next = omega (
  arith,
  length-append (le_bytes 2 (length es)) (ifd_bytes es ++ le_bytes 4 next),
  length-append (ifd_bytes es) (le_bytes 4 next),
  length-le_bytes 2 (length es),
  length-le_bytes 4 next,
  length-ifd_bytes es,
)

-- Its three writes are one.
pub add_ifd_lem :
    (es : List DirectoryEntry) (next position : ℕ) (header : Bytes)
    → add_ifd es next position header
      ≡ (position + 6 + 12 * length es, write_at header position (directory_bytes es next))
unfolding add_ifd directory_bytes
add_ifd_lem es next position header =
    let c = le_bytes 2 (length es) in
    let two : position + length c ≡ position + 2 =
      ap (λ (n : ℕ). position + n) (length-le_bytes 2 (length es)) in
    let listed : write_at (write_at header position c) (position + 2) (ifd_bytes es)
        ≡ write_at header position (c ++ ifd_bytes es) =
      ap (λ (p : ℕ). write_at (write_at header position c) p (ifd_bytes es)) (sym two)
      ∙ write_at-write_at header position c (ifd_bytes es) in
    let end : position + length (c ++ ifd_bytes es) ≡ position + 2 + 12 * length es =
      omega (arith, length-append c (ifd_bytes es), two, length-ifd_bytes es) in
    ap₂ (λ (p : ℕ) (h : Bytes). (p, h)) (omega arith)
      (ap (λ (h : Bytes). write_at h (position + 2 + 12 * length es) (le_bytes 4 next)) listed
        ∙ ap
            (λ (p : ℕ). write_at (write_at header position (c ++ ifd_bytes es)) p (le_bytes 4 next))
            (sym end)
        ∙ write_at-write_at header position (c ++ ifd_bytes es) (le_bytes 4 next)
        ∙ ap (write_at header position) (append_assoc c (ifd_bytes es) (le_bytes 4 next)))

-- A buffer that holds the bytes of a directory at a position.
pub read_ifd-directory_bytes :
    (h : Bytes) (position next : ℕ) (es : List DirectoryEntry)
    → All IsEntry es
    → length es < 65536
    → ((i n : ℕ)
        → i + n ≤ 6 + 12 * length es
        → slice h (position + i) n ≡ slice (directory_bytes es next) i n)
    → read_ifd h position ≡ map (read_field h) es
unfolding read_ifd directory_bytes
read_ifd-directory_bytes h position next es entries few holds =
    let c = le_bytes 2 (length es) in
    let rest = ifd_bytes es ++ le_bytes 4 next in
    let zero_right : position + 0 ≡ position = omega arith in
    let counted : slice h position 2 ≡ c =
      ap (λ (p : ℕ). slice h p 2) (sym zero_right)
      ∙ holds 0 2 (omega arith)
      ∙ slice-append [] c rest 0 2 refl (length-le_bytes 2 (length es)) in
    let number : le_value (slice h position 2) ≡ length es =
      ap le_value counted ∙ le_value-le_bytes 2 (length es) few in
    let listed : slice h (position + 2) (12 * length es) ≡ ifd_bytes es =
      holds 2 (12 * length es) (omega arith)
      ∙ slice-append c (ifd_bytes es) (le_bytes 4 next) 2 (12 * length es)
          (length-le_bytes 2 (length es)) (length-ifd_bytes es) in
    rw (number, listed) (ap (map (read_field h)) (read_entries-ifd_bytes es entries))
