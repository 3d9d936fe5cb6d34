-- ===== src/Dng/Texts.antt =====
-- Entries that hold their values themselves, and texts.
use mlvfs.Base.{
  ℕ, zero, ◌+◌, ◌*◌, ◌%◌, ◌≤◌, ◌<◌, ◌≡◌, inl, inr, refl, sym, ap, ◌∙◌, true, [], ◌∷◌, ◌++◌, take,
  length, length-append, arith, leb, Bool-cases, Bytes, le_value, le_bytes, IsBytes, All-append,
  le_value-bound, le_bytes-le_value,
}
use mlvfs.Dng.{Output, value_entry, string_entry, entry_of, add_bytes, add_string, directory_entry}
use mlvfs.Dng.Tags.{tt_ascii}
use mlvfs.Dng.Tiff.{type_size, field_of, read_field, contents, field}
use mlvfs.Dng.Entries.{Fits, room, Adds, add_bytes-Grows, add_bytes-reads, far_field}

-- There is room, in a buffer whose offsets fit an entry.
pub record HasRoom (o : Output) (n : ℕ) : Type 0 where
  pub enough : o.data_offset + n ≤ length o.header
  pub short : length o.header ≤ 65536

inline :
    (h : Bytes) (tag t count value : ℕ)
    → leb (count * type_size t) 4 ≡ true
    → read_field h (entry_of tag t count value) ≡ field (value_entry tag t count value)
unfolding read_field field contents
inline h tag t count value e = rw e refl

pub value_entry-Adds :
    (tag t count value : ℕ) (o : Output)
    → Fits (value_entry tag t count value)
    → Adds (value_entry tag t count value) o (entry_of tag t count value) o
unfolding Fits
value_entry-Adds tag t count value o f = record {
  grows =
      unfold room in
      record {
        starts = omega arith;
        ends = omega arith;
        length_kept = refl;
        before_kept = λ i n lo hi. refl;
      };
  is_entry = record { tag_fits = f.0; tag_type_fits = f.1; count_fits = f.2; value_fits = f.3 };
  reads = λ h agree. inline h tag t count value (ground arith);
}

length-text : (str : Bytes) → length (str ++ zero ∷ []) ≡ length str + 1
length-text str = length-append str (zero ∷ [])

text-IsBytes : (str : Bytes) → IsBytes str → IsBytes (str ++ zero ∷ [])
text-IsBytes str h = All-append (λ (b : ℕ). b < 256) str (zero ∷ []) h (omega arith, tt)

-- A short string is in the entry.
near_string :
    (str h : Bytes)
    → IsBytes str
    → length str + 1 ≤ 4
    → (tag : ℕ)
    → read_field h (entry_of tag tt_ascii (length str + 1) (le_value (str ++ zero ∷ [])))
      ≡ field_of tag tt_ascii (str ++ zero ∷ [])
unfolding read_field type_size
near_string str h bytes near tag =
    let one : (length str + 1) * 1 ≡ length str + 1 = omega arith in
    let yes : leb (length str + 1) 4 ≡ true = ground arith in
    rw (one, yes)
      (ap (field_of tag tt_ascii) (
        ap (λ (n : ℕ). take n (le_bytes 4 (le_value (str ++ zero ∷ [])))) (sym (length-text str))
        ∙ le_bytes-le_value 4 (str ++ zero ∷ []) (text-IsBytes str bytes)
            (omega (arith, length-text str))))

-- The text in its entry.
near_string-Adds :
    (tag : ℕ) (str : Bytes) (o : Output)
    → Fits (string_entry tag str)
    → length str + 1 ≤ 4
    → Adds
        (string_entry tag str)
        o
        (entry_of tag tt_ascii (length str + 1) (le_value (str ++ zero ∷ [])))
        o
unfolding Fits
near_string-Adds tag str o f small = record {
  grows =
      unfold room in
      record {
        starts = omega arith;
        ends = omega arith;
        length_kept = refl;
        before_kept = λ i n lo hi. refl;
      };
  is_entry = record {
    tag_fits = f.0;
    tag_type_fits = omega arith;
    count_fits = f.2;
    value_fits = omega (
      arith,
      le_value-bound 4 (str ++ zero ∷ []) (text-IsBytes str f.1) (omega (arith, length-text str)),
    );
  };
  reads = λ h agree. near_string str h f.1 small tag ∙ unfold field contents in refl;
}

-- The text in the data area, with up to one byte behind it.
far_string-Adds :
    (tag : ℕ) (str : Bytes) (o : Output) (padding : ℕ)
    → Fits (string_entry tag str)
    → HasRoom o (length str + 2)
    → 4 < length str + 1
    → padding ≤ 1
    → let o' = add_bytes (str ++ zero ∷ []) o in
      Adds
        (string_entry tag str)
        o
        (entry_of tag tt_ascii (length str + 1) o.data_offset)
        (record o' { data_offset = o'.data_offset + padding })
unfolding Fits
far_string-Adds tag str o padding f r far one =
    let l = length-text str in
    let fits : o.data_offset + length (str ++ zero ∷ []) ≤ length o.header =
      omega (arith, l, r.enough) in
    let base = add_bytes-Grows (str ++ zero ∷ []) o fits in
    record {
      grows =
          unfold room in
          record {
            starts = omega (arith, base.starts);
            ends = omega (arith, base.ends, l);
            length_kept = base.length_kept;
            before_kept = base.before_kept;
          };
      is_entry = record {
        tag_fits = f.0;
        tag_type_fits = omega arith;
        count_fits = f.2;
        value_fits = omega (arith, r.enough, r.short);
      };
      reads = λ h agree.
          far_field h (str ++ zero ∷ []) (entry_of tag tt_ascii (length str + 1) o.data_offset)
            (omega (arith, l)) (unfold type_size in omega (arith, l))
            (add_bytes-reads (str ++ zero ∷ []) o h (o.data_offset + length (str ++ zero ∷ [])) fits
              (omega arith) (λ i n lo hi. agree i n lo (unfold add_bytes in omega (arith, hi))))
          ∙ unfold field contents in refl;
    }

pub string_entry-Adds :
    (tag : ℕ) (str : Bytes) (o : Output)
    → Fits (string_entry tag str)
    → HasRoom o (length str + 2)
    → let r = directory_entry (string_entry tag str) o in Adds (string_entry tag str) o r.0 r.1
unfolding directory_entry add_string
string_entry-Adds tag str o f r =
    let o' = add_bytes (str ++ zero ∷ []) o in
    elim (Bool-cases (leb (length (str ++ zero ∷ [])) 4)) [
      | inl near ↦ rw near (near_string-Adds tag str o f (ground (arith, length-text str)))
      | inr far ↦ rw far (
          far_string-Adds tag str o (o'.data_offset % 2) f r (ground (arith, length-text str))
            (omega arith))
    ]
