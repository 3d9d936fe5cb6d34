-- ===== src/Getattr.antt =====
-- The attributes of a path: `mlvfs_getattr` of mlvfs/main.c, and the sizes of DNG files of
-- mlvfs/dng.c.
pub mod Frames
pub mod Sample
mod Tests
use mlvfs.Base.{
  ℕ, ◌+◌, ◌-◌, ◌*◌, ◌/◌, ◌%◌, ◌^◌, Bool, true, false, ◌&&◌, ◌||◌, Option, none, some, List, [], ◌∷◌,
  length, arith, ltb, ◌<◌, ◌≡◌, ◌==◌, if◌then◌else◌, Bytes, le_value, slice,
}
use mlvfs.FrameNumber.{Number, plus, minus, get_mlv_frame_number}
use mlvfs.Attributes.{DngAttrMapping, Memory, lookup_dng_attr, register_dng_attr}
use mlvfs.Index.Store.{Disk}
use mlvfs.Headers.{FrameHeaders, mlv_get_frame_headers}
use mlvfs.Gif.{gif_get_size}
use mlvfs.Wav.Headers.{WavHeaders, wav_get_size}
use mlvfs.Paths.{
  SlreMatch, Options, string_ends_with, is_mlv_file, mlvfs_resolve_path, mlvfs_resolve_virtual,
}
use mlvfs.Readdir.{Stack}

-- A `struct timespec`, and the three times of a file.
pub record Timespec : Type 0 where
  pub tv_sec : ℕ
  pub tv_nsec : ℕ

pub record FuseStat : Type 0 where
  pub st_dev : ℕ
  pub st_ino : ℕ
  pub st_mode : ℕ
  pub st_nlink : ℕ
  pub st_uid : ℕ
  pub st_gid : ℕ
  pub st_rdev : ℕ
  pub st_size : ℕ
  pub st_atim : Timespec
  pub st_mtim : Timespec
  pub st_ctim : Timespec

abbrev pub no_time : Timespec
no_time = record { tv_sec = 0; tv_nsec = 0 }

-- What the `memset` leaves.
abbrev pub no_stat : FuseStat
no_stat = record {
  st_dev = 0;
  st_ino = 0;
  st_mode = 0;
  st_nlink = 0;
  st_uid = 0;
  st_gid = 0;
  st_rdev = 0;
  st_size = 0;
  st_atim = no_time;
  st_mtim = no_time;
  st_ctim = no_time;
}

-- `struct tm`, as far as it is set.
pub record Tm : Type 0 where
  pub tm_sec : ℕ
  pub tm_min : ℕ
  pub tm_hour : ℕ
  pub tm_mday : ℕ
  pub tm_mon : ℕ
  pub tm_year : ℕ
  pub tm_isdst : ℕ

-- What the handler asks of the system and of the parts that stand elsewhere: whether `stat`
-- succeeds and what it leaves in its buffer, `mktime`, and the text of the log.
pub record Services : Type 0 where
  pub stat : Bytes → Disk → Bool × FuseStat
  pub mktime : Tm → ℕ
  pub debug_log : Bytes → Disk → Option Bytes

-- `S_IFDIR | 0777` and `S_IFREG | 0666`.
abbrev pub folder_mode : ℕ
folder_mode = 16895

abbrev pub file_mode : ℕ
file_mode = 33206

abbrev pub dng_get_header_size : ℕ
dng_get_header_size = 65536

unfoldable pub x_res : Bytes → ℕ
x_res rawi_hdr = le_value (slice rawi_hdr 16 2)

unfoldable pub y_res : Bytes → ℕ
y_res rawi_hdr = le_value (slice rawi_hdr 18 2)

-- An `int` of 32 bits as a `size_t` of 64: its sign is extended.
unfoldable pub size_of_int : ℕ → ℕ
size_of_int n = if ltb n (2 ^ 31) then n else 2 ^ 64 - (2 ^ 32 - n)

-- The product is an `int`. Where it does not fit, which C leaves undefined, it wraps around.
unfoldable pub dng_get_image_size : FrameHeaders → ℕ
dng_get_image_size h = size_of_int (x_res h.rawi_hdr * y_res h.rawi_hdr * 2 % 2 ^ 32)

unfoldable pub dng_get_size : FrameHeaders → ℕ
dng_get_size h = (dng_get_header_size + dng_get_image_size h) % 2 ^ 64

pub dng_get_image_size-small :
    (h : FrameHeaders)
    → x_res h.rawi_hdr * y_res h.rawi_hdr * 2 < 2 ^ 31
    → dng_get_image_size h ≡ x_res h.rawi_hdr * y_res h.rawi_hdr * 2
unfolding dng_get_image_size size_of_int
dng_get_image_size-small h small = ground arith

-- The time between the clock block and the frame, in microseconds.
unfoldable pub elapsed : FrameHeaders → ℕ
elapsed h = (le_value (slice h.vidf_hdr 8 8) + (2 ^ 64 - le_value (slice h.rtci_hdr 8 8))) % 2 ^ 64

-- The seconds are an `int`, written by its value modulo 2 ^ 32.
unfoldable pub tm_of : FrameHeaders → Tm
tm_of h =
    let field = λ (k : ℕ). le_value (slice h.rtci_hdr (16 + 2 * k) 2) in
    record {
      tm_sec = (field 0 + elapsed h / 1000000) % 2 ^ 32;
      tm_min = field 1;
      tm_hour = field 2;
      tm_mday = field 3;
      tm_mon = field 4;
      tm_year = field 5;
      tm_isdst = field 8;
    }

unfoldable pub timespec_of : Services → FrameHeaders → Timespec
timespec_of services h = record {
  tv_sec = services.mktime (tm_of h);
  tv_nsec = elapsed h % 1000000 * 1000;
}

-- An `int` as an index.
unfoldable pub index_of : Number → ℕ
index_of (plus n) = n
index_of (minus n) = (2 ^ 32 - n) % 2 ^ 32

-- A real file. Where `stat` fails for an MLV file, the times are what its buffer held.
unfoldable pub real_attributes : Services → Bytes → Disk → Number × FuseStat
real_attributes services resolved_filename d =
    let r = services.stat resolved_filename d in
    let st = r.1 in
    let folder : FuseStat = record no_stat {
      st_mode = folder_mode;
      st_nlink = 3;
      st_atim = st.st_atim;
      st_mtim = st.st_mtim;
      st_ctim = st.st_ctim;
    } in
    let file = if r.0 then st else no_stat in
    ((if r.0 then plus 0 else minus 2), (if is_mlv_file resolved_filename then folder else file))

abbrev pub dng : Bytes
dng = b'.' ∷ b'd' ∷ b'n' ∷ b'g' ∷ []

abbrev pub gif : Bytes
gif = b'.' ∷ b'g' ∷ b'i' ∷ b'f' ∷ []

abbrev pub log : Bytes
log = b'.' ∷ b'l' ∷ b'o' ∷ b'g' ∷ []

abbrev pub wav : Bytes
wav = b'.' ∷ b'w' ∷ b'a' ∷ b'v' ∷ []

-- The remembered attributes of DNG files.
abbrev pub Attrs : Type 0
Attrs = List (DngAttrMapping FuseStat)

module _ (slre_match : SlreMatch) (options : Options) (services : Services) (memory : Memory)
    (stack : Stack) (wav_headers : WavHeaders) where
  -- The size of a virtual file whose frame was found, with its type and times in `st`, by what its
  -- name ends in. The outer `none` is out of fuel, which does not happen.
  unfoldable pub sized :
      Bytes
      → Bytes
      → FrameHeaders
      → FuseStat
      → Attrs
      → Disk
      → Option (Number × FuseStat × Attrs × Disk)
  sized mlv_filename path_in_mlv h st attrs d =
      let dng_st : FuseStat = record st { st_size = dng_get_size h } in
      let gif_st : FuseStat = record st {
        st_size = gif_get_size (x_res h.rawi_hdr) (y_res h.rawi_hdr);
      } in
      let log_st : FuseStat = elim (services.debug_log mlv_filename d) [
        | none ↦ st
        | some text ↦ record st { st_size = length text }
      ] in
      let wav_st : Option (Number × FuseStat × Attrs × Disk) =
        elim (wav_get_size stack.main_header stack.block wav_headers mlv_filename d) [
          | none ↦ none
          | some (size, d') ↦ some (plus 0, record st { st_size = size }, attrs, d')
        ] in
      if string_ends_with path_in_mlv dng
      then some (
        plus 0,
        dng_st,
        register_dng_attr memory (record { path = mlv_filename; attr = dng_st }) attrs,
        d,
      )
      else if string_ends_with path_in_mlv gif
      then some (plus 0, gif_st, attrs, d)
      else if string_ends_with path_in_mlv log
      then some (plus 0, log_st, attrs, d)
      else wav_st

  -- A virtual file that is not remembered.
  unfoldable pub fresh_attributes :
      Bytes → Bytes → Attrs → Disk → Option (Number × FuseStat × Attrs × Disk)
  fresh_attributes mlv_filename path_in_mlv attrs d =
      let frame_number =
        if string_ends_with path_in_mlv dng
        then index_of (get_mlv_frame_number path_in_mlv)
        else 0 in
      let st : FuseStat = record no_stat { st_mode = file_mode; st_nlink = 1 } in
      elim (mlv_get_frame_headers stack.main_header stack.block mlv_filename frame_number d) [
        | none ↦ none
        | some (false, h, d') ↦ some (minus 2, st, attrs, d')
        | some (true, h, d') ↦
            let time = timespec_of services h in
            sized mlv_filename path_in_mlv h
              (record st { st_atim = time; st_mtim = time; st_ctim = time }) attrs d'
      ]

  unfoldable pub virtual_attributes :
      Bytes → Bytes → Attrs → Disk → Option (Number × FuseStat × Attrs × Disk)
  virtual_attributes mlv_filename path_in_mlv attrs d =
      let fresh = fresh_attributes mlv_filename path_in_mlv attrs d in
      let remembered : Option (Number × FuseStat × Attrs × Disk) =
        elim (lookup_dng_attr mlv_filename attrs) [
          | none ↦ fresh
          | some dng_st ↦ some (plus 0, dng_st, attrs, d)
        ] in
      if string_ends_with path_in_mlv dng
      then remembered
      else if string_ends_with path_in_mlv wav
          || (string_ends_with path_in_mlv gif || string_ends_with path_in_mlv log)
      then fresh
      else some (minus 2, no_stat, attrs, d)

  -- The result, the attributes, those that are remembered, and the disk.
  unfoldable pub mlvfs_getattr : Bytes → Attrs → Disk → Option (Number × FuseStat × Attrs × Disk)
  mlvfs_getattr path attrs d = elim (mlvfs_resolve_virtual slre_match options path) [
    | some resolved_filename ↦
        let r = real_attributes services resolved_filename d in some (r.0, r.1, attrs, d)
    | none ↦ elim (mlvfs_resolve_path slre_match options path) [
      | none ↦ some (minus 2, no_stat, attrs, d)
      | some (mlv_filename, path_in_mlv) ↦ virtual_attributes mlv_filename path_in_mlv attrs d
    ]
  ]
