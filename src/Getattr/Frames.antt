-- ===== src/Getattr/Frames.antt =====
-- The attributes of the frames of an MLV file, by mlvfs/main.c.
use mlvfs.Base.{
  ℕ, ◌+◌, ◌*◌, ◌^◌, ◌<◌, ◌≡◌, refl, ap, ◌∙◌, true, false, none, some, List, [], ◌∷◌, ◌++◌,
  append_assoc, sym, Bytes, bytes_eq_refl, arith, All, All-append,
}
use mlvfs.FrameNumber.{
  plus, dng_name, six_digits, get_mlv_frame_number, get_mlv_frame_number-dng_name,
}
use mlvfs.Attributes.{had, lookup_dng_attr, register_dng_attr}
use mlvfs.Index.Store.{Disk}
use mlvfs.Headers.{FrameHeaders, mlv_get_frame_headers}
use mlvfs.Wav.Headers.{WavHeaders}
use mlvfs.Paths.{
  SlreMatch, Options, path_append, strstr, hidden, string_ends_with, mlvfs_resolve_path,
  mlvfs_resolve_virtual,
}
use mlvfs.Paths.Endings.{string_ends_with_lem}
use mlvfs.Paths.Names.{IsName, join, split_mlv}
use mlvfs.Paths.Resolve.{found, mlvfs_resolve_path_lem}
use mlvfs.Paths.Backing.{backing, mlvfs_resolve_virtual_lem}
use mlvfs.Readdir.{Stack}
use mlvfs.Readdir.Frames.{split_mlv-snoc, is_virtual_name-dng_name}
use mlvfs.Getattr.{
  FuseStat, Services, Attrs, dng, file_mode, x_res, y_res, dng_get_size, dng_get_image_size-small,
  timespec_of, index_of, fresh_attributes, virtual_attributes, sized, mlvfs_getattr,
}

pub string_ends_with-dng_name :
    (base : Bytes) (i : ℕ) → string_ends_with (dng_name base i) dng ≡ true
unfolding dng_name
string_ends_with-dng_name base i =
    (string_ends_with_lem (dng_name base i) dng (omega arith)).1 (
      (base ++ b'_' ∷ []) ++ six_digits i,
      sym (append_assoc (base ++ b'_' ∷ []) (six_digits i) dng),
    )

-- A path of a frame: its name stands directly in an MLV file.
pub record FramePath (root file : Bytes) (i : ℕ) (path : Bytes) : Type 0 where
  pub names : List Bytes
  pub mlv : List Bytes
  pub base : Bytes
  pub path_lem : path ≡ b'/' ∷ join (names ++ dng_name base i ∷ [])
  pub file_lem : file ≡ path_append root (join mlv)
  pub names_lem : All IsName names
  pub name_lem : IsName (dng_name base i)
  pub shown : strstr (b'/' ∷ join (names ++ dng_name base i ∷ [])) hidden ≡ false
  pub split : split_mlv names ≡ some (mlv, [])
  pub small : i < 1000000

module _ (slre_match : SlreMatch) (options : Options) (scheme : options.name_scheme ≡ 0) where
  -- It is virtual, and stands in the MLV file under its name.
  pub resolve-FramePath :
      (file path : Bytes) (i : ℕ)
      → (f : FramePath options.mlv_path file i path)
      → (mlvfs_resolve_virtual slre_match options path ≡ none)
        × (mlvfs_resolve_path slre_match options path ≡ some (file, dng_name f.base i))
  unfolding found backing
  resolve-FramePath file path i f =
      let name = dng_name f.base i in
      let all : All IsName (f.names ++ name ∷ []) =
        All-append IsName f.names (name ∷ []) f.names_lem (f.name_lem, tt) in
      let split = split_mlv-snoc f.names f.mlv [] (name ∷ []) f.split in
      (
        ap (mlvfs_resolve_virtual slre_match options) f.path_lem
            ∙ (mlvfs_resolve_virtual_lem slre_match options (f.names ++ name ∷ []) scheme all
                  f.shown
                ∙ rw (split, backing, is_virtual_name-dng_name f.base i) refl),
        ap (mlvfs_resolve_path slre_match options) f.path_lem
            ∙ (mlvfs_resolve_path_lem slre_match options (f.names ++ name ∷ []) scheme all f.shown
                ∙ rw (split, found, f.file_lem) refl),
      )

module _ (slre_match : SlreMatch) (options : Options) (services : Services) (stack : Stack)
    (wav_headers : WavHeaders) (scheme : options.name_scheme ≡ 0) where
  -- Its attributes are those of a virtual file.
  getattr-FramePath :
      (file path : Bytes) (i : ℕ) (attrs : Attrs) (d : Disk)
      → (f : FramePath options.mlv_path file i path)
      → mlvfs_getattr slre_match options services had stack wav_headers path attrs d
        ≡ virtual_attributes slre_match options services had stack wav_headers file
            (dng_name f.base i)
            attrs
            d
  unfolding mlvfs_getattr
  getattr-FramePath file path i attrs d f =
      let (virtual, resolved) = resolve-FramePath slre_match options scheme file path i f in
      rw (mlvfs_getattr, virtual, resolved) refl

  remembered :
      (file name : Bytes) (st : FuseStat) (attrs : Attrs) (d : Disk)
      → string_ends_with name dng ≡ true
      → lookup_dng_attr file attrs ≡ some st
      → virtual_attributes slre_match options services had stack wav_headers file name attrs d
        ≡ some (plus 0, st, attrs, d)
  unfolding virtual_attributes
  remembered file name st attrs d e l = rw (virtual_attributes, e, l) refl

  lookup_dng_attr-registered :
      (file : Bytes) (st : FuseStat) (attrs : Attrs)
      → lookup_dng_attr file attrs ≡ none
      → lookup_dng_attr file (register_dng_attr had (record { path = file; attr = st }) attrs)
        ≡ some st
  unfolding register_dng_attr lookup_dng_attr
  lookup_dng_attr-registered file st attrs l = rw (register_dng_attr, l, bytes_eq_refl file) refl

  -- With the plain name scheme, take the path of a frame, with a number below a million, of
  -- an MLV file of which no attributes are remembered. If the headers of the frame are found,
  -- and with memory at hand, it has the attributes of a file that can be written: its size is
  -- that of the DNG file and its time that of the frame, and the disk is left as the search
  -- for the headers leaves it. Where the image has less than 2 GB, that size is the header
  -- and two bytes for each pixel. As long as the attributes that are remembered for the file
  -- are these, as they are after the call, they are those of every path of a frame of this
  -- MLV file, with any number below a million, and asking for them reads nothing and changes
  -- nothing.
  pub mlvfs_getattr-frames :
      (file path : Bytes) (i : ℕ) (attrs : Attrs) (d d' : Disk) (h : FrameHeaders)
      → FramePath options.mlv_path file i path
      → lookup_dng_attr file attrs ≡ none
      → mlv_get_frame_headers stack.main_header stack.block file i d ≡ some (true, h, d')
      → (st : FuseStat) × (attrs' : Attrs) × (mlvfs_getattr slre_match options services had stack
            wav_headers path attrs d
          ≡ some (plus 0, st, attrs', d'))
        × (st.st_mode ≡ file_mode)
        × (st.st_size ≡ dng_get_size h)
        × (x_res h.rawi_hdr * y_res h.rawi_hdr * 2 < 2 ^ 31
            → st.st_size ≡ 65536 + x_res h.rawi_hdr * y_res h.rawi_hdr * 2)
        × (lookup_dng_attr file attrs' ≡ some st)
        × (st.st_mtim ≡ timespec_of services h)
        × ((other : Bytes) (k : ℕ) (later : Attrs) (d'' : Disk)
            → FramePath options.mlv_path file k other
            → lookup_dng_attr file later ≡ some st
            → mlvfs_getattr slre_match options services had stack wav_headers other later d''
              ≡ some (plus 0, st, later, d''))
  unfolding virtual_attributes fresh_attributes sized
  mlvfs_getattr-frames file path i attrs d d' h f new headers =
      let name = dng_name f.base i in
      let time = timespec_of services h in
      let st : FuseStat = record {
        st_dev = 0;
        st_ino = 0;
        st_mode = file_mode;
        st_nlink = 1;
        st_uid = 0;
        st_gid = 0;
        st_rdev = 0;
        st_size = dng_get_size h;
        st_atim = time;
        st_mtim = time;
        st_ctim = time;
      } in
      let attrs' = register_dng_attr had (record { path = file; attr = st }) attrs in
      let ends = string_ends_with-dng_name f.base i in
      let number : index_of (get_mlv_frame_number name) ≡ i =
        unfold index_of in ap index_of (get_mlv_frame_number-dng_name f.base i f.small) in
      (
        st,
        attrs',
        getattr-FramePath file path i attrs d f
            ∙ rw
                (
                  virtual_attributes, ends, new, fresh_attributes, ends, number, headers, sized,
                  ends,
                )
                refl,
        refl,
        refl,
        λ small. unfold dng_get_size in omega (arith, dng_get_image_size-small h small),
        lookup_dng_attr-registered file st attrs new,
        refl,
        λ other k later d'' g known.
            getattr-FramePath file other k later d'' g
            ∙ remembered file (dng_name g.base k) st later d'' (string_ends_with-dng_name g.base k)
                known,
      )
