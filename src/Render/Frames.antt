-- ===== src/Render/Frames.antt =====
-- `process_frame` of mlvfs/main.c on a frame that is found.
use mlvfs.Base.{◌≡◌, true, some, List, Bytes, get_elem?}
use mlvfs.Headers.{FrameHeaders, mlv_get_frame_headers}
use mlvfs.Index.Store.{Disk, load_chunks}
use mlvfs.FrameNumber.{get_mlv_frame_number}
use mlvfs.Paths.{SlreMatch, Options, string_ends_with, mlvfs_resolve_path}
use mlvfs.Readdir.{Stack}
use mlvfs.Getattr.{dng, index_of}
use mlvfs.Unpack.Compressed.{Decoders}
use mlvfs.Render.{Settings, Filters}

module _ (slre_match : SlreMatch) (options : Options) (stack : Stack) (decoders : Decoders)
    (settings : Settings) (filters : Filters) where
  -- A frame that is found: its MLV file, its headers, and the chunk that it stands in.
  pub record FrameFound (path mlv_filename : Bytes) (h : FrameHeaders) (file : Bytes) (d d' : Disk)
      : Type 0 where
    pub ends : string_ends_with path dng ≡ true
    pub path_in_mlv : Bytes
    pub resolved : mlvfs_resolve_path slre_match options path ≡ some (mlv_filename, path_in_mlv)
    pub headers :
        mlv_get_frame_headers stack.main_header stack.block mlv_filename
          (index_of (get_mlv_frame_number path))
          d
        ≡ some (true, h, d')
    pub chunks : List Bytes
    pub opened : load_chunks mlv_filename d' ≡ some chunks
    pub in_chunk : get_elem? chunks h.file_number ≡ some file
