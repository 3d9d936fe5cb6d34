-- ===== src/Index/Store/Rebuild.antt =====
-- `get_index` of mlvfs/index.c when there is no usable IDX file: it builds one, and from then on
-- finds it.
use mlvfs.Base.{
  ◌+◌, ◌*◌, ◌<◌, ◌^◌, ◌≡◌, true, false, none, some, List, length, arith, Bytes, bytes_eq, slice,
}
use mlvfs.Index.Row.{FrameXref}
use mlvfs.Index.Block.{xref}
use mlvfs.Index.Encode.{index_bytes, make_index, block_size-index_bytes}
use mlvfs.Index.Store.{
  Disk, load_chunks, load_index, main_header_of, save_index, build_index, force_index, get_index,
  idx_name,
}
use mlvfs.Index.Store.RoundTrip.{load_index-save_index}

module _ (stack name : Bytes) (d : Disk) (chunks : List Bytes) (rows : List FrameXref)
    (loaded : load_chunks name d ≡ some chunks)
    (made : make_index stack chunks ≡ some (index_bytes rows))
    (whole : length (main_header_of stack chunks) ≡ 52)
    (other : bytes_eq (slice (main_header_of stack chunks) 0 4) xref ≡ false)
    (small : 24 + length rows * 12 < 256 ^ 4) (writable : d.writable (idx_name name) ≡ true) where
  rebuilt : Disk
  rebuilt = save_index name (main_header_of stack chunks) (length chunks) (index_bytes rows) d

  load_index-rebuilt : load_index name rebuilt ≡ some (some (index_bytes rows))
  unfolding rebuilt
  load_index-rebuilt =
      let (size, len, type) = block_size-index_bytes rows small in
      load_index-save_index (main_header_of stack chunks) (index_bytes rows) (length chunks) whole
        other size (omega arith) type name d writable

  force_index-rebuilt : force_index stack name d ≡ some (some (index_bytes rows), rebuilt)
  unfolding force_index build_index rebuilt
  force_index-rebuilt =
      let again : load_index name
            (save_index name (main_header_of stack chunks) (length chunks) (index_bytes rows) d)
          ≡ some (some (index_bytes rows)) =
        load_index-rebuilt in
      rw (loaded, force_index, made, build_index, again)

  -- Where no index can be loaded, the chunks can be opened with a whole file header that is no
  -- XREF block, and the IDX file can be written, the index that is made of the chunks is
  -- returned and saved, and the next call returns the same and writes nothing. The index fits 32
  -- bits.
  pub get_index-rebuilds :
      load_index name d ≡ some none
      → (d' : Disk) × (get_index stack name d ≡ some (some (index_bytes rows), d'))
        × (get_index stack name d' ≡ some (some (index_bytes rows), d'))
  unfolding get_index
  get_index-rebuilds empty =
      (rebuilt, rw (empty, get_index, force_index-rebuilt), rw (load_index-rebuilt, get_index))
