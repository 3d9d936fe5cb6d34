-- ===== src/Unpack/Frames/Tests.antt =====
-- A tiled frame of four columns and two lines.
use mlvfs.Base.{ℕ, ◌≡◌, refl, some, List, [], ◌∷◌, ◌++◌, replicate, le_bytes, write_at}
use mlvfs.Headers.{FrameHeaders, no_headers}
use mlvfs.Unpack.{bytes_of}
use mlvfs.Unpack.Compressed.{
  Decoders, untile_index, put_pixel, untile_line, untile_lines, decoded_word,
}

-- The lines "1 3 2 4" and "5 7 6 8".
abbrev tiled : List ℕ
tiled = 1 ∷ 3 ∷ 2 ∷ 4 ∷ 5 ∷ 7 ∷ 6 ∷ 8 ∷ []

abbrev decoders : Decoders
decoders = record {
  lzma_uncompress = λ props source n. some source;
  lj92_open = λ stream. some (4, 2);
  lj92_decode = λ stream n. some tiled;
  behind_decoded = λ i. 0;
}

abbrev frame : FrameHeaders
frame = record no_headers {
  file_hdr = replicate 32 0 ++ le_bytes 2 257;
  vidf_hdr = replicate 4 0 ++ (le_bytes 4 40 ++ replicate 24 0);
  rawi_hdr = replicate 16 0 ++ (le_bytes 2 4 ++ le_bytes 2 2);
}

-- The even columns and lines come first.
untile_tiled :
    untile_lines 4 2 (decoded_word decoders tiled) 0 2 (replicate 16 0)
    ≡ bytes_of (1 ∷ 2 ∷ 3 ∷ 4 ∷ 5 ∷ 6 ∷ 7 ∷ 8 ∷ [])
unfolding decoded_word untile_lines untile_line put_pixel untile_index bytes_of le_bytes write_at
untile_tiled = refl

-- Of five columns, two go to the same place, and to the second no column goes.
untile_index_odd : (untile_index 5 1 ≡ 2) × (untile_index 5 3 ≡ 2)
unfolding untile_index
untile_index_odd = (refl, refl)
