-- ===== src/Render/Tests.antt =====
-- The one frame of "/v/A.MLV", made for its path.
use mlvfs.Base.{true, none, replicate}
use mlvfs.Getattr.Sample.{stack}
use mlvfs.Unpack.Compressed.{Decoders}
use mlvfs.Render.{Settings, Filters}

abbrev decoders : Decoders
decoders = record {
  lzma_uncompress = λ props source n. none;
  lj92_open = λ stream. none;
  lj92_decode = λ stream n. none;
  behind_decoded = λ i. 0;
}

abbrev settings : Settings
settings = record {
  deflicker = 3000;
  fix_pattern_noise = true;
  dual_iso = 0;
  chroma_smooth = 2;
  fix_bad_pixels = 1;
  fix_stripes = true;
  fps = none;
}

abbrev filters : Filters
filters = record {
  fix_pattern_noise = λ h d. d;
  hdr_convert_data = λ h d. (true, h, d);
  cr2hdr20_convert_data = λ h d. (true, h, d);
  fix_focus_pixels = λ h d. d;
  fix_bad_pixels = λ h d aggressive. d;
  chroma_smooth = λ h d method. d;
  compute_correction = λ h c d. record c { correction_needed = true };
  stack = replicate 8 65536;
  uninitialised = λ n. replicate n 0;
  deflicker_bias = λ target median black. 10000;
  kelvin_green_to_multipliers = λ kelvin matrices. (500000, 1000000, 600000);
  slow_time = λ frame nom denom. (0, 0, 0);
}
