-- ===== src/Read/Handler/Tests.antt =====
-- A read of a frame of "/v/A.MLV", by mlvfs/main.c.
use mlvfs.Base.{
  ℕ, ◌≡◌, refl, true, Option-cases, inl, inr, false, none, some, [], ◌∷◌, ◌++◌, replicate, length,
  length-replicate, arith, Bytes, bytes_eq,
}
use mlvfs.FrameNumber.{plus, dng_name, six_digits, more_digits}
use mlvfs.Cache.{Frame, Cache, empty_frame}
use mlvfs.Cache.Requests.{had}
use mlvfs.Cache.Contract.{Retries}
use mlvfs.Cache.History.{requests, live, step, run, empty_cache}
use mlvfs.Paths.{
  SlreMatch, Options, path_append, strstr, starts_with, is_mlv_file, upper_mlv, string_ends_with,
}
use mlvfs.Paths.Names.{join, split_mlv}
use mlvfs.Handlers.{Process, Calls}
use mlvfs.Getattr.{dng_get_header_size}
use mlvfs.Getattr.Frames.{FramePath}
use mlvfs.Read.Range.{range, Renders}
use mlvfs.Read.Handler.{Served, Sources, is_cached, mlvfs_read, mlvfs_read-FramePath}

abbrev no_match : SlreMatch
no_match path = none

abbrev root : Bytes
root = b'/' ∷ b'v' ∷ []

abbrev options : Options
options = record { mlv_path = root; name_scheme = 0 }

-- A disk on which every call fails.
abbrev calls : Calls
calls = record {
  stat = λ name p. (false, p);
  open_as = λ name access p. (false, p);
  pread = λ name size offset p. (none, p);
  pwrite = λ name buf offset p. (none, p);
  creat = λ name mode p. (false, p);
  mkdir = λ name mode p. (false, p);
  rename = λ from to p. (false, p);
  rmdir = λ name p. (false, p);
  unlink = λ name p. (false, p);
  truncate = λ name offset p. (false, p);
}

unfoldable header : Bytes
header = replicate 65536 0

length-header : length header ≡ 65536
unfolding header
length-header = length-replicate {A = ℕ} 65536 0

abbrev image : Bytes
image = 4 ∷ 5 ∷ 6 ∷ 7 ∷ []

abbrev made : Bytes → Frame → Frame
made path f = record {
  header_size = 65536;
  size = 4;
  header = some header;
  image_data = some image;
}

made-Renders : (path : Bytes) → Renders dng_get_header_size (made path empty_frame) header image
made-Renders path = record {
  header = refl;
  image_data = refl;
  header_size = refl;
  size = refl;
  length_header = length-header;
  some_header = omega arith;
}

made-Retries : Retries made
made-Retries path e = refl

abbrev sources : Sources
sources = record {
  process_frame = made;
  frame_disk = λ path d. d;
  create_preview = made;
  preview_disk = λ path d. d;
  allocation = had;
  wav_get_data = λ name buf offset size p. some (0, buf, p);
  debug_log = λ name p. none;
}

abbrev movie : Bytes
movie = b'A' ∷ upper_mlv

abbrev path : Bytes
path = b'/' ∷ join (movie ∷ dng_name (b'A' ∷ []) 7 ∷ [])

path-FramePath : FramePath root (root ++ b'/' ∷ movie) 7 path
unfolding strstr starts_with split_mlv is_mlv_file string_ends_with bytes_eq path_append dng_name
    six_digits more_digits
path-FramePath = record {
  names = movie ∷ [];
  mlv = movie ∷ [];
  base = b'A' ∷ [];
  path_lem = refl;
  file_lem = refl;
  names_lem = (
    (
      omega arith,
      (refl, (refl, (refl, (refl, (refl, tt))))),
      (refl, (refl, (refl, (refl, (refl, tt))))),
    ),
    tt,
  );
  name_lem = (
    omega arith,
    (
      refl,
      (refl, (refl, (refl, (refl, (refl, (refl, (refl, (refl, (refl, (refl, (refl, tt))))))))))),
    ),
    (
      refl,
      (refl, (refl, (refl, (refl, (refl, (refl, (refl, (refl, (refl, (refl, (refl, tt))))))))))),
    ),
  );
  shown = refl;
  split = refl;
  small = omega arith;
}

history-live : live made (requests path ∷ []) empty_cache ≡ true
unfolding live
history-live = elim (Option-cases (step made (requests path) empty_cache)) [
  | inl e ↦ rw e refl
  | inr (c, e) ↦ rw e refl
]

mlvfs_read-FramePath_example :
    (c : Cache) × (run made (requests path ∷ []) empty_cache ≡ some c)
    × ((p : Process)
        → p.cache ≡ c
        → (r : Served) × (mlvfs_read no_match options calls sources path
              (replicate 3 0)
              3
              65535
              none
              p
            ≡ some r)
          × (r.result ≡ plus (range (header ++ image) (replicate 3 0) 65535 3).result)
          × (r.buf ≡ (range (header ++ image) (replicate 3 0) 65535 3).buf)
          × (is_cached path c ≡ true → r.process.disk ≡ p.disk)
          × (is_cached path c ≡ false → r.process.disk ≡ p.disk))
mlvfs_read-FramePath_example =
    mlvfs_read-FramePath no_match options calls sources (requests path ∷ []) (root ++ b'/' ∷ movie)
      path header image (replicate 3 0) 7 65535 3 refl refl path-FramePath made-Retries history-live
      (made-Renders path)
