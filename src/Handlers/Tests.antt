-- ===== src/Handlers/Tests.antt =====
-- Requests of mlvfs/main.c on a disk where every call succeeds.
use mlvfs.Base.{
  ℕ, ◌≡◌, refl, true, false, Option, none, some, [], ◌∷◌, length, if◌then◌else◌, arith, Bytes,
  bytes_eq, slice,
}
use mlvfs.FrameNumber.{plus, minus}
use mlvfs.Paths.{
  SlreMatch, Options, string_ends_with, starts_with, strstr, is_mlv_file, is_virtual_name,
  upper_mlv,
}
use mlvfs.Paths.Names.{IsName, join, split_mlv}
use mlvfs.Handlers.{
  Process, Calls, negated, mlvfs_open, mlvfs_create, mlvfs_mkdir, mlvfs_rename, mlvfs_rmdir,
  mlvfs_unlink, mlvfs_truncate, mlvfs_write, create, unlink, write, serve,
}
use mlvfs.Handlers.Errors.{VirtualFile, requests_of_VirtualFile}
use mlvfs.Handlers.Sandbox.Redirect.{InsideMlv}
use mlvfs.Handlers.Sandbox.Requests.{Confined, serve-Confined}

abbrev no_match : SlreMatch
no_match path = none

abbrev options : Options
options = record { mlv_path = b'/' ∷ b'v' ∷ []; name_scheme = 0 }

-- The file as it stands after a change, or `none` for one that is removed.
unfoldable put : Bytes → Option Bytes → Process → Process
put name contents p = record p {
  disk = record (p.disk) { files = λ n. if bytes_eq name n then contents else p.disk.files n };
}

abbrev calls : Calls
calls = record {
  stat = λ name p. (elim (p.disk.files name) [ none ↦ false | some c ↦ true ], p);
  open_as = λ name access p. (elim (p.disk.files name) [ none ↦ false | some c ↦ true ], p);
  pread = λ name size offset p.
      (elim (p.disk.files name) [ none ↦ none | some c ↦ some (slice c offset size) ], p);
  pwrite = λ name buf offset p. (some (length buf), put name (some buf) p);
  creat = λ name mode p. (true, put name (some []) p);
  mkdir = λ name mode p. (true, p);
  rename = λ from to p. (true, put to (p.disk.files from) (put from none p));
  rmdir = λ name p. (true, p);
  unlink = λ name p. (true, put name none p);
  truncate = λ name offset p. (true, put name (some []) p);
}

abbrev movie : Bytes
movie = b'A' ∷ upper_mlv

abbrev real_movie : Bytes
real_movie = b'/' ∷ b'v' ∷ b'/' ∷ movie

abbrev start : Process
start = record {
  disk = record {
    files = λ n. if bytes_eq n real_movie then some (b'm' ∷ []) else none;
    writable = λ n. true;
  };
  errno = 0;
  cache = record { image_buffers = []; image_buffer_count = 0; next_address = 1 };
}

abbrev frame : Bytes
frame = b'x' ∷ b'.' ∷ b'd' ∷ b'n' ∷ b'g' ∷ []

abbrev note : Bytes
note = b'n' ∷ []

abbrev frame_path : Bytes
frame_path = b'/' ∷ join (movie ∷ frame ∷ [])

abbrev note_path : Bytes
note_path = b'/' ∷ join (movie ∷ note ∷ [])

movie-IsName : IsName movie
movie-IsName = (
  omega arith,
  (refl, (refl, (refl, (refl, (refl, tt))))),
  (refl, (refl, (refl, (refl, (refl, tt))))),
)

frame-VirtualFile : VirtualFile frame_path
unfolding strstr starts_with split_mlv is_mlv_file string_ends_with bytes_eq is_virtual_name
frame-VirtualFile = record {
  names = movie ∷ frame ∷ [];
  mlv = movie ∷ [];
  name = frame;
  path_lem = refl;
  names_lem = (
    movie-IsName,
    (
      (
        omega arith,
        (refl, (refl, (refl, (refl, (refl, tt))))),
        (refl, (refl, (refl, (refl, (refl, tt))))),
      ),
      tt,
    ),
  );
  shown = refl;
  split = refl;
  ending = refl;
}

note-InsideMlv : InsideMlv note_path
unfolding strstr starts_with split_mlv is_mlv_file string_ends_with bytes_eq
note-InsideMlv = record {
  names = movie ∷ note ∷ [];
  mlv = movie ∷ [];
  name = note;
  others = [];
  path_lem = refl;
  names_lem = (movie-IsName, ((omega arith, (refl, tt), (refl, tt)), tt));
  shown = refl;
  split = refl;
}

requests_of_VirtualFile_example :
    ((mode : ℕ) → mlvfs_create no_match options calls frame_path mode start ≡ (minus 1, start))
    × (mlvfs_unlink no_match options calls frame_path start ≡ (minus 1, start))
    × ((offset : ℕ)
        → mlvfs_truncate no_match options calls frame_path offset start ≡ (minus 1, start))
    × ((mode : ℕ) → mlvfs_mkdir no_match options calls frame_path mode start ≡ (minus 2, start))
    × (mlvfs_rmdir no_match options calls frame_path start ≡ (minus 2, start))
    × ((to : Bytes) → mlvfs_rename no_match options calls frame_path to start ≡ (minus 2, start))
    × ((from : Bytes)
        → mlvfs_rename no_match options calls from frame_path start ≡ (minus 2, start))
    × ((buf : Bytes) (offset : ℕ)
        → mlvfs_write no_match options calls frame_path buf offset start
          ≡ (negated start.errno, start))
    × (mlvfs_open no_match options calls frame_path start ≡ (plus 0, start))
requests_of_VirtualFile_example =
    requests_of_VirtualFile no_match options calls frame_path start refl frame-VirtualFile

serve-Confined_example : Confined calls start (
    serve no_match options calls
      (create note_path 420 ∷ write note_path note 0 ∷ unlink note_path ∷ [])
      start)
serve-Confined_example =
    serve-Confined no_match options calls refl start
      (create note_path 420 ∷ write note_path note 0 ∷ unlink note_path ∷ [])
      (note-InsideMlv, (note-InsideMlv, (note-InsideMlv, tt)))
