-- ===== src/Handlers/Sandbox/Requests.antt =====
-- Requests inside MLV files reach the system with paths in ".MLD" folders only, in mlvfs/main.c.
use mlvfs.Base.{
  ℕ, ◌+◌, ◌≡◌, inl, inr, true, ◌||◌, some, List, [], ◌∷◌, take, Bytes, Bool-cases, Option-cases,
  All,
}
use mlvfs.Paths.{SlreMatch, Options, strstr, mld, string_ends_with, mlvfs_resolve_virtual}
use mlvfs.Cache.{release_image_buffer_by_path}
use mlvfs.Handlers.{
  Process, Access, rdonly, rdwr, Calls, find_part, check_mld_exists, mlvfs_open, mlvfs_create,
  mlvfs_fsync, mlvfs_mkdir, mlvfs_release, mlvfs_rename, mlvfs_rmdir, mlvfs_unlink, mlvfs_truncate,
  mlvfs_write, Request, open_file, create, fsync, mkdir, release, rename, rmdir, unlink, truncate,
  write, handle, serve,
}
use mlvfs.Handlers.Sandbox.Redirect.{InsideMlv, strstr-take, backing-InsideMlv}

-- What comes of a process by system calls that are each given paths with ".MLD" in them, and by
-- releases of image buffers.
pub data Confined (calls : Calls) (start : Process) : Process → Type 0 where
  done : Confined calls start start
  stats :
      (name : Bytes) (p : Process)
      → strstr name mld ≡ true
      → Confined calls start p
      → Confined calls start (calls.stat name p).1
  opens :
      (name : Bytes) (a : Access) (p : Process)
      → strstr name mld ≡ true
      → Confined calls start p
      → Confined calls start (calls.open_as name a p).1
  pwrites :
      (name buf : Bytes) (offset : ℕ) (p : Process)
      → strstr name mld ≡ true
      → Confined calls start p
      → Confined calls start (calls.pwrite name buf offset p).1
  creats :
      (name : Bytes) (mode : ℕ) (p : Process)
      → strstr name mld ≡ true
      → Confined calls start p
      → Confined calls start (calls.creat name mode p).1
  mkdirs :
      (name : Bytes) (mode : ℕ) (p : Process)
      → strstr name mld ≡ true
      → Confined calls start p
      → Confined calls start (calls.mkdir name mode p).1
  renames :
      (from to : Bytes) (p : Process)
      → strstr from mld ≡ true
      → strstr to mld ≡ true
      → Confined calls start p
      → Confined calls start (calls.rename from to p).1
  rmdirs :
      (name : Bytes) (p : Process)
      → strstr name mld ≡ true
      → Confined calls start p
      → Confined calls start (calls.rmdir name p).1
  unlinks :
      (name : Bytes) (p : Process)
      → strstr name mld ≡ true
      → Confined calls start p
      → Confined calls start (calls.unlink name p).1
  truncates :
      (name : Bytes) (offset : ℕ) (p : Process)
      → strstr name mld ≡ true
      → Confined calls start p
      → Confined calls start (calls.truncate name offset p).1
  forgets :
      (path : Bytes) (p : Process)
      → Confined calls start p
      → Confined calls start (record p { cache = release_image_buffer_by_path path p.cache })

-- The paths of a request all stand inside MLV files.
abbrev pub InsideRequest : Request → Type 0
InsideRequest (open_file path) = InsideMlv path
InsideRequest (create path mode) = InsideMlv path
InsideRequest (fsync path) = InsideMlv path
InsideRequest (mkdir path mode) = InsideMlv path
InsideRequest (release path) = InsideMlv path
InsideRequest (rename from to) = InsideMlv from × InsideMlv to
InsideRequest (rmdir path) = InsideMlv path
InsideRequest (unlink path) = InsideMlv path
InsideRequest (truncate path offset) = InsideMlv path
InsideRequest (write path buf offset) = InsideMlv path

module _ (slre_match : SlreMatch) (options : Options) (calls : Calls)
    (scheme : options.name_scheme ≡ 0) (start : Process) where
  -- The file that backs a path has ".MLD" in its name.
  backed :
      (path real : Bytes)
      → InsideMlv path
      → mlvfs_resolve_virtual slre_match options path ≡ some real
      → strstr real mld ≡ true
  backed path real v h = backing-InsideMlv slre_match options path real scheme v h

  check_mld_exists-Confined :
      (path : Bytes) (p : Process)
      → Confined calls start p
      → Confined calls start (check_mld_exists slre_match options calls path p)
  unfolding check_mld_exists
  check_mld_exists-Confined path p c = elim (Option-cases (find_part path mld)) [
    | inl e ↦ rw (check_mld_exists, e) c
    | inr (i, e) ↦
        let temp = take (i + 4) path in
        let holds = strstr-take path mld i e in
        let r = calls.stat temp p in
        elim (Bool-cases r.0) [
          | inl b ↦ rw (check_mld_exists, e, b) (stats temp p holds c)
          | inr b ↦ rw (check_mld_exists, e, b) (mkdirs temp 511 r.1 holds (stats temp p holds c))
        ]
  ]

  mlvfs_open-Confined :
      (path : Bytes) (p : Process)
      → InsideMlv path
      → Confined calls start p
      → Confined calls start (mlvfs_open slre_match options calls path p).1
  unfolding mlvfs_open
  mlvfs_open-Confined path p v c =
      elim (Option-cases (mlvfs_resolve_virtual slre_match options path)) [
        | inl e ↦ rw (mlvfs_open, e) c
        | inr (real, e) ↦
            let fd = calls.open_as real rdonly p in
            elim (Bool-cases fd.0) [
              | inl b ↦ rw (mlvfs_open, e, b) (opens real rdonly p (backed path real v e) c)
              | inr b ↦ rw (mlvfs_open, e, b) (opens real rdonly p (backed path real v e) c)
            ]
      ]

  mlvfs_create-Confined :
      (path : Bytes) (mode : ℕ) (p : Process)
      → InsideMlv path
      → Confined calls start p
      → Confined calls start (mlvfs_create slre_match options calls path mode p).1
  unfolding mlvfs_create
  mlvfs_create-Confined path mode p v c =
      elim (Option-cases (mlvfs_resolve_virtual slre_match options path)) [
        | inl e ↦ rw (mlvfs_create, e) c
        | inr (real, e) ↦
            let q = check_mld_exists slre_match options calls real p in
            let made =
              creats real mode q (backed path real v e) (check_mld_exists-Confined real p c) in
            elim (Bool-cases (calls.creat real mode q).0) [
              | inl b ↦ rw (mlvfs_create, e, b) made
              | inr b ↦ rw (mlvfs_create, e, b) made
            ]
      ]

  mlvfs_write-Confined :
      (path buf : Bytes) (offset : ℕ) (p : Process)
      → InsideMlv path
      → Confined calls start p
      → Confined calls start (mlvfs_write slre_match options calls path buf offset p).1
  unfolding mlvfs_write
  mlvfs_write-Confined path buf offset p v c =
      elim (Option-cases (mlvfs_resolve_virtual slre_match options path)) [
        | inl e ↦ rw (mlvfs_write, e) c
        | inr (real, e) ↦
            let fd = calls.open_as real rdwr p in
            let holds = backed path real v e in
            let opened = opens real rdwr p holds c in
            elim (Bool-cases fd.0) [
              | inl b ↦ rw (mlvfs_write, e, b) (pwrites real buf offset fd.1 holds opened)
              | inr b ↦ rw (mlvfs_write, e, b) opened
            ]
      ]

  mlvfs_rename-Confined :
      (from to : Bytes) (p : Process)
      → InsideMlv from
      → InsideMlv to
      → Confined calls start p
      → Confined calls start (mlvfs_rename slre_match options calls from to p).1
  unfolding mlvfs_rename
  mlvfs_rename-Confined from to p v w c =
      elim (Option-cases (mlvfs_resolve_virtual slre_match options from)) [
        | inl e ↦ rw (mlvfs_rename, e) c
        | inr (a, e) ↦ elim (Option-cases (mlvfs_resolve_virtual slre_match options to)) [
          | inl g ↦ rw (mlvfs_rename, e, g) c
          | inr (b, g) ↦
              rw (mlvfs_rename, e, g) (renames a b p (backed from a v e) (backed to b w g) c)
        ]
      ]

  mlvfs_release-Confined :
      (path : Bytes) (p : Process)
      → Confined calls start p
      → Confined calls start (mlvfs_release slre_match options calls path p).1
  unfolding mlvfs_release
  mlvfs_release-Confined path p c =
      let dng = string_ends_with path (b'.' ∷ b'd' ∷ b'n' ∷ b'g' ∷ []) in
      let gif = string_ends_with path (b'.' ∷ b'g' ∷ b'i' ∷ b'f' ∷ []) in
      elim (Bool-cases (dng || gif)) [ inl e ↦ rw e (forgets path p c) | inr e ↦ rw e c ]

  handle-Confined :
      (r : Request) (p : Process)
      → InsideRequest r
      → Confined calls start p
      → Confined calls start (handle slre_match options calls r p).1
  unfolding handle mlvfs_mkdir mlvfs_rmdir mlvfs_unlink mlvfs_truncate mlvfs_fsync
  handle-Confined (open_file path) p v c = mlvfs_open-Confined path p v c
  handle-Confined (create path mode) p v c = mlvfs_create-Confined path mode p v c
  handle-Confined (fsync path) p v c = c
  handle-Confined (mkdir path mode) p v c =
      elim (Option-cases (mlvfs_resolve_virtual slre_match options path)) [
        | inl e ↦ rw (mlvfs_mkdir, e) c
        | inr (real, e) ↦
            rw (mlvfs_mkdir, e)
              (mkdirs real mode (check_mld_exists slre_match options calls real p)
                (backed path real v e) (check_mld_exists-Confined real p c))
      ]
  handle-Confined (release path) p v c = mlvfs_release-Confined path p c
  handle-Confined (rename from to) p v c = mlvfs_rename-Confined from to p v.0 v.1 c
  handle-Confined (rmdir path) p v c =
      elim (Option-cases (mlvfs_resolve_virtual slre_match options path)) [
        | inl e ↦ rw (mlvfs_rmdir, e) c
        | inr (real, e) ↦ rw (mlvfs_rmdir, e) (rmdirs real p (backed path real v e) c)
      ]
  handle-Confined (unlink path) p v c =
      elim (Option-cases (mlvfs_resolve_virtual slre_match options path)) [
        | inl e ↦ rw (mlvfs_unlink, e) c
        | inr (real, e) ↦ rw (mlvfs_unlink, e) (unlinks real p (backed path real v e) c)
      ]
  handle-Confined (truncate path offset) p v c =
      elim (Option-cases (mlvfs_resolve_virtual slre_match options path)) [
        | inl e ↦ rw (mlvfs_truncate, e) c
        | inr (real, e) ↦ rw (mlvfs_truncate, e) (truncates real offset p (backed path real v e) c)
      ]
  handle-Confined (write path buf offset) p v c = mlvfs_write-Confined path buf offset p v c

  serve_on-Confined :
      (rs : List Request) (p : Process)
      → All InsideRequest rs
      → Confined calls start p
      → Confined calls start (serve slre_match options calls rs p)
  unfolding serve
  serve_on-Confined [] p v c = c
  serve_on-Confined (r ∷ rs) p v c =
      serve_on-Confined rs (handle slre_match options calls r p).1 v.1 (handle-Confined r p v.0 c)

  -- With the plain name scheme and any system calls, any sequence of requests to open, create,
  -- write, truncate, rename, remove, synchronise and release files, and to make and remove
  -- folders, whose paths all stand inside MLV files, reaches what comes of the process by
  -- system calls alone that are each given paths with ".MLD" in them, and by releases of image
  -- buffers: no call is given a path without ".MLD".
  pub serve-Confined :
      (rs : List Request)
      → All InsideRequest rs
      → Confined calls start (serve slre_match options calls rs start)
  serve-Confined rs v = serve_on-Confined rs start v done
