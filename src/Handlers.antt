-- ===== src/Handlers.antt =====
-- The handlers of mlvfs/main.c that change or open files: `mlvfs_create`, `mlvfs_mkdir`,
-- `mlvfs_rename`, `mlvfs_rmdir`, `mlvfs_unlink`, `mlvfs_truncate`, `mlvfs_write`, `mlvfs_open`,
-- `mlvfs_release`, `mlvfs_fsync` and `mlvfs_statfs`. The system calls are parameters.
pub mod Errors
pub mod Sandbox
mod Tests
use mlvfs.Base.{
  ℕ, zero, suc, ◌+◌, ◌*◌, ◌/◌, Bool, true, false, ◌&&◌, ◌||◌, Option, none, some, List, [], ◌∷◌,
  take, ◌==◌, if◌then◌else◌, Bytes,
}
use mlvfs.FrameNumber.{Number, plus, minus}
use mlvfs.Cache.{Cache, release_image_buffer_by_path}
use mlvfs.Index.Store.{Disk}
use mlvfs.Paths.{SlreMatch, Options, string_ends_with, starts_with, mld, mlvfs_resolve_virtual}

-- What the handlers read and change: the files, `errno`, and the image buffers.
pub record Process : Type 0 where
  pub disk : Disk
  pub errno : ℕ
  pub cache : Cache

-- How a file is opened: `O_RDONLY` or `O_RDWR`.
pub data Access : Type 0 where
  rdonly : Access
  rdwr : Access

-- The system calls. A call that can fail says whether it has succeeded, or gives no result if it
-- has not; `errno` is in the process that it leaves. Every descriptor that a handler opens it
-- closes before it returns, so it is the name that was opened.
pub record Calls : Type 0 where
  pub stat : Bytes → Process → Bool × Process
  pub open_as : Bytes → Access → Process → Bool × Process
  pub pread : Bytes → ℕ → ℕ → Process → Option Bytes × Process
  pub pwrite : Bytes → Bytes → ℕ → Process → Option ℕ × Process
  pub creat : Bytes → ℕ → Process → Bool × Process
  pub mkdir : Bytes → ℕ → Process → Bool × Process
  pub rename : Bytes → Bytes → Process → Bool × Process
  pub rmdir : Bytes → Process → Bool × Process
  pub unlink : Bytes → Process → Bool × Process
  pub truncate : Bytes → ℕ → Process → Bool × Process

abbrev pub eperm : ℕ
eperm = 1

abbrev pub enoent : ℕ
enoent = 2

-- `-n`.
unfoldable pub negated : ℕ → Number
negated n = if n == 0 then plus 0 else minus n

-- `strstr(path, part)`, as an index.
unfoldable pub find_part : Bytes → Bytes → Option ℕ
find_part [] part = if starts_with [] part then some 0 else none
find_part (b ∷ bs) part =
    let rest : Option ℕ = elim (find_part bs part) [ none ↦ none | some i ↦ some (suc i) ] in
    if starts_with (b ∷ bs) part then some 0 else rest

-- `struct statvfs`, as far as it is set.
pub record Statvfs : Type 0 where
  pub f_bsize : ℕ
  pub f_blocks : ℕ
  pub f_bfree : ℕ
  pub f_bavail : ℕ

-- The requests to the file system.
pub data Request : Type 0 where
  open_file : Bytes → Request
  create : Bytes → ℕ → Request
  fsync : Bytes → Request
  mkdir : Bytes → ℕ → Request
  release : Bytes → Request
  rename : Bytes → Bytes → Request
  rmdir : Bytes → Request
  unlink : Bytes → Request
  truncate : Bytes → ℕ → Request
  write : Bytes → Bytes → ℕ → Request

-- Writable DNG files are allowed, as mlvfs/mlvfs.h has it.
module _ (slre_match : SlreMatch) (options : Options) (calls : Calls) where
  unfoldable pub check_mld_exists : Bytes → Process → Process
  check_mld_exists path p = elim (find_part path mld) [
    | none ↦ p
    | some mld_ext ↦
        let temp = take (mld_ext + 4) path in
        let r = calls.stat temp p in if r.0 then r.1 else (calls.mkdir temp 511 r.1).1
  ]

  unfoldable pub mlvfs_open : Bytes → Process → Number × Process
  mlvfs_open path p = elim (mlvfs_resolve_virtual slre_match options path) [
    | none ↦ (plus 0, p)
    | some resolved_filename ↦
        let fd = calls.open_as resolved_filename rdonly p in
        if fd.0 then (plus 0, fd.1) else (negated fd.1.errno, fd.1)
  ]

  unfoldable pub mlvfs_create : Bytes → ℕ → Process → Number × Process
  mlvfs_create path mode p = elim (mlvfs_resolve_virtual slre_match options path) [
    | none ↦ (negated eperm, p)
    | some resolved_filename ↦
        let fd = calls.creat resolved_filename mode (check_mld_exists resolved_filename p) in
        if fd.0 then (plus 0, fd.1) else (negated fd.1.errno, fd.1)
  ]

  unfoldable pub mlvfs_fsync : Bytes → Process → Number × Process
  mlvfs_fsync path p = (plus 0, p)

  unfoldable pub mlvfs_mkdir : Bytes → ℕ → Process → Number × Process
  mlvfs_mkdir path mode p = elim (mlvfs_resolve_virtual slre_match options path) [
    | none ↦ (negated enoent, p)
    | some real_path ↦
        let r = calls.mkdir real_path mode (check_mld_exists real_path p) in (plus 0, r.1)
  ]

  unfoldable pub mlvfs_release : Bytes → Process → Number × Process
  mlvfs_release path p =
      let released = record p { cache = release_image_buffer_by_path path p.cache } in
      if string_ends_with path (b'.' ∷ b'd' ∷ b'n' ∷ b'g' ∷ [])
        || string_ends_with path (b'.' ∷ b'g' ∷ b'i' ∷ b'f' ∷ [])
      then (plus 0, released)
      else (plus 0, p)

  unfoldable pub mlvfs_rename : Bytes → Bytes → Process → Number × Process
  mlvfs_rename from to p = elim (mlvfs_resolve_virtual slre_match options from) [
    | none ↦ (negated enoent, p)
    | some real_from ↦ elim (mlvfs_resolve_virtual slre_match options to) [
      | none ↦ (negated enoent, p)
      | some real_to ↦ (plus 0, (calls.rename real_from real_to p).1)
    ]
  ]

  unfoldable pub mlvfs_rmdir : Bytes → Process → Number × Process
  mlvfs_rmdir path p = elim (mlvfs_resolve_virtual slre_match options path) [
    | none ↦ (negated enoent, p)
    | some real_path ↦ (plus 0, (calls.rmdir real_path p).1)
  ]

  unfoldable pub mlvfs_unlink : Bytes → Process → Number × Process
  mlvfs_unlink path p = elim (mlvfs_resolve_virtual slre_match options path) [
    | none ↦ (negated eperm, p)
    | some real_path ↦ (plus 0, (calls.unlink real_path p).1)
  ]

  unfoldable pub mlvfs_truncate : Bytes → ℕ → Process → Number × Process
  mlvfs_truncate path offset p = elim (mlvfs_resolve_virtual slre_match options path) [
    | none ↦ (negated eperm, p)
    | some real_path ↦ (plus 0, (calls.truncate real_path offset p).1)
  ]

  unfoldable pub mlvfs_write : Bytes → Bytes → ℕ → Process → Number × Process
  mlvfs_write path buf offset p = elim (mlvfs_resolve_virtual slre_match options path) [
    | none ↦ (negated p.errno, p)
    | some resolved_filename ↦
        let fd = calls.open_as resolved_filename rdwr p in
        let res = calls.pwrite resolved_filename buf offset fd.1 in
        let written : Number = elim res.0 [ none ↦ negated res.1.errno | some n ↦ plus n ] in
        if fd.0 then (written, res.1) else (negated fd.1.errno, fd.1)
  ]

  -- The table of the handlers.
  unfoldable pub handle : Request → Process → Number × Process
  handle (open_file path) p = mlvfs_open path p
  handle (create path mode) p = mlvfs_create path mode p
  handle (fsync path) p = mlvfs_fsync path p
  handle (mkdir path mode) p = mlvfs_mkdir path mode p
  handle (release path) p = mlvfs_release path p
  handle (rename from to) p = mlvfs_rename from to p
  handle (rmdir path) p = mlvfs_rmdir path p
  handle (unlink path) p = mlvfs_unlink path p
  handle (truncate path offset) p = mlvfs_truncate path offset p
  handle (write path buf offset) p = mlvfs_write path buf offset p

  -- The requests one after the other.
  unfoldable pub serve : List Request → Process → Process
  serve [] p = p
  serve (r ∷ rs) p = serve rs (handle r p).1

unfoldable pub mlvfs_statfs : Number × Statvfs
mlvfs_statfs =
    let f_bsize : ℕ = 512 in
    let f_blocks : ℕ = 1 * 1024 * 1024 * 1024 / f_bsize in
    (
      plus 0,
      record { f_bsize = f_bsize; f_blocks = f_blocks; f_bfree = f_blocks; f_bavail = f_blocks },
    )
