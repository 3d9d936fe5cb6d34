-- ===== src/Handlers/Errors.antt =====
-- What the handlers of mlvfs/main.c do on virtual files.
use mlvfs.Base.{
  ℕ, ◌≡◌, refl, ap, sym, ◌∙◌, inl, inr, true, false, none, some, List, [], ◌∷◌, Bytes, Option-cases,
  All,
}
use mlvfs.FrameNumber.{plus, minus}
use mlvfs.Paths.{SlreMatch, Options, strstr, hidden, is_virtual_name, mlvfs_resolve_virtual}
use mlvfs.Paths.Names.{IsName, join, split_mlv}
use mlvfs.Paths.Backing.{backing, mlvfs_resolve_virtual_lem}
use mlvfs.Handlers.{
  Process, Calls, negated, mlvfs_open, mlvfs_create, mlvfs_mkdir, mlvfs_rename, mlvfs_rmdir,
  mlvfs_unlink, mlvfs_truncate, mlvfs_write,
}

-- A path that names a virtual file: the name stands directly in an MLV file.
pub record VirtualFile (path : Bytes) : Type 0 where
  pub names : List Bytes
  pub mlv : List Bytes
  pub name : Bytes
  pub path_lem : path ≡ b'/' ∷ join names
  pub names_lem : All IsName names
  pub shown : strstr path hidden ≡ false
  pub split : split_mlv names ≡ some (mlv, name ∷ [])
  pub ending : is_virtual_name name ≡ true

module _ (slre_match : SlreMatch) (options : Options) (calls : Calls) where
  resolve-VirtualFile :
      (path : Bytes)
      → options.name_scheme ≡ 0
      → VirtualFile path
      → mlvfs_resolve_virtual slre_match options path ≡ none
  unfolding backing
  resolve-VirtualFile path scheme v =
      let shown : strstr (b'/' ∷ join v.names) hidden ≡ false =
        ap (λ (x : Bytes). strstr x hidden) (sym v.path_lem) ∙ v.shown in
      ap (mlvfs_resolve_virtual slre_match options) v.path_lem
      ∙ (mlvfs_resolve_virtual_lem slre_match options v.names scheme v.names_lem shown
          ∙ rw (v.split, backing, v.ending) refl)

  -- With the plain name scheme, requests to change a virtual file change nothing at all, and fail:
  -- with EPERM for its creation, removal and truncation, and with ENOENT for a folder of its name, made or
  -- removed, and for a rename from it or to it, whatever the other path is. A write changes nothing either,
  -- but returns the negated errno of an earlier call, and so 0 where there was none. Opening it succeeds.
  pub requests_of_VirtualFile :
      (path : Bytes) (p : Process)
      → options.name_scheme ≡ 0
      → VirtualFile path
      → ((mode : ℕ) → mlvfs_create slre_match options calls path mode p ≡ (minus 1, p))
        × (mlvfs_unlink slre_match options calls path p ≡ (minus 1, p))
        × ((offset : ℕ) → mlvfs_truncate slre_match options calls path offset p ≡ (minus 1, p))
        × ((mode : ℕ) → mlvfs_mkdir slre_match options calls path mode p ≡ (minus 2, p))
        × (mlvfs_rmdir slre_match options calls path p ≡ (minus 2, p))
        × ((to : Bytes) → mlvfs_rename slre_match options calls path to p ≡ (minus 2, p))
        × ((from : Bytes) → mlvfs_rename slre_match options calls from path p ≡ (minus 2, p))
        × ((buf : Bytes) (offset : ℕ)
            → mlvfs_write slre_match options calls path buf offset p ≡ (negated p.errno, p))
        × (mlvfs_open slre_match options calls path p ≡ (plus 0, p))
  unfolding mlvfs_create mlvfs_unlink mlvfs_truncate mlvfs_mkdir mlvfs_rmdir mlvfs_rename
      mlvfs_write mlvfs_open negated
  requests_of_VirtualFile path p scheme v =
      let e = resolve-VirtualFile path scheme v in
      (
        λ mode. rw (mlvfs_create, e) refl,
        rw (mlvfs_unlink, e) refl,
        λ offset. rw (mlvfs_truncate, e) refl,
        λ mode. rw (mlvfs_mkdir, e) refl,
        rw (mlvfs_rmdir, e) refl,
        λ to. rw (mlvfs_rename, e) refl,
        λ from. elim (Option-cases (mlvfs_resolve_virtual slre_match options from)) [
          | inl f ↦ rw (mlvfs_rename, f) refl
          | inr (g, f) ↦ rw (mlvfs_rename, f, e) refl
        ],
        λ buf offset. rw (mlvfs_write, e) refl,
        rw (mlvfs_open, e) refl,
      )
