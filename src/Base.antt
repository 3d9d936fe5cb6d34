-- ===== src/Base.antt =====
-- The names that the components share: the libraries' and those of the children, passed on.
mod Tests
mod Lists
mod Strings
mod Words
mod Files
mod Slices
mod Writes
unfoldable pub use Slices.{write_at}
pub use Slices.{
  write_at-write_at, slice-append_right, slice-append_left, slice-append_across, slice-slice,
}
pub use Writes.{
  length-write_at, slice-write_at_self, slice-write_at_before, slice-write_at_after, IsBytes,
  take-IsBytes, drop-IsBytes, slice-IsBytes, write_at-IsBytes, le_bytes-IsBytes, le_value-bound,
  le_bytes-le_value,
}
pub use Tests.*
pub use Lists.*
unfoldable pub use Files.{read_at, slice}
pub use Files.{
  read_at-le, take-append, drop-append, read_at-append, read_at_end, slice-append, slice-take,
  length-slice, read_at-prefix, read_at_start, read_at-slice, take_all, read_at-pos,
}
unfoldable pub use Strings.{bytes_eq}
pub use Strings.{Bytes, bytes_eq_refl, eq_of_bytes_eq}
pub use Prim.Native.Nat.{ℕ, zero, suc, ◌+◌, ◌-◌, ◌*◌, ◌/◌, ◌%◌, ◌^◌, ◌≤◌, ◌<◌, min, max}
pub use mathlib.Core.Path.{◌≡◌, refl, sym, ap, ap₂, ◌∙◌, subst, ◌≡⟨◌⟩◌, ◌∎}
pub use mathlib.Core.Logic.{◌≢◌, ◌↔◌, ◌⊎◌, inl, inr}
pub use mathlib.Core.Bool.{Bool, true, false, not, ◌&&◌, ◌||◌}
unfoldable pub use Words.{le_value, le_bytes}
pub use Words.{length-le_bytes, le_value-le_bytes}
pub use mathlib.Core.Option.{Option, none, some}
pub use mathlib.Core.List.{List, [], ◌∷◌, ◌++◌, map, append-nil, append_assoc}
pub use native.Mathlib.Omega.{arith}
