-- ===== src/Base.antt =====
-- The names that the other modules share: the libraries' and those of the children.
mod Tests
mod Text
mod Table
mod Fallible
pub mod Relation
pub mod Int
pub use Tests.*
unfoldable pub use Table.{update, delete, select, find, exists, count, best, first_by}
pub use Table.{
  length, get_elem?, find-mem, find-none-false, find_of_mem, exists_of_mem, exists-mem,
  exists_false, mem-update, update-mem, mem-delete, delete-mem, select-mem, first_by-mem, unlisted,
  count_none, count-positive, count_mono, count-update, count-mem, find-update,
}
pub use Fallible.*
pub use Prim.Native.Nat.{ℕ, zero, suc, ◌+◌, ◌-◌, ◌*◌, ◌/◌, ◌≤◌, ◌<◌}
pub use Prim.Native.String.{String}
pub use mathlib.Core.Path.{◌≡◌, refl, sym, ap, subst, ◌∙◌}
pub use mathlib.Core.Logic.{◌≢◌, ◌↔◌, ◌⊎◌, inl, inr}
pub use mathlib.Core.Bool.{Bool, true, false, not, ◌&&◌, ◌||◌}
pub use mathlib.Core.Option.{Option, none, some}
pub use mathlib.Core.List.{List, [], ◌∷◌, map, Memᴰ}
pub use native.Mathlib.Omega.{arith}
unfoldable pub use Text.{◌==◌, text_length, ◌^^◌, trim_prefix, cut, decimal}
pub use Text.{◌<>◌, ==→eq, eq→==, ==_refl, ==_false, eq-cases, codes, longer, joined_there}
