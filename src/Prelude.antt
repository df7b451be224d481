-- ===== src/Prelude.antt =====
-- What the modules of the library share: the libraries' names, passed on, and those of the children.
mod Tests
mod Lists
mod Keys
mod Int
pub use Tests.*
pub use Lists.*
pub use Keys.{
  Text, text, Eq, ◌=?◌, text_eq_iff, Text-Eq, =?_refl, =?→eq, =?_ne, find-put, find-erase,
  find-put_self, find-put_ne, text_lt_irrefl, text_lt_trans,
}
pub use Int.{
  ℤ, pos, negsuc, pos_part, neg_part, sub_ℕ, ◌≤ℤ◌, ◌<ℤ◌, ltb_ℤ, leb_ℤ, eqb_ℤ, +ℤ_parts, -ℤ_parts,
  eq_of_parts, int_laws, +ℤ-pos, -ℤ-pos,
}
unfoldable pub use Int.{◌+ℤ◌, ◌-ℤ◌}
unfoldable pub use Keys.{text_eq, text_lt, find, put, erase, emplace}
pub use Prim.Native.Nat.{ℕ, zero, suc, ◌+◌, ◌-◌, ◌*◌, ◌/◌, ◌%◌, ◌^◌, ◌≤◌, ◌<◌}
pub use mathlib.Core.Path.{◌≡◌, refl, sym, ap, ◌∙◌, subst}
pub use mathlib.Core.Logic.{◌≢◌, ◌↔◌, ◌⊎◌, inl, inr}
pub use mathlib.Core.Bool.{Bool, true, false, not, ◌&&◌, ◌||◌}
pub use mathlib.Core.Option.{Option, none, some}
pub use mathlib.Core.List.{List, [], ◌∷◌, ◌++◌, map, Memᴰ}
pub use native.Mathlib.Omega.{arith}
