-- ===== src/Prelude.antt =====
-- The names that the other modules share: the libraries', passed on, and those of the children.
mod Tests
mod Lists
mod Bytes
mod Fallible
pub use Tests.*
pub use Lists.*
pub use Fallible.*
pub use Bytes.{
  Text, text, text_eq_self, text_eq→eq, text_eq_iff, text_eq-ne, Order-cases, Order, less, same,
  more, rune_start,
}
unfoldable pub use Bytes.{
  text_eq, compare_text, has_byte, valid_utf8_from, valid_utf8, continues, rune_tail,
  to_valid_utf8_from, to_valid_utf8, replace_nul, decimal,
}
pub use Prim.Native.Nat.{ℕ, zero, suc, ◌+◌, ◌-◌, ◌*◌, ◌/◌, ◌%◌, ◌^◌, ◌≤◌, ◌<◌, min, max, pred}
pub use mathlib.Core.Path.{◌≡◌, refl, sym, ap, subst, ◌∙◌}
pub use mathlib.Core.Logic.{◌≢◌, ◌↔◌, ◌⊎◌, inl, inr}
pub use mathlib.Core.Bool.{Bool, true, false, not, ◌&&◌, ◌||◌}
pub use mathlib.Core.Option.{Option, none, some}
pub use mathlib.Core.List.{List, [], ◌∷◌, ◌++◌, map}
pub use native.Mathlib.Omega.{arith}
