-- ===== src/Common.antt =====
-- What the other modules share: names of the libraries, tests, lists, byte strings, dictionaries
-- and the three ways in which a Go function ends.
mod Tests
mod Lists
mod Text
mod Maps
mod Decimal
mod Ends
mod Net
mod Masks
unfoldable pub use Tests.*
unfoldable pub use Lists.*
unfoldable pub use Text.*
unfoldable pub use Maps.*
unfoldable pub use Ends.*
unfoldable pub use Net.*
pub use Masks.*
pub use Prim.Native.Nat.{
  ℕ, zero, suc, ◌+◌, ◌-◌, ◌*◌, ◌/◌, ◌%◌, ◌^◌, ◌≤◌, ◌<◌, min, bit_xor, bit_and,
}
pub use mathlib.Core.Path.{◌≡◌, refl, sym, ap, ap₂, subst, ◌∙◌, ◌≡⟨◌⟩◌, ◌∎}
pub use mathlib.Core.Logic.{◌≢◌, ◌↔◌, ◌⊎◌, inl, inr}
pub use mathlib.Core.Bool.{Bool, true, false, not, ◌&&◌, ◌||◌}
pub use mathlib.Core.Option.{Option, none, some}
pub use mathlib.Core.List.{List, [], ◌∷◌, ◌++◌, map, append-nil, append_assoc}
pub use native.Mathlib.Omega.{arith}
unfoldable pub use mynetwork.Common.Decimal.{
  is_digit, decimal, all_digits, digits_value, number_of, atoi,
}
pub use mynetwork.Common.Decimal.{decimal-all_digits, atoi-decimal}
