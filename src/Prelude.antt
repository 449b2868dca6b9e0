-- ===== src/Prelude.antt =====
-- The names that the other modules share: the libraries', passed on, and those of the children.
mod Tests
mod Lists
mod Table
mod Sorting
pub use Tests.*
pub use Lists.*
pub use Sorting.{
  trans, any-Reorder, Reorder-refl, Distinct-delete_where, first_key, first_key-order_by-desc,
  Reorder, Reorder-symm, All-Reorder, Reorder-update_where, order_by-Reorder, asc, desc, Distinct,
  Distinct-Reorder, order_by-Reorder_eq, AscendsFrom, order_by-AscendsFrom, order_by_unique,
  order_by_snoc, IsSorted, order_by-IsSorted, order_by-delete_where,
}
unfoldable pub use Sorting.{order_by}
pub use Table.*
pub use Prim.Native.Nat.{ℕ, zero, suc, ◌+◌, ◌-◌, ◌*◌, ◌/◌, ◌%◌, ◌≤◌, ◌<◌}
use Prim.Native.String.{◌++◌ as append}
pub use Prim.Native.String.{String}
pub use mathlib.Core.Path.{◌≡◌, refl, sym, ap, ap₂, subst, fun_ext, ◌∙◌}
pub use mathlib.Core.Logic.{◌≢◌, ◌↔◌, ◌⊎◌, inl, inr}
pub use mathlib.Core.Bool.{Bool, true, false, not, ◌&&◌, ◌||◌}
pub use mathlib.Core.Option.{Option, none, some}
pub use mathlib.Core.List.{List, [], ◌∷◌, ◌++◌, map, append-nil, append_assoc}
pub use native.Mathlib.Omega.{arith}
pub use native.Mathlib.Numerals.{add-one}
pub use text.Mathlib.Text.{◌==◌ as str_eq}
pub use text.Mathlib.TextEquality.{eq_iff}
pub use text.Mathlib.TextPositions.{eq_refl as str_eq_refl}

-- An f-string, from its parts.
abbrev pub f_string : List String → String
f_string [] = ""
f_string (s ∷ ss) = append s (f_string ss)

-- The test is false both ways round.
pub str_eq-false_symm : (s t : String) → str_eq s t ≡ false → str_eq t s ≡ false
str_eq-false_symm s t h = elim (Bool-cases (str_eq t s)) [
  | inl e ↦ let k : str_eq s t ≡ true = rw (sym ((eq_iff t s).0 e)) (str_eq_refl t) in cc
  | inr e ↦ e
]
