-- ===== src/EnumMap.antt =====
-- EnumStringMap of src/dbus/gdbus_private.hpp: a constant table that maps an enumeration to text
-- and back, by a search from the front.
pub mod Laws
pub mod Tables
use libcppconnman.Prelude.{
  ℕ, String, ◌≡◌, List, [], ◌∷◌, Result, ok, throw, runtime_error, ◌==◌, str_eq, if◌then◌else◌,
}

-- An `enum class : uint8_t`, by the value of each enumerator.
pub record Enum {ℓ} (E : Type ℓ) : Type ℓ where
  pub to_int : E → ℕ
  pub to_int_injective : (a b : E) → to_int a ≡ to_int b → a ≡ b

abbrev pub EnumStringMap {ℓ} : Type ℓ → Type ℓ
EnumStringMap E = List (E × String)

module _ {ℓ} {E : Type ℓ} where
  unfoldable pub to_string : ⦃e : Enum E⦄ → EnumStringMap E → E → Result String
  to_string [] enum_value = throw (runtime_error "Invalid enum value")
  to_string ⦃e⦄ ((e', s) ∷ pairs) enum_value =
      if e.to_int e' == e.to_int enum_value then ok s else to_string pairs enum_value

  unfoldable pub from_string : EnumStringMap E → String → Result E
  from_string [] str = throw (runtime_error "Invalid string value")
  from_string ((e', s) ∷ pairs) str = if str_eq s str then ok e' else from_string pairs str
