-- ===== src/GVariant/Vectors.antt =====
-- as_to_vector and vector_to_as of src/dbus/gdbus_private.hpp. `array_s` reaches them as what an
-- iterator yields and as a type test.
use libcppconnman.Prelude.{
  String, ◌≡◌, refl, List, [], ◌∷◌, map, Result, ok, ◌>>=◌, map_ok, if◌then◌else◌, arith,
}
use libcppconnman.GVariant.{GVariant, GVariantLaws}
use libcppconnman.EnumMap.{EnumStringMap, from_string}

module _ {V : Type 0} ⦃g : GVariant V⦄ where
  unfoldable pub as_to_vector : V → List String
  as_to_vector array_s =
      if g.is_of_type array_s "as" then map (λ item. g.get_string item) (g.children array_s) else []

  unfoldable pub items_to_enums : {E : Type 0} → EnumStringMap E → List V → Result (List E)
  items_to_enums enum_map [] = ok []
  items_to_enums enum_map (item ∷ rest) = from_string enum_map (g.get_string item) >>= λ e.
      map_ok (λ es. e ∷ es) (items_to_enums enum_map rest)

  unfoldable pub as_to_enum_vector : {E : Type 0} → EnumStringMap E → V → Result (List E)
  unfolding items_to_enums
  as_to_enum_vector enum_map array_s =
      if g.is_of_type array_s "as" then items_to_enums enum_map (g.children array_s) else ok []

  unfoldable pub vector_to_as : List String → V
  vector_to_as vec = g.build "as" (map (λ s. g.new_string s) vec)

  map-get_string :
      GVariantLaws g
      → (vec : List String) → map (λ item. g.get_string item) (map (λ s. g.new_string s) vec) ≡ vec
  map-get_string laws [] = refl
  map-get_string laws (s ∷ vec) =
      ground (arith, laws.get_string-new_string s, map-get_string laws vec)

  -- What vector_to_as packs, as_to_vector unpacks.
  pub as_to_vector-vector_to_as :
      GVariantLaws g → (vec : List String) → as_to_vector (vector_to_as vec) ≡ vec
  unfolding as_to_vector vector_to_as
  as_to_vector-vector_to_as laws vec =
      let packed = map (λ s. g.new_string s) vec in
      ground (
        arith,
        laws.is_of_type-build "as" packed,
        laws.children-build "as" packed,
        map-get_string laws vec,
      )
