-- ===== src/GVariant.antt =====
-- GLib's GVariant, which the library calls and does not implement: an interface over an abstract
-- type of values. `children` is what a GVariantIter yields, in order.
use libcppconnman.Prelude.{ℕ, ◌<◌, ◌^◌, ◌≡◌, String, Bool, true, List, [], ◌∷◌, length}
pub mod Vectors

-- `gint32` values are carried, never computed with.
pub data ℤ : Type 0 where
  pos : ℕ → ℤ
  negsuc : ℕ → ℤ

pub record GVariant (V : Type 0) : Type 0 where
  pub get_string : V → String
  pub get_boolean : V → ℕ
  pub get_byte : V → ℕ
  pub get_uint16 : V → ℕ
  pub get_int32 : V → ℤ
  pub get_uint64 : V → ℕ
  pub get_variant : V → V
  pub get_child_value : V → ℕ → V
  pub n_children : V → ℕ
  pub children : V → List V
  pub is_of_type : V → String → Bool
  pub new_string : String → V
  pub new_object_path : String → V
  pub new_boolean : Bool → V
  pub new_int32 : ℤ → V
  pub new_uint64 : ℕ → V
  pub new_variant : V → V
  pub new_tuple : List V → V
  -- an array of bytes, `g_variant_new_fixed_array (G_VARIANT_TYPE_BYTE, …)` of a text
  pub new_bytes : String → V
  -- `g_variant_builder_end` of a builder of this type to which these values were added
  pub build : String → List V → V
  -- an entry `{sv}` of a builder
  pub new_entry : String → V → V

-- What GLib documents of the values that it makes, as far as the library relies on it.
pub record GVariantLaws {V : Type 0} (g : GVariant V) : Type 0 where
  pub get_string-new_string : (s : String) → g.get_string (g.new_string s) ≡ s
  pub get_boolean-new_true : g.get_boolean (g.new_boolean true) ≡ 1
  pub get_boolean-new_false : g.get_boolean (g.new_boolean Bool.false) ≡ 0
  pub get_int32-new_int32 : (n : ℤ) → g.get_int32 (g.new_int32 n) ≡ n
  pub get_uint64-new_uint64 : (n : ℕ) → n < 2 ^ 64 → g.get_uint64 (g.new_uint64 n) ≡ n
  pub get_variant-new_variant : (v : V) → g.get_variant (g.new_variant v) ≡ v
  pub child-pair_fst : (a b : V) → g.get_child_value (g.new_tuple (a ∷ b ∷ [])) 0 ≡ a
  pub child-pair_snd : (a b : V) → g.get_child_value (g.new_tuple (a ∷ b ∷ [])) 1 ≡ b
  pub children-build : (t : String) (vs : List V) → g.children (g.build t vs) ≡ vs
  pub n_children-build : (t : String) (vs : List V) → g.n_children (g.build t vs) ≡ length vs
  pub is_of_type-build : (t : String) (vs : List V) → g.is_of_type (g.build t vs) t ≡ true
