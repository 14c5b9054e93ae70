-- ===== src/Tests/Values.antt =====
-- A concrete GVariant: values as trees. It has the documented laws, so they can hold together.
use Prim.Native.String.{◌++◌ as text_append}
use libcppconnman.Prelude.{
  ℕ, zero, suc, ◌≡◌, refl, String, Bool, true, List, [], ◌∷◌, map, length, str_eq, eq_iff, arith,
}
use libcppconnman.GVariant.{GVariant, GVariantLaws, ℤ, pos}

mutual
  pub data Var : Type 0 where
    text path bytes : String → Var
    boolean : Bool → Var
    number : ℕ → Var
    int : ℤ → Var
    boxed : Var → Var
    tuple : Vars → Var
    entry : String → Var → Var
    array : String → Vars → Var

  pub data Vars : Type 0 where
    nil : Vars
    cons : Var → Vars → Vars

abbrev pub pack : List Var → Vars
pack [] = nil
pack (v ∷ vs) = cons v (pack vs)

abbrev unpack : Vars → List Var
unpack nil = []
unpack (cons v vs) = v ∷ unpack vs

abbrev at : Vars → ℕ → Var
at nil i = text ""
at (cons v vs) zero = v
at (cons v vs) (suc i) = at vs i

abbrev read_text : Var → String
read_text (text s) = s
read_text (path s) = s
read_text v = ""

abbrev read_boolean : Var → ℕ
read_boolean (boolean true) = 1
read_boolean v = 0

abbrev read_number : Var → ℕ
read_number (number n) = n
read_number v = 0

abbrev read_int : Var → ℤ
read_int (int n) = n
read_int v = pos 0

abbrev unbox : Var → Var
unbox (boxed v) = v
unbox v = v

abbrev pub items : Var → List Var
items (tuple vs) = unpack vs
items (entry k v) = text k ∷ boxed v ∷ []
items (array t vs) = unpack vs
items v = []

abbrev child : Var → ℕ → Var
child (tuple vs) i = at vs i
child (entry k v) i = at (cons (text k) (cons (boxed v) nil)) i
child (array t vs) i = at vs i
child v i = text ""

unfoldable mutual
  -- The type of a value, as GLib writes it.
  pub type_of : Var → String
  type_of (text s) = "s"
  type_of (path s) = "o"
  type_of (bytes s) = "ay"
  type_of (boolean b) = "b"
  type_of (number n) = "t"
  type_of (int n) = "i"
  type_of (boxed v) = "v"
  type_of (tuple vs) = text_append "(" (text_append (types_of vs) ")")
  type_of (entry k v) = "{sv}"
  type_of (array t vs) = t

  pub types_of : Vars → String
  types_of nil = ""
  types_of (cons v nil) = type_of v
  types_of (cons v (cons w vs)) = text_append (type_of v) (types_of (cons w vs))

abbrev pub has_type : Var → String → Bool
has_type (text s) type = str_eq "s" type
has_type (path s) type = str_eq "o" type
has_type (bytes s) type = str_eq "ay" type
has_type (boolean b) type = str_eq "b" type
has_type (number n) type = str_eq "t" type
has_type (int n) type = str_eq "i" type
has_type (boxed v) type = str_eq "v" type
has_type (tuple vs) type = str_eq (type_of (tuple vs)) type
has_type (entry k v) type = str_eq "{sv}" type
has_type (array t vs) type = str_eq t type

-- The type that a value has is the one that is written for it.
pub has_type-type_of : (v : Var) (type : String) → has_type v type ≡ true → type_of v ≡ type
unfolding type_of
has_type-type_of (text s) type h = (eq_iff "s" type).0 h
has_type-type_of (path s) type h = (eq_iff "o" type).0 h
has_type-type_of (bytes s) type h = (eq_iff "ay" type).0 h
has_type-type_of (boolean b) type h = (eq_iff "b" type).0 h
has_type-type_of (number n) type h = (eq_iff "t" type).0 h
has_type-type_of (int n) type h = (eq_iff "i" type).0 h
has_type-type_of (boxed v) type h = (eq_iff "v" type).0 h
has_type-type_of (tuple vs) type h = (eq_iff (type_of (tuple vs)) type).0 h
has_type-type_of (entry k v) type h = (eq_iff "{sv}" type).0 h
has_type-type_of (array t vs) type h = (eq_iff t type).0 h

instance abbrev pub var : GVariant Var
var = record {
  get_string = read_text;
  get_boolean = read_boolean;
  get_byte = read_number;
  get_uint16 = read_number;
  get_int32 = read_int;
  get_uint64 = read_number;
  get_variant = unbox;
  get_child_value = child;
  n_children = λ v. length (items v);
  children = items;
  is_of_type = has_type;
  new_string = text;
  new_object_path = path;
  new_boolean = boolean;
  new_int32 = int;
  new_uint64 = number;
  new_variant = boxed;
  new_tuple = λ vs. tuple (pack vs);
  new_bytes = bytes;
  build = λ type vs. array type (pack vs);
  new_entry = entry;
}

unpack-pack : (vs : List Var) → unpack (pack vs) ≡ vs
unpack-pack [] = refl
unpack-pack (v ∷ vs) = ground (arith, unpack-pack vs)

pub var_laws : GVariantLaws var
var_laws = record {
  get_string-new_string = λ s. refl;
  get_boolean-new_true = refl;
  get_boolean-new_false = refl;
  get_int32-new_int32 = λ n. refl;
  get_uint64-new_uint64 = λ n h. refl;
  get_variant-new_variant = λ v. refl;
  child-pair_fst = λ a b. refl;
  child-pair_snd = λ a b. refl;
  children-build = λ t vs. unpack-pack vs;
  n_children-build = λ t vs. rw (unpack-pack vs);
  is_of_type-build = λ t vs. (eq_iff t t).1 refl;
}

-- A dictionary `a{sv}` with these entries.
abbrev pub dict : List (String × Var) → Var
dict entries = array "a{sv}" (pack (map (λ e. var.new_entry e.0 e.1) entries))

abbrev pub strings : List String → Var
strings texts = array "as" (pack (map (λ s. text s) texts))
