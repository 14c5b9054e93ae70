-- ===== src/Tests/Careless.antt =====
-- A GLib that answers carelessly for values of other types than a getter's, and that it agrees with the
-- concrete one on the others.
use libcppconnman.Prelude.{ℕ, ◌≡◌, refl, String, Bool, true, false, All, str_eq, if◌then◌else◌}
use libcppconnman.GVariant.{GVariant}
use libcppconnman.Signatures.Getters.{Agree}
use libcppconnman.Tests.Values.{
  Var, Vars, var, text, path, bytes, boolean, number, int, boxed, tuple, entry, array, nil, cons,
  items,
}

abbrev texts_only : Vars → Bool
texts_only nil = true
texts_only (cons (text s) vs) = texts_only vs
texts_only (cons v vs) = false

abbrev entries_only : Vars → Bool
entries_only nil = true
entries_only (cons (entry k v) vs) = entries_only vs
entries_only (cons v vs) = false

-- The types that a value may stand for; a number stands for one of each width.
abbrev pub fits : Var → String → Bool
fits (text s) type = str_eq type "s"
fits (path s) type = str_eq type "o"
fits (bytes s) type = str_eq type "ay"
fits (boolean b) type = str_eq type "b"
fits (number n) type =
    if str_eq type "y" then true else if str_eq type "q" then true else str_eq type "t"
fits (int n) type = str_eq type "i"
fits (boxed v) type = str_eq type "v"
fits (tuple vs) type = false
fits (entry k v) type = str_eq type "{sv}"
fits (array t vs) type =
    if str_eq type "as"
    then texts_only vs
    else if str_eq type "a{sv}"
    then entries_only vs
    else false

abbrev pub Fits : Var → String → Type 0
Fits v type = fits v type ≡ true

abbrev careless_text : Var → String
careless_text (text s) = s
careless_text v = "not a text"

abbrev careless_boolean : Var → ℕ
careless_boolean (boolean true) = 1
careless_boolean (boolean false) = 0
careless_boolean v = 1

abbrev pub careless : GVariant Var
careless = record var { get_string = careless_text; get_boolean = careless_boolean }

texts-Fits : (vs : Vars) → texts_only vs ≡ true → All (λ c. Fits c "s") (items (array "as" vs))
texts-Fits nil h = tt
texts-Fits (cons (text s) vs) h = (refl, texts-Fits vs h)
texts-Fits (cons (path s) vs) h = cc
texts-Fits (cons (bytes s) vs) h = cc
texts-Fits (cons (boolean b) vs) h = cc
texts-Fits (cons (number n) vs) h = cc
texts-Fits (cons (int n) vs) h = cc
texts-Fits (cons (boxed v) vs) h = cc
texts-Fits (cons (tuple ws) vs) h = cc
texts-Fits (cons (entry k v) vs) h = cc
texts-Fits (cons (array t ws) vs) h = cc

entries-Fits :
    (vs : Vars) → entries_only vs ≡ true → All (λ c. Fits c "{sv}") (items (array "a{sv}" vs))
entries-Fits nil h = tt
entries-Fits (cons (text s) vs) h = cc
entries-Fits (cons (path s) vs) h = cc
entries-Fits (cons (bytes s) vs) h = cc
entries-Fits (cons (boolean b) vs) h = cc
entries-Fits (cons (number n) vs) h = cc
entries-Fits (cons (int n) vs) h = cc
entries-Fits (cons (boxed v) vs) h = cc
entries-Fits (cons (tuple ws) vs) h = cc
entries-Fits (cons (entry k v) vs) h = (refl, entries-Fits vs h)
entries-Fits (cons (array t ws) vs) h = cc

careless-string : (v : Var) → Fits v "s" → var.get_string v ≡ careless.get_string v
careless-string (text s) h = refl
careless-string (path s) h = cc
careless-string (bytes s) h = cc
careless-string (boolean b) h = cc
careless-string (number n) h = cc
careless-string (int n) h = cc
careless-string (boxed v) h = cc
careless-string (tuple vs) h = cc
careless-string (entry k v) h = cc
careless-string (array t vs) h = cc

careless-boolean : (v : Var) → Fits v "b" → var.get_boolean v ≡ careless.get_boolean v
careless-boolean (text s) h = cc
careless-boolean (path s) h = cc
careless-boolean (bytes s) h = cc
careless-boolean (boolean true) h = refl
careless-boolean (boolean false) h = refl
careless-boolean (number n) h = cc
careless-boolean (int n) h = cc
careless-boolean (boxed v) h = cc
careless-boolean (tuple vs) h = cc
careless-boolean (entry k v) h = cc
careless-boolean (array t vs) h = cc

children-texts : (v : Var) → Fits v "as" → All (λ c. Fits c "s") (var.children v)
children-texts (text s) h = cc
children-texts (path s) h = cc
children-texts (bytes s) h = cc
children-texts (boolean b) h = cc
children-texts (number n) h = cc
children-texts (int n) h = cc
children-texts (boxed v) h = cc
children-texts (tuple vs) h = cc
children-texts (entry k v) h = cc
children-texts (array t vs) h = texts-Fits vs h

children-entries : (v : Var) → Fits v "a{sv}" → All (λ c. Fits c "{sv}") (var.children v)
children-entries (text s) h = cc
children-entries (path s) h = cc
children-entries (bytes s) h = cc
children-entries (boolean b) h = cc
children-entries (number n) h = cc
children-entries (int n) h = cc
children-entries (boxed v) h = cc
children-entries (tuple vs) h = cc
children-entries (entry k v) h = cc
children-entries (array t vs) h = entries-Fits vs h

key-text : (e : Var) → Fits e "{sv}" → Fits (var.get_child_value e 0) "s"
key-text (text s) h = cc
key-text (path s) h = cc
key-text (bytes s) h = cc
key-text (boolean b) h = cc
key-text (number n) h = cc
key-text (int n) h = cc
key-text (boxed v) h = cc
key-text (tuple vs) h = cc
key-text (entry k v) h = refl
key-text (array t vs) h = cc

value-boxed : (e : Var) → Fits e "{sv}" → Fits (var.get_child_value e 1) "v"
value-boxed (text s) h = cc
value-boxed (path s) h = cc
value-boxed (bytes s) h = cc
value-boxed (boolean b) h = cc
value-boxed (number n) h = cc
value-boxed (int n) h = cc
value-boxed (boxed v) h = cc
value-boxed (tuple vs) h = cc
value-boxed (entry k v) h = refl
value-boxed (array t vs) h = cc

pub careless-Agree : Agree Fits var careless
careless-Agree = record {
  string = careless-string;
  boolean = careless-boolean;
  byte = λ v t. refl;
  uint16 = λ v t. refl;
  int32 = λ v t. refl;
  uint64 = λ v t. refl;
  variant = λ v t. refl;
  is_of_type = λ v t. refl;
  strings = λ v t. refl;
  count_strings = λ v t. refl;
  entries = λ v t. refl;
  count_entries = λ v t. refl;
  key = λ e t. refl;
  value = λ e t. refl;
  strings-typed = children-texts;
  entries-typed = children-entries;
  key-typed = key-text;
  value-typed = value-boxed;
}
