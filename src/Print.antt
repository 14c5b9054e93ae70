-- ===== src/Print.antt =====
-- What the `operator<<` of the properties share: a stream takes one piece of text after the other.
pub mod Total
use libcppconnman.Prelude.{
  String, Bool, true, false, Option, none, some, List, [], ◌∷◌, ◌++◌, Result, ok, map_ok,
}

-- What was written, in order.
abbrev pub Output : Type 0
Output = List String

-- `std::boolalpha`
abbrev pub show_bool : Bool → String
show_bool true = "true"
show_bool false = "false"

-- `ost << key << ": " << value << '\n'`
abbrev pub line : String → String → Output
line key value = key ∷ ": " ∷ value ∷ "\n" ∷ []

-- `for (const auto& item : items) ost << item << ' ';`
abbrev pub spaced : List String → Output
spaced [] = []
spaced (item ∷ items) = item ∷ " " ∷ spaced items

-- A part that is printed if it is there.
abbrev pub if_set : {A : Type 0} → (A → Result Output) → Option A → Result Output
if_set print none = ok []
if_set print (some a) = print a

-- The title, the items, the end of the line: nothing if there is no list.
abbrev pub line_of : String → Option (List String) → Output
line_of title none = []
line_of title (some items) = title ∷ spaced items ++ "\n" ∷ []

-- One output after the other; the first that throws ends it.
unfoldable pub both : Result Output → Result Output → Result Output
both (ok a) (ok b) = ok (a ++ b)
both (ok a) (Result.throw e) = Result.throw e
both (Result.throw e) r = Result.throw e

-- A line whose value may throw.
unfoldable pub line_ok : String → Result String → Result Output
line_ok key value = map_ok (line key) value
