-- ===== src/Connmanctl/Words.antt =====
-- The words of a line: the trimming in `main` of examples/connmanctl.cpp and `std::istringstream >>`,
-- which the C++ standard defines. A text is the list of its characters; in the "C" locale no character
-- outside ASCII is a space or a digit.
use Prim.Native.Char.{Char, code}
use Prim.Native.Nat.{◌*◌}
use text.Mathlib.TextBridge.{of_list}
use mathlib.Core.List.{reverse}
use libcppconnman.Prelude.{
  ℕ, ◌+◌, ◌-◌, String, Bool, true, ◌&&◌, ◌||◌, List, [], ◌∷◌, ltb, ◌==◌, if◌then◌else◌,
}

abbrev pub Text : Type 0
Text = List Char

abbrev pub chars : String → Text
chars String.[] = []
chars (String.◌∷◌ c s) = c ∷ chars s

-- `std::isspace`: a space, or one of `\t \n \v \f \r`.
abbrev pub is_space : Char → Bool
is_space c = code c == 32 || (ltb 8 (code c) && ltb (code c) 14)

abbrev pub is_digit : Char → Bool
is_digit c = ltb 47 (code c) && ltb (code c) 58

-- Everything before the first character that is no space is erased.
unfoldable pub skip_space : Text → Text
skip_space [] = []
skip_space (c ∷ s) = let rest = skip_space s in if is_space c then rest else c ∷ s

unfoldable pub trim : Text → Text
unfolding skip_space
trim line = reverse (skip_space (reverse (skip_space line)))

-- The characters up to the next space, and the others.
unfoldable pub take_word : Text → Text × Text
take_word [] = ([], [])
take_word (c ∷ s) =
    let rest = take_word s in if is_space c then ([], c ∷ s) else (c ∷ rest.0, rest.1)

-- `iss >> word`: the word, empty at the end of the text, and what is left.
unfoldable pub next_word : Text → String × Text
unfolding skip_space take_word
next_word s = let (word, rest) = take_word (skip_space s) in (of_list word, rest)

-- `path.substr(path.find_last_of('/') + 1)`, which is the whole path if it has no '/'.
abbrev after_last : Text → Text → Text
after_last found [] = found
after_last found (c ∷ s) = after_last (if code c == 47 then s else found) s

unfoldable pub last_segment : String → String
last_segment path = of_list (after_last (chars path) (chars path))

-- `std::all_of(text.begin(), text.end(), ::isdigit)`
abbrev pub all_digits : Text → Bool
all_digits [] = true
all_digits (c ∷ s) = is_digit c && all_digits s

abbrev value_from : ℕ → Text → ℕ
value_from n [] = n
value_from n (c ∷ s) = value_from (n * 10 + (code c - 48)) s

-- The number that digits spell, which `std::stoi` returns if it fits an `int`.
unfoldable pub digits_value : Text → ℕ
digits_value s = value_from 0 s
