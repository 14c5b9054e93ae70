-- ===== src/Connmanctl/Actions.antt =====
-- What handling a line does: the output and the requests, in order, and how `main` of
-- examples/connmanctl.cpp goes on.
use libcppconnman.Prelude.{
  ℕ, String, Bool, true, false, Option, none, some, List, [], ◌∷◌, ◌++◌, Result, ok, throw,
  Exception, get_elem?, if◌then◌else◌,
}
use libcppconnman.Print.{Output}
use libcppconnman.Manager.Lists.{Object, Store}
use libcppconnman.Connmanctl.Messages.{Report}

-- The calls of the library's Technology and Service. `int` holds the frequency.
pub data Call : Type 0 where
  scan connect disconnect remove : Call
  set_powered set_tethering : Bool → Call
  set_tethering_identifier set_tethering_passphrase : String → Call
  set_tethering_freq : ℕ → Call

-- A request names its object by its address and carries the callback, if it has one.
pub data Action : Type 0 where
  print : Output → Action
  tech_call serv_call : ℕ → Call → Option Report → Action
  register_agent unregister_agent : Report → Action

-- The next line is read, the loop is left, or an exception leaves `main`.
pub data Next : Type 0 where
  continue leave : Next
  thrown : Exception → Next

abbrev pub Run : Type 0
Run = List Action × Next

abbrev pub say : Output → Run
say out = (Action.print out ∷ [], Next.continue)

abbrev pub one_request : Action → Run
one_request action = (action ∷ [], Next.continue)

abbrev pub nothing : Run
nothing = ([], Next.continue)

-- One after the other; the second does not begin if the first does not come to its end.
infixr 4 ◌and_then◌
unfoldable pub ◌and_then◌ : Run → Run → Run
(first, Next.continue) and_then (second, next) = (first ++ second, next)
(first, Next.leave) and_then rest = (first, Next.leave)
(first, Next.thrown e) and_then rest = (first, Next.thrown e)

-- `std::cout << props`
abbrev pub say_result : Result Output → Run
say_result (ok out) = say out
say_result (throw e) = ([], Next.thrown e)

-- The proxies of a list with their addresses.
abbrev pub objects : {P : Type 0} → Store P → List ℕ → List (ℕ × Object P)
objects store [] = []
objects store (a ∷ list) = elim (get_elem? store a) [
  | some o ↦ (a, o) ∷ objects store list
  | none ↦ objects store list
]

-- `std::ranges::find_if`
abbrev pub find_if : {A : Type 0} → (A → Bool) → List A → Option A
find_if test [] = none
find_if test (a ∷ list) = if test a then some a else find_if test list

-- The branches of the commands: `if`, what is done with what was found, and an empty list.
infix 1 when◌act◌otherwise◌
unfoldable pub when◌act◌otherwise◌ : Bool → Run → Run → Run
when true act r otherwise s = r
when false act r otherwise s = s

unfoldable pub on_found : {A : Type 0} → Option A → Run → (A → Run) → Run
on_found none missing found = missing
on_found (some a) missing found = found a

unfoldable pub on_empty : {A : Type 0} → List A → Run → Run → Run
on_empty [] empty other = empty
on_empty (a ∷ list) empty other = other
