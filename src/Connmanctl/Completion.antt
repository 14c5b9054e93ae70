-- ===== src/Connmanctl/Completion.antt =====
-- Completion of words: `completion` and `command_generator` of examples/connmanctl.cpp, which readline
-- calls.
use Prim.Native.Char.{code}
use Prim.Native.String.{len}
use text.Mathlib.TextBridge.{of_list}
use libcppconnman.Prelude.{
  ℕ, zero, suc, String, Bool, false, ◌&&◌, ◌||◌, not, Option, none, some, List, [], ◌∷◌, length,
  str_eq, ltb, ◌==◌, if◌then◌else◌,
}
use libcppconnman.Connmanctl.Words.{Text, chars, next_word}
use libcppconnman.Connmanctl.Commands.{Command, command_map, on_off_container}
use libcppconnman.Connmanctl.Shell.{Shell}

pub data Mode : Type 0 where
  command_mode service_hash tech_hash on_off : Mode

-- `command_generator` at state 0 takes the container of the mode.
abbrev pub container_of : List String → Shell → Mode → List String
container_of commands_container sh Mode.command_mode = commands_container
container_of commands_container sh Mode.service_hash = sh.services_container
container_of commands_container sh Mode.tech_hash = sh.technologies_container
container_of commands_container sh Mode.on_off = on_off_container

abbrev pub take : ℕ → Text → Text
take zero s = []
take (suc n) [] = []
take (suc n) (c ∷ s) = c ∷ take n s

-- `cmd.compare(0, len, text) == 0`
abbrev pub begins_with : String → String → Bool
begins_with text cmd = str_eq (of_list (take (length (chars text)) (chars cmd))) text

-- One call of `command_generator`: the words from `index` on are what is left of the container.
unfoldable pub command_generator : String → List String → Option String × List String
command_generator text [] = (none, [])
command_generator text (cmd ∷ left) =
    let later = command_generator text left in
    if begins_with text cmd then (some cmd, left) else later

-- At most `n` calls, until one returns null: `rl_completion_matches` calls so until the null.
unfoldable pub calls : ℕ → String → List String → List String
unfolding command_generator
calls zero text left = []
calls (suc n) text left =
    let (found, left') = command_generator text left in
    let others = calls n text left' in elim found [ none ↦ [] | some s ↦ s ∷ others ]

-- The last character of the line is ' '.
abbrev ends_in_blank : Text → Bool
ends_in_blank [] = false
ends_in_blank (c ∷ []) = code c == 32
ends_in_blank (c ∷ d ∷ s) = ends_in_blank (d ∷ s)

abbrev mode_of : String → Option Mode
mode_of command =
    let is : Command → Bool = λ c. str_eq command (command_map c) in
    if is Command.agent
    then some Mode.on_off
    else if is Command.enable || is Command.disable || is Command.scan || is Command.tethering
    then some Mode.tech_hash
    else if is Command.connect || is Command.disconnect || is Command.remove || is Command.services
    then some Mode.service_hash
    else none

-- The mode in which the words are offered, or none are: `start` is where the word begins, `rl_point`
-- the position of the cursor in the line, both in bytes.
unfoldable pub completion : ℕ → String → ℕ → Option Mode
unfolding next_word
completion start line rl_point =
    let (command, iss) = next_word (chars line) in
    let (arg, iss') = next_word iss in
    let behind =
      not (str_eq arg "") && ltb 0 rl_point && rl_point == len line && ends_in_blank (chars line) in
    if start == 0 then some Mode.command_mode else if behind then none else mode_of command
