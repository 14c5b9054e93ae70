-- ===== src/Connmanctl/Loop.antt =====
-- The loop of `main` in examples/connmanctl.cpp: what one line does, and what a session does.
use libcppconnman.Prelude.{String, Bool, false, ◌||◌, List, [], ◌∷◌, ◌++◌, str_eq, if◌then◌else◌}
use libcppconnman.GVariant.{ℤ}
use libcppconnman.Manager.Defs.{Manager}
use libcppconnman.Connmanctl.Words.{Text, chars, trim, next_word}
use libcppconnman.Connmanctl.Commands.{Command, command_map, print_container}
use libcppconnman.Connmanctl.Messages.{Report}
use libcppconnman.Connmanctl.Actions.{
  Action, Next, Run, say, one_request, nothing, when◌act◌otherwise◌,
}
use libcppconnman.Connmanctl.Shell.{Shell}
use libcppconnman.Connmanctl.Technologies.{technologies_command, scan_command, power_command}
use libcppconnman.Connmanctl.Tethering.{tether_command}
use libcppconnman.Connmanctl.Services.{services_command, connect_command, remove_command}

unfoldable pub agent_command : String → Run
agent_command arg =
    when str_eq arg "on"
    act one_request (Action.register_agent (Report.agent arg))
    otherwise (when str_eq arg "off"
        act one_request (Action.unregister_agent (Report.agent arg))
        otherwise say ("Usage: agent " ∷ "on" ∷ "/" ∷ "off" ∷ "\n" ∷ []))

-- No command has this name; an empty line does nothing.
unfoldable pub unknown_command : List String → String → Run
unknown_command commands_container cmd =
    when str_eq cmd ""
    act nothing
    otherwise say (
        "Unknown command: " ∷ cmd ∷ ".\n Available commands: " ∷ print_container commands_container)

-- `number` is how the stream writes an integer, and `commands_container` has the names of the commands
-- in the order of the `std::unordered_map`.
module _ (number : ℤ → String) (commands_container : List String) where
  -- `iss` is what follows the first two words of the line.
  unfoldable pub dispatch : Shell → Manager → String → String → Text → Run
  unfolding agent_command unknown_command technologies_command scan_command power_command
      tether_command services_command connect_command remove_command
  dispatch sh m cmd arg iss =
      let is : Command → Bool = λ command. str_eq cmd (command_map command) in
      let container = sh.technologies_container in
      when is Command.quit
      act ([], Next.leave)
      otherwise when is Command.technologies
      act technologies_command number m
      otherwise when is Command.agent
      act agent_command arg
      otherwise when is Command.services
      act services_command number m arg
      otherwise when is Command.scan
      act scan_command container m arg
      otherwise when is Command.enable || is Command.disable
      act power_command container m (str_eq cmd "enable") arg
      otherwise when is Command.tethering
      act tether_command container m arg iss
      otherwise when is Command.connect || is Command.disconnect
      act connect_command m (is Command.connect) arg
      otherwise when is Command.remove
      act remove_command m arg
      otherwise unknown_command commands_container cmd

  unfoldable pub run_line : Shell → Manager → String → Run
  unfolding trim next_word dispatch
  run_line sh m line =
      let (cmd, iss) = next_word (trim (chars line)) in
      let (arg, iss') = next_word iss in dispatch sh m cmd arg iss'

  -- A line that `readline` returned: the passphrase that is waited for, or a command, which goes to the
  -- history unless it is empty.
  unfoldable pub handle_line : Shell → Manager → String → Shell × Run
  unfolding run_line
  handle_line sh m line =
      if sh.connecting then (record sh { passphrase = line; connecting = false }, nothing) else (
        record sh { history = if str_eq line "" then sh.history else sh.history ++ line ∷ [] },
        run_line sh m line,
      )
