-- ===== src/Connmanctl/Session.antt =====
-- A session of the shell: the lines that are typed and the callbacks that come between them
-- (examples/connmanctl.cpp).
use libcppconnman.Prelude.{◌≡◌, refl, String, false, List, [], ◌∷◌, ◌++◌, eq_iff}
use libcppconnman.GVariant.{ℤ}
use libcppconnman.Manager.Lists.{Object}
use libcppconnman.Manager.Defs.{Manager}
use libcppconnman.Service.Props.{ServProperties}
use libcppconnman.Technology.Props.{TechProperties}
use libcppconnman.Connmanctl.Actions.{Action, Next, Run, nothing, ◌and_then◌, when◌act◌otherwise◌}
use libcppconnman.Connmanctl.Words.{Text, chars, trim, next_word}
use libcppconnman.Connmanctl.Shell.{
  Shell, request_passphrase, services_changed, technologies_changed,
}
use libcppconnman.Connmanctl.Loop.{handle_line, run_line, dispatch}

-- A line that was typed, with the manager as it is then, or the end of the input; the agent is asked
-- for the passphrase of a service; a list has changed.
pub data Event : Type 0 where
  typed : Manager → String → Event
  end_of_input : Event
  asked : String → Event
  services_listed : List (Object ServProperties) → Event
  technologies_listed : List (Object TechProperties) → Event

module _ (number : ℤ → String) (commands_container : List String) where
  unfoldable pub handle_event : Event → Shell → Shell × Run
  unfolding handle_line request_passphrase services_changed technologies_changed
  handle_event (Event.typed m line) sh = handle_line number commands_container sh m line
  handle_event Event.end_of_input sh = (sh, ([], Next.leave))
  handle_event (Event.asked name) sh = (request_passphrase name sh, nothing)
  handle_event (Event.services_listed services) sh = (services_changed services sh, nothing)
  handle_event (Event.technologies_listed techs) sh = (technologies_changed techs sh, nothing)

  -- One event after the other, until the loop is left or an exception leaves it.
  unfoldable pub play : Shell → List Event → Shell × Run
  unfolding handle_event ◌and_then◌
  play sh [] = (sh, nothing)
  play sh (event ∷ events) =
      let (sh', run) = handle_event event sh in
      let rest = play sh' events in
      elim run.1 [
        | Next.continue ↦ (rest.0, run and_then rest.1)
        | Next.leave ↦ (sh', run)
        | Next.thrown e ↦ (sh', run)
      ]

-- What `main` prints when it has left the loop.
abbrev pub farewell : Run → Run
farewell (actions, Next.leave) = (actions ++ Action.print ("Exiting.\n" ∷ []) ∷ [], Next.leave)
farewell (actions, Next.continue) = (actions, Next.continue)
farewell (actions, Next.thrown e) = (actions, Next.thrown e)

module _ (number : ℤ → String) (commands_container : List String) where
  dispatch-quit :
      (sh : Shell) (m : Manager) (cmd arg : String) (iss : Text)
      → cmd ≡ "quit"
      → dispatch number commands_container sh m cmd arg iss ≡ ([], Next.leave)
  unfolding dispatch when◌act◌otherwise◌
  dispatch-quit sh m cmd arg iss q = rw ((eq_iff cmd "quit").1 q) refl

  handle_line-quit :
      (sh : Shell) (m : Manager) (line : String)
      → sh.connecting ≡ false
      → (next_word (trim (chars line))).0 ≡ "quit"
      → (handle_line number commands_container sh m line).1 ≡ ([], Next.leave)
  unfolding handle_line run_line
  handle_line-quit sh m line c q =
      let (cmd, iss) = next_word (trim (chars line)) in
      let (arg, iss') = next_word iss in rw (c, handle_line) (dispatch-quit sh m cmd arg iss' q)

  play-leave :
      (event : Event) (sh : Shell) (after : List Event)
      → (handle_event number commands_container event sh).1 ≡ ([], Next.leave)
      → (play number commands_container sh (event ∷ after)).1 ≡ ([], Next.leave)
  unfolding play
  play-leave event sh after h = rw (h, play) h

  -- A line whose first word is quit, typed while no passphrase is waited for, ends the session: it asks
  -- for nothing, and whatever would come after it is not handled.
  pub play-quit :
      (sh : Shell) (m : Manager) (line : String) (after : List Event)
      → sh.connecting ≡ false
      → (next_word (trim (chars line))).0 ≡ "quit"
      → (play number commands_container sh (Event.typed m line ∷ after)).1 ≡ ([], Next.leave)
  unfolding handle_event
  play-quit sh m line after c q =
      play-leave (Event.typed m line) sh after (handle_line-quit sh m line c q)
