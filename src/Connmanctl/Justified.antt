-- ===== src/Connmanctl/Justified.antt =====
-- What a whole session of the shell may ask for, whatever is typed and whatever comes between
-- (examples/connmanctl.cpp).
use libcppconnman.Prelude.{
  ◌≡◌, refl, ◌⊎◌, inl, inr, String, List, [], ◌∷◌, All, All-append, Bool-cases,
}
use libcppconnman.GVariant.{ℤ}
use libcppconnman.Manager.Defs.{Manager}
use libcppconnman.Connmanctl.Actions.{Action, Next, Run, ◌and_then◌}
use libcppconnman.Connmanctl.Shell.{Shell}
use libcppconnman.Connmanctl.Loop.{handle_line}
use libcppconnman.Connmanctl.Allowed.{Allowed, AllAllowed, none-Allowed}
use libcppconnman.Connmanctl.Requests.{arg_of, run_line-Allowed}
use libcppconnman.Connmanctl.Session.{Event, handle_event, play}

abbrev pub Typed : Manager → String → List Event → Type 0
Typed m line [] = ⊥
Typed m line (event ∷ events) = (event ≡ Event.typed m line) ⊎ Typed m line events

-- One of the lines that were typed allows it, with the manager as it was then.
abbrev pub Justified : List Event → Action → Type 0
Justified events action =
    (m : Manager) × (line : String) × Typed m line events × Allowed m (arg_of line) action

later-Justified :
    (event : Event) (events : List Event) (actions : List Action)
    → All (Justified events) actions
    → All (Justified (event ∷ events)) actions
later-Justified event events [] j = tt
later-Justified event events (action ∷ actions) ((m, line, typed, allowed), j) =
    ((m, line, inr typed, allowed), later-Justified event events actions j)

now-Justified :
    (m : Manager) (line : String) (events : List Event) (actions : List Action)
    → All (Allowed m (arg_of line)) actions
    → All (Justified (Event.typed m line ∷ events)) actions
now-Justified m line events [] a = tt
now-Justified m line events (action ∷ actions) a =
    ((m, line, inl refl, a.0), now-Justified m line events actions a.1)

-- A step of the session and what follows it.
go_on-All :
    (P : Action → Type 0) (sh' : Shell) (run : Run) (rest : Shell × Run)
    → All P run.0
    → All P rest.1.0
    → All P
        (let whole : Shell × Run = elim run.1 [
          | Next.continue ↦ (rest.0, run and_then rest.1)
          | Next.leave ↦ (sh', run)
          | Next.thrown e ↦ (sh', run)
        ] in
          whole).1.0
unfolding ◌and_then◌
go_on-All P sh' (first, Next.continue) rest a b = All-append P first rest.1.0 a b
go_on-All P sh' (first, Next.leave) rest a b = a
go_on-All P sh' (first, Next.thrown e) rest a b = a

module _ (number : ℤ → String) (commands_container : List String) where
  handle_line-Allowed :
      (sh : Shell) (m : Manager) (line : String)
      → AllAllowed m (arg_of line) (handle_line number commands_container sh m line).1
  unfolding handle_line
  handle_line-Allowed sh m line = elim (Bool-cases sh.connecting) [
    | inl c ↦ rw (c, handle_line) (none-Allowed Next.continue)
    | inr c ↦ rw (c, handle_line) (run_line-Allowed number commands_container sh m line)
  ]

  handle_event-Justified :
      (event : Event) (events : List Event) (sh : Shell)
      → All (Justified (event ∷ events)) (handle_event number commands_container event sh).1.0
  unfolding handle_event
  handle_event-Justified (Event.typed m line) events sh =
      now-Justified m line events _ (handle_line-Allowed sh m line).all
  handle_event-Justified Event.end_of_input events sh = tt
  handle_event-Justified (Event.asked name) events sh = tt
  handle_event-Justified (Event.services_listed services) events sh = tt
  handle_event-Justified (Event.technologies_listed technologies) events sh = tt

  -- Whatever lines are typed in a session, whatever lists change and whatever the agent is asked
  -- between them: each request that the session makes is one that a typed line allows, with the manager
  -- as it was when that line was typed. It is for an object that the manager lists and that the line's
  -- second word names: a technology by its type, a service by its name or the last segment of its path.
  -- Power is only switched to what it is not, no passphrase of less than eight bytes and no frequency
  -- beyond an `int` is set, and a service is connected only while it is neither ready nor online and
  -- disconnected only while it is one of them. The agent is registered at `on` and unregistered at `off`.
  pub play-Justified :
      (sh : Shell) (events : List Event)
      → All (Justified events) (play number commands_container sh events).1.0
  unfolding play
  play-Justified sh [] = tt
  play-Justified sh (event ∷ events) =
      let (sh', run) = handle_event number commands_container event sh in
      let rest = play number commands_container sh' events in
      go_on-All (Justified (event ∷ events)) sh' run rest (handle_event-Justified event events sh)
        (later-Justified event events rest.1.0 (play-Justified sh' events))
