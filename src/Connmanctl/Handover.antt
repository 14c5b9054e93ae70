-- ===== src/Connmanctl/Handover.antt =====
-- A passphrase that is typed in the shell, from the line to the callback that waits for it: the callback
-- of onRequestInputPassphrase and the loop of `main` in examples/connmanctl.cpp. The callback looks at
-- the shell again when it has the lock, which may be long after it was woken.
use mathlib.Core.List.{append-nil}
use libcppconnman.Prelude.{
  ◌≡◌, refl, String, true, false, none, some, subst, sym, ◌∙◌, ap, List, [], ◌∷◌, ◌++◌, All, arith,
}
use libcppconnman.GVariant.{ℤ}
use libcppconnman.Manager.Defs.{Manager}
use libcppconnman.Connmanctl.Actions.{Run, nothing}
use libcppconnman.Connmanctl.Shell.{
  Shell, request_passphrase, passphrase_answer, services_changed, technologies_changed,
}
use libcppconnman.Connmanctl.Loop.{handle_line}
use libcppconnman.Connmanctl.Session.{Event, handle_event, play}

-- No line is typed and the input does not end: lists change, and the agent is asked again.
abbrev pub NotTyped : Event → Type 0
NotTyped (Event.typed m line) = ⊥
NotTyped Event.end_of_input = ⊥
NotTyped event = Unit {0}

-- The agent is not asked for a passphrase.
abbrev pub NotAsked : Event → Type 0
NotAsked (Event.asked name) = ⊥
NotAsked event = Unit {0}

-- The shell waits for a passphrase, with the history as it was.
abbrev pub Waits : List String → Shell → Type 0
Waits history sh = (sh.connecting ≡ true) × (sh.history ≡ history)

-- The line is what a callback that waited returns once it has the lock.
abbrev pub Holds : String → Shell → Type 0
Holds line sh = (sh.connecting ≡ false) × (sh.passphrase ≡ line)

-- The line was handed over and went nowhere else.
pub record HandedOver (line : String) (history : List String) (result : Shell × Run) : Type 0 where
  pub answer : passphrase_answer result.0 ≡ some (true, line)
  pub kept : result.0.history ≡ history
  pub silent : result.1 ≡ nothing

module _ (number : ℤ → String) (commands_container : List String) where
  Waits-typed :
      (history : List String) (sh : Shell) (m : Manager) (line : String)
      → Waits history sh
      → HandedOver line history (play number commands_container sh (Event.typed m line ∷ []))
  unfolding play passphrase_answer
  Waits-typed history sh m line w = record {
    answer = ground (arith, w.0);
    kept = ground (arith, w.0, w.1);
    silent = ground (arith, w.0);
  }

  handle_event-Holds :
      (line : String) (event : Event) (sh : Shell)
      → Holds line sh
      → NotAsked event
      → Holds line (handle_event number commands_container event sh).0
  unfolding handle_event handle_line services_changed technologies_changed
  handle_event-Holds line (Event.typed m line') sh h n = ground (arith, h.0, h.1)
  handle_event-Holds line Event.end_of_input sh h n = h
  handle_event-Holds line (Event.asked name) sh h n = absurd n
  handle_event-Holds line (Event.services_listed services) sh h n = h
  handle_event-Holds line (Event.technologies_listed techs) sh h n = h

  -- Until the agent is asked again, nothing takes the line away.
  play-Holds :
      (line : String) (later : List Event) (sh : Shell)
      → Holds line sh
      → All NotAsked later
      → Holds line (play number commands_container sh later).0
  unfolding play
  play-Holds line [] sh h l = h
  play-Holds line (event ∷ later) sh h l =
      let here = handle_event-Holds line event sh h l.0 in
      let rest =
        play-Holds line later (handle_event number commands_container event sh).0 here l.1 in
      ground (arith, here.0, here.1, rest.0, rest.1)

  -- What comes before a line is typed leaves the shell waiting.
  play-Waits :
      (history : List String) (between after : List Event) (sh : Shell)
      → Waits history sh
      → All NotTyped between
      → (sh' : Shell) × Waits history sh'
        × (play number commands_container sh (between ++ after)
            ≡ play number commands_container sh' after)
  unfolding request_passphrase play
  play-Waits history [] after sh w l = (sh, w, refl)
  play-Waits history (Event.typed m line ∷ between) after sh w l = absurd l.0
  play-Waits history (Event.end_of_input ∷ between) after sh w l = absurd l.0
  play-Waits history (Event.asked name ∷ between) after sh w l =
      play-Waits history between after (request_passphrase name sh) (refl, w.1) l.1
  play-Waits history (Event.services_listed services ∷ between) after sh w l =
      play-Waits history between after (services_changed services sh) w l.1
  play-Waits history (Event.technologies_listed technologies ∷ between) after sh w l =
      play-Waits history between after (technologies_changed technologies sh) w l.1

  after_asked :
      (name : String) (between after : List Event) (sh : Shell)
      → All NotTyped between
      → (sh' : Shell) × Waits sh.history sh'
        × (play number commands_container sh (Event.asked name ∷ between ++ after)
            ≡ play number commands_container sh' after)
  unfolding play handle_event request_passphrase
  after_asked name between after sh l =
      play-Waits sh.history between after (request_passphrase name sh) (refl, refl) l

  Waits-none :
      (history : List String) (sh : Shell)
      → Waits history sh
      → passphrase_answer (play number commands_container sh []).0 ≡ none
  unfolding play passphrase_answer
  Waits-none history sh w = ground (arith, w.0)

  typed-Holds :
      (history : List String) (sh : Shell) (m : Manager) (line : String) (later : List Event)
      → Waits history sh
      → All NotAsked later
      → Holds line (play number commands_container sh (Event.typed m line ∷ later)).0
  unfolding play handle_event handle_line
  typed-Holds history sh m line later w l =
      let rest =
        play-Holds line later (record sh { passphrase = line; connecting = false }) (refl, refl)
          l in
      (ground (arith, w.0, rest.0), ground (arith, w.0, rest.1))

  Holds-answer :
      (line : String) (sh : Shell) → Holds line sh → passphrase_answer sh ≡ some (true, line)
  unfolding passphrase_answer
  Holds-answer line sh h = ground (arith, h.0, h.1)

  typed-asked :
      (history : List String) (sh : Shell) (m : Manager) (line name : String)
      → Waits history sh
      → passphrase_answer
          (play number commands_container sh (Event.typed m line ∷ Event.asked name ∷ [])).0
        ≡ none
  unfolding play passphrase_answer
  typed-asked history sh m line name w = ground (arith, w.0)

  -- Once the agent is asked for a passphrase it has no answer, whatever lists change and whatever else it
  -- is asked meanwhile, until a line is typed. That line is neither run as a command nor put into the
  -- history, and it is the answer, with every space, whenever the callback gets the lock again, also
  -- after further lines, as long as the agent is not asked again before. If it is, the callback that was
  -- woken waits on.
  pub play-HandedOver :
      (name : String) (sh : Shell) (between : List Event) (m : Manager) (line : String)
      (later : List Event) (again : String)
      → All NotTyped between
      → All NotAsked later
      → (passphrase_answer (play number commands_container sh (Event.asked name ∷ between)).0
          ≡ none)
        × HandedOver line sh.history (
            play number commands_container sh
              (Event.asked name ∷ between ++ Event.typed m line ∷ []))
        × (passphrase_answer
              (play number commands_container sh
                (Event.asked name ∷ between ++ Event.typed m line ∷ later)).0
            ≡ some (true, line))
        × (passphrase_answer
              (play number commands_container sh
                (Event.asked name ∷ between ++ Event.typed m line ∷ Event.asked again ∷ [])).0
            ≡ none)
  play-HandedOver name sh between m line later again quiet unasked =
      let asking = Event.asked name ∷ between in
      let (s₀, w₀, e₀) = after_asked name between [] sh quiet in
      let (s₁, w₁, e₁) = after_asked name between (Event.typed m line ∷ []) sh quiet in
      let (s₂, w₂, e₂) = after_asked name between (Event.typed m line ∷ later) sh quiet in
      let (s₃, w₃, e₃) =
        after_asked name between (Event.typed m line ∷ Event.asked again ∷ []) sh quiet in
      (
        subst (λ events. passphrase_answer (play number commands_container sh events).0 ≡ none)
            (append-nil asking) (ap (λ r. passphrase_answer r.0) e₀ ∙ Waits-none sh.history s₀ w₀),
        subst (λ r. HandedOver line sh.history r) (sym e₁) (Waits-typed sh.history s₁ m line w₁),
        ap (λ r. passphrase_answer r.0) e₂
            ∙ Holds-answer line _ (typed-Holds sh.history s₂ m line later w₂ unasked),
        ap (λ r. passphrase_answer r.0) e₃ ∙ typed-asked sh.history s₃ m line again w₃,
      )
