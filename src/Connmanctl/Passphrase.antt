-- ===== src/Connmanctl/Passphrase.antt =====
-- The passphrase that is typed in connmanctl on its way to connman: examples/connmanctl.cpp, the agent of
-- src/dbus/gconnman_agent.cpp and setup_agent of src/dbus/gconnman_manager.cpp.
use libcppconnman.Prelude.{
  ℕ, ◌≡◌, String, Bool, true, ◌⊎◌, inl, inr, subst, some, List, [], ◌∷◌, ◌++◌, All, ok, arith,
}
use libcppconnman.GVariant.{GVariant, ℤ}
use libcppconnman.Service.Props.{ServProperties}
use libcppconnman.Agent.{Reply, return_value, dispatch_method_call, replies}
use libcppconnman.Manager.Lists.{Store, find_path}
use libcppconnman.Manager.Defs.{Manager}
use libcppconnman.Manager.Fields.{InputType, parse_fields, classify_input}
use libcppconnman.Manager.Input.{
  InputCallbacks, on_request_input_passphrase, build_answer, request_input,
}
use libcppconnman.Manager.Answers.{setup_agent}
use libcppconnman.Connmanctl.Shell.{Shell, passphrase_answer}
use libcppconnman.Connmanctl.Session.{Event, play}
use libcppconnman.Connmanctl.Handover.{NotTyped, NotAsked, play-HandedOver}

-- The manager's callbacks with the shell's for a passphrase, which has returned this answer.
abbrev pub answering : Bool × String → InputCallbacks → InputCallbacks
answering answer = on_request_input_passphrase (some (λ service. ok answer))

-- The kinds of request for which the callback for a passphrase is called.
abbrev pub AsksPassphrase : InputType → Type 0
AsksPassphrase kind =
    (kind ≡ InputType.input_wpa2_passphrase)
    ⊎ (kind ≡ InputType.input_wpa2_passphrase_wps_alternative)

module _ {V : Type 0} ⦃g : GVariant V⦄ where
  abbrev pub path_of : V → String
  path_of parameters = g.get_string (g.get_child_value parameters 0)

  abbrev pub kind_of : V → InputType
  kind_of parameters = classify_input (parse_fields (g.get_child_value parameters 1))

  -- The replies with the members of this dictionary.
  abbrev pub answer_with : List (String × V) → List (Reply V)
  answer_with entries = return_value (some (g.new_tuple (build_answer entries ∷ []))) ∷ []

  dispatch-passphrase :
      (line : String) (cbs : InputCallbacks) (store : Store ServProperties) (services : List ℕ)
      (parameters : V) (service : ℕ)
      → find_path store (path_of parameters) services ≡ some service
      → AsksPassphrase (kind_of parameters)
      → replies (
          dispatch_method_call
            (setup_agent (answering (true, line) cbs) store services)
            "RequestInput"
            parameters)
        ≡ answer_with (("Passphrase", g.new_string line) ∷ [])
  unfolding setup_agent dispatch_method_call replies request_input
  dispatch-passphrase line cbs store services parameters service found (inl kind) =
      ground (arith, found, kind)
  dispatch-passphrase line cbs store services parameters service found (inr kind) =
      ground (arith, found, kind)

  -- When connman asks for the passphrase of a listed service, also where it offers WPS instead, and the
  -- shell has let the agent wait for a line, the one reply has exactly the member Passphrase, with that
  -- line as it was typed, whatever lists changed and whatever else was asked before it was, and whatever
  -- is typed later, as long as the agent is not asked again before the callback that waited has the lock.
  pub typed-passphrase :
      (number : ℤ → String) (commands_container : List String) (name : String) (sh : Shell)
      (between later : List Event) (m : Manager) (line : String) (answer : Bool × String)
      (cbs : InputCallbacks) (store : Store ServProperties) (services : List ℕ) (parameters : V)
      (service : ℕ)
      → All NotTyped between
      → All NotAsked later
      → passphrase_answer
          (play number commands_container sh
            (Event.asked name ∷ between ++ Event.typed m line ∷ later)).0
        ≡ some answer
      → find_path store (path_of parameters) services ≡ some service
      → AsksPassphrase (kind_of parameters)
      → replies (
          dispatch_method_call
            (setup_agent (answering answer cbs) store services)
            "RequestInput"
            parameters)
        ≡ answer_with (("Passphrase", g.new_string line) ∷ [])
  typed-passphrase number commands_container name sh between later m line answer cbs store services
        parameters service listing unasked answered found kind =
      let handed =
        play-HandedOver number commands_container name sh between m line later name listing
          unasked in
      let same : ◌≡◌ {A = Bool × String} (true, line) answer = ground (arith, handed.2, answered) in
      subst
        (λ a.
          replies (
            dispatch_method_call (setup_agent (answering a cbs) store services) "RequestInput"
              parameters)
          ≡ answer_with (("Passphrase", g.new_string line) ∷ []))
        same (dispatch-passphrase line cbs store services parameters service found kind)
