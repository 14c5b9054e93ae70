-- ===== src/Tests/Passphrases.antt =====
-- A passphrase from the line that is typed to the reply that connman gets.
use libcppconnman.Prelude.{◌≡◌, refl, String, false, true, none, [], ◌∷◌, inl}
use libcppconnman.GVariant.{ℤ}
use libcppconnman.Service.Props.{ServProperties, serv_init}
use libcppconnman.Agent.{dispatch_method_call, replies}
use libcppconnman.Manager.Lists.{Store, find_path}
use libcppconnman.Manager.Defs.{Manager}
use libcppconnman.Manager.Fields.{parse_fields, classify_input}
use libcppconnman.Manager.Input.{InputCallbacks}
use libcppconnman.Manager.Answers.{setup_agent}
use libcppconnman.Connmanctl.Actions.{when◌act◌otherwise◌, on_empty}
use libcppconnman.Connmanctl.Shell.{Shell, passphrase_answer}
use libcppconnman.Connmanctl.Session.{Event, play}
use libcppconnman.Connmanctl.Passphrase.{answering, answer_with, typed-passphrase}
use libcppconnman.Tests.Values.{Var, var, text, tuple, cons, nil, dict}

abbrev no_number : ℤ → String
no_number n = ""

abbrev one_service : Store ServProperties
one_service = record { path = "/s"; props = serv_init } ∷ []

abbrev no_callbacks : InputCallbacks
no_callbacks = record {
  passphrase = none;
  hidden_network_name = none;
  wpa_enterprise = none;
  wispr_enabled = none;
  report_error = none;
}

abbrev fresh_shell : Shell
fresh_shell = record {
  services_container = [];
  technologies_container = [];
  passphrase = "";
  connecting_name = "";
  connecting = false;
  history = [];
}

abbrev manager : Manager
manager = record {
  services = 0 ∷ [];
  technologies = [];
  service_store = one_service;
  technology_store = [];
  services_changed_cb = none;
  technologies_changed_cb = none;
  events = [];
}

abbrev question : Var
question = tuple (
    cons (text "/s") (
      cons
        (dict (
          ("Passphrase", dict (("Type", text "psk") ∷ ("Requirement", text "mandatory") ∷ []))
          ∷ []))
        nil))

typed-passphrase_example :
    replies (
      dispatch_method_call
        (setup_agent (answering (true, " quit ") no_callbacks) one_service (0 ∷ []))
        "RequestInput"
        question)
    ≡ answer_with {V = Var} (("Passphrase", text " quit ") ∷ [])
unfolding play passphrase_answer find_path parse_fields classify_input when◌act◌otherwise◌ on_empty
typed-passphrase_example =
    typed-passphrase no_number [] "home" fresh_shell (Event.technologies_listed [] ∷ [])
      (Event.typed manager "services" ∷ []) manager " quit " (true, " quit ") no_callbacks
      one_service (0 ∷ []) question 0 (tt, tt) (tt, tt) refl refl (inl refl)
