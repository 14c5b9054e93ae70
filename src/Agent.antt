-- ===== src/Agent.antt =====
-- Agent (include/amarula/dbus/connman/gagent.hpp, src/dbus/gconnman_agent.cpp): what is sent back for
-- a method call of connman.
pub mod Answers
pub mod Threads
use libcppconnman.Prelude.{
  ℕ, ◌≡◌, refl, String, Bool, true, false, ◌&&◌, Option, none, some, List, [], ◌∷◌, ◌++◌, Result,
  ok, throw, str_eq, if◌then◌else◌, arith, length,
}
use libcppconnman.GVariant.{GVariant}

-- The callbacks of Cancel and Release are taken to return, so only which one runs is kept.
pub record Agent (V : Type 0) : Type 0 where
  pub request_input_cb : Option (String → V → Result V)
  pub cancel_cb : Option ℕ
  pub release_cb : Option ℕ
  pub report_error_cb : Option (String → String → Result Bool)

module _ {V : Type 0} where
  abbrev pub agent_init : Agent V
  agent_init = record {
    request_input_cb = none;
    cancel_cb = none;
    release_cb = none;
    report_error_cb = none;
  }

  abbrev pub set_request_input_handler : Option (String → V → Result V) → Agent V → Agent V
  set_request_input_handler callback agent = record agent { request_input_cb = callback }

  abbrev pub set_cancel_handler : Option ℕ → Agent V → Agent V
  set_cancel_handler callback agent = record agent { cancel_cb = callback }

  abbrev pub set_release_handler : Option ℕ → Agent V → Agent V
  set_release_handler callback agent = record agent { release_cb = callback }

  abbrev pub set_report_error_handler : Option (String → String → Result Bool) → Agent V → Agent V
  set_report_error_handler callback agent = record agent { report_error_cb = callback }

-- What completes an invocation.
pub data Reply (V : Type 0) : Type 0 where
  return_value : Option V → Reply V
  dbus_error : String → String → Reply V
  not_supported : String → Reply V

-- What a dispatch does: run a callback, send a reply on the dispatch thread, or start a thread that
-- calls the RequestInput callback with these arguments.
pub data Action (V : Type 0) : Type 0 where
  run : ℕ → Action V
  send : Reply V → Action V
  spawn : (String → V → Result V) → String → V → Action V

abbrev pub run_if : {V : Type 0} → Option ℕ → List (Action V)
run_if none = []
run_if (some callback) = Action.run callback ∷ []

abbrev is_set : {A : Type 0} → Option A → Bool
is_set none = false
is_set (some a) = true

-- The callback's answer; an exception is caught and counts as `false`.
abbrev pub retries : Option (String → String → Result Bool) → String → String → Bool
retries none service error = false
retries (some callback) service error = elim (callback service error) [
  | ok retry ↦ retry
  | throw e ↦ false
]

module _ {V : Type 0} ⦃g : GVariant V⦄ where
  report_error_reply : Agent V → V → Reply V
  report_error_reply agent parameters =
      let service = g.get_string (g.get_child_value parameters 0) in
      let error_str = g.get_string (g.get_child_value parameters 1) in
      if retries agent.report_error_cb service error_str
      then dbus_error "net.connman.Agent.Error.Retry" "Retry"
      else return_value none

  unfoldable pub other_method : Agent V → String → V → List (Action V)
  unfolding report_error_reply
  other_method agent method_name parameters =
      if str_eq method_name "Cancel"
      then run_if agent.cancel_cb ++ send (return_value none) ∷ []
      else if str_eq method_name "Release"
      then run_if agent.release_cb ++ send (return_value none) ∷ []
      else if str_eq method_name "ReportError"
      then send (report_error_reply agent parameters) ∷ []
      else send (not_supported "Unknown method") ∷ []

  unfoldable pub dispatch_method_call : Agent V → String → V → List (Action V)
  unfolding other_method
  dispatch_method_call agent method_name parameters = elim agent.request_input_cb [
    | none ↦ other_method agent method_name parameters
    | some callback ↦
        if str_eq method_name "RequestInput"
        then spawn callback (g.get_string (g.get_child_value parameters 0))
            (g.get_child_value parameters 1)
          ∷ []
        else other_method agent method_name parameters
  ]

  -- The replies that one action sends in the end. A thread whose callback throws only logs it.
  unfoldable pub replies_of : Action V → List (Reply V)
  replies_of (run callback) = []
  replies_of (send reply) = reply ∷ []
  replies_of (spawn callback service fields) = elim (callback service fields) [
    | ok result ↦ return_value (some (g.new_tuple (result ∷ []))) ∷ []
    | throw e ↦ []
  ]

  unfoldable pub replies : List (Action V) → List (Reply V)
  unfolding replies_of
  replies [] = []
  replies (a ∷ actions) = replies_of a ++ replies actions
