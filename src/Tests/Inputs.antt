-- ===== src/Tests/Inputs.antt =====
-- The agent's answers, at a request for a passphrase.
use libcppconnman.Prelude.{
  ℕ, ◌≡◌, refl, ◌⊎◌, ◌↔◌, String, true, none, some, List, [], ◌∷◌, Result, ok, throw, runtime_error,
  Exception,
}
use libcppconnman.Service.Props.{ServProperties, serv_init}
use libcppconnman.Agent.{Agent, Reply, return_value, dbus_error, dispatch_method_call, replies}
use libcppconnman.Agent.Answers.{dispatch_method_call-replies}
use libcppconnman.Manager.Lists.{Store, find_path}
use libcppconnman.Manager.Fields.{FieldDescription, InputType, parse_fields, classify_input}
use libcppconnman.Manager.Classify.{describes, asked, classify_input-describes}
use libcppconnman.Manager.Input.{InputCallbacks, request_entries, input_entries}
use libcppconnman.Manager.Answers.{
  OneOf, accepted, Approves, setup_agent, request_entries-keys, ReportError-retry,
}
use libcppconnman.Tests.Values.{Var, var, text, tuple, cons, nil, dict}

abbrev one_service : Store ServProperties
one_service = record { path = "/s"; props = serv_init } ∷ []

abbrev callbacks : InputCallbacks
callbacks = record {
  passphrase = some (λ service. ok (true, "secret"));
  hidden_network_name = none;
  wpa_enterprise = none;
  wispr_enabled = none;
  report_error = some (λ service error. ok true);
}

abbrev fields : Var
fields =
    dict (("Passphrase", dict (("Type", text "psk") ∷ ("Requirement", text "mandatory") ∷ [])) ∷ [])

abbrev secret_entries : List (String × Var)
secret_entries = ("Passphrase", text "secret") ∷ []

request_entries-keys_example :
    ((secret_entries ≡ [])
      ⊎ OneOf ("Passphrase" ∷ []) (accepted (classify_input (parse_fields fields))))
    × ((secret_entries ≡ [])
        ⊎ ((service : ℕ) × (find_path one_service "/s" (0 ∷ []) ≡ some service)))
unfolding request_entries input_entries parse_fields classify_input find_path
request_entries-keys_example =
    request_entries-keys callbacks one_service (0 ∷ []) "/s" fields secret_entries refl

abbrev parameters : Var
parameters = tuple (cons (text "/s") (cons (text "invalid-key") nil))

ReportError-retry_example :
    ((replies (
          dispatch_method_call
            (setup_agent callbacks one_service (0 ∷ []))
            "ReportError"
            parameters)
        ≡ dbus_error "net.connman.Agent.Error.Retry" "Retry" ∷ [])
      × Approves callbacks one_service (0 ∷ []) "/s" "invalid-key")
    ⊎ ((replies (
            dispatch_method_call
              (setup_agent callbacks one_service (0 ∷ []))
              "ReportError"
              parameters)
          ≡ return_value none ∷ [])
        × (¬ Approves callbacks one_service (0 ∷ []) "/s" "invalid-key"))
ReportError-retry_example = ReportError-retry callbacks one_service (0 ∷ []) parameters

abbrev failing : String → Var → Result Var
failing service asked_fields = throw (runtime_error "no input")

abbrev method : String
method = "RequestInput"

abbrev failing_agent : Agent Var
failing_agent = record {
  request_input_cb = some failing;
  cancel_cb = none;
  release_cb = none;
  report_error_cb = none;
}

dispatch_method_call-replies_example :
    ((reply : Reply Var) × (replies (dispatch_method_call failing_agent method parameters)
        ≡ reply ∷ []))
    ⊎ ((callback : String → Var → Result Var) × (e : Exception) × (method ≡ "RequestInput")
        × (failing_agent.request_input_cb ≡ some callback)
        × (callback "/s" (text "invalid-key") ≡ throw e)
        × (replies (dispatch_method_call failing_agent method parameters) ≡ []))
dispatch_method_call-replies_example = dispatch_method_call-replies failing_agent method parameters

abbrev passphrase : FieldDescription
passphrase = record { field_name = "Passphrase"; type = some "psk"; requirement = some "mandatory" }

abbrev wps : FieldDescription
wps = record { field_name = "WPS"; type = some "wpspin"; requirement = some "alternate" }

classify_input-describes_example :
    (classify_input (passphrase ∷ wps ∷ []) ≡ InputType.input_wpa2_passphrase_wps_alternative) ↔ (
      describes InputType.input_wpa2_passphrase_wps_alternative (asked (passphrase ∷ wps ∷ []))
      ≡ true)
classify_input-describes_example =
    classify_input-describes (passphrase ∷ wps ∷ []) InputType.input_wpa2_passphrase_wps_alternative
