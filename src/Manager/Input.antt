-- ===== src/Manager/Input.antt =====
-- The two handlers that setup_agent gives to the agent (src/dbus/gconnman_manager.cpp): the answer to
-- RequestInput and the decision on ReportError.
use libcppconnman.Prelude.{
  ℕ, String, Bool, false, Option, none, some, List, [], ◌∷◌, map, Result, ok, map_ok, if◌then◌else◌,
}
use libcppconnman.GVariant.{GVariant}
use libcppconnman.Service.Props.{ServProperties}
use libcppconnman.Manager.Lists.{Store, find_path}
use libcppconnman.Manager.Fields.{InputType, parse_fields, classify_input}

-- The user's callbacks, on the address of a service; each may throw.
pub record InputCallbacks : Type 0 where
  pub passphrase : Option (ℕ → Result (Bool × String))
  pub hidden_network_name : Option (ℕ → Result (Bool × String))
  pub wpa_enterprise : Option (ℕ → Result (String × (Bool × String)))
  pub wispr_enabled : Option (ℕ → Result (String × String))
  pub report_error : Option (ℕ → String → Result Bool)

-- The setters; a callback may be the empty one.
abbrev pub on_request_input_passphrase :
    Option (ℕ → Result (Bool × String)) → InputCallbacks → InputCallbacks
on_request_input_passphrase callback cbs = record cbs { passphrase = callback }

abbrev pub on_request_input_hidden_network_name :
    Option (ℕ → Result (Bool × String)) → InputCallbacks → InputCallbacks
on_request_input_hidden_network_name callback cbs = record cbs { hidden_network_name = callback }

abbrev pub on_request_input_wpa_enterprise :
    Option (ℕ → Result (String × (Bool × String))) → InputCallbacks → InputCallbacks
on_request_input_wpa_enterprise callback cbs = record cbs { wpa_enterprise = callback }

abbrev pub on_request_input_wispr_enabled :
    Option (ℕ → Result (String × String)) → InputCallbacks → InputCallbacks
on_request_input_wispr_enabled callback cbs = record cbs { wispr_enabled = callback }

abbrev pub on_report_error : Option (ℕ → String → Result Bool) → InputCallbacks → InputCallbacks
on_report_error callback cbs = record cbs { report_error = callback }

-- A callback that is not set adds nothing to the answer.
abbrev pub with_callback :
    {A E : Type 0} → Option (ℕ → Result A) → ℕ → (A → List E) → Result (List E)
with_callback none service entries = ok []
with_callback (some callback) service entries = map_ok entries (callback service)

abbrev pub key_of_flag : Bool → String → String → String
key_of_flag flag yes_key no_key = if flag then yes_key else no_key

module _ {V : Type 0} ⦃g : GVariant V⦄ where
  -- A text, or its bytes.
  abbrev pub text_or_bytes : Bool × String → V
  text_or_bytes (is_text, value) = if is_text then g.new_string value else g.new_bytes value

  enterprise_entries : String × (Bool × String) → List (String × V)
  enterprise_entries (identity, password) =
      ("Identity", g.new_string identity)
      ∷ (key_of_flag password.0 "Passphrase" "WPS", text_or_bytes password)
      ∷ []

  -- The `switch` on the kind of request: the entries that it adds to the dictionary.
  unfoldable pub input_entries : InputCallbacks → InputType → ℕ → Result (List (String × V))
  unfolding enterprise_entries
  input_entries cbs InputType.input_wpa2_passphrase service =
      with_callback cbs.passphrase service λ answer. ("Passphrase", g.new_string answer.1) ∷ []
  input_entries cbs InputType.input_wpa2_passphrase_wps_alternative service =
      with_callback cbs.passphrase service
        λ answer. (key_of_flag answer.0 "Passphrase" "WPS", g.new_string answer.1) ∷ []
  input_entries cbs InputType.input_hidden_network_name service =
      with_callback cbs.hidden_network_name service
        λ answer. (key_of_flag answer.0 "Name" "SSID", text_or_bytes answer) ∷ []
  input_entries cbs InputType.input_challenge_response service =
      with_callback cbs.wpa_enterprise service enterprise_entries
  input_entries cbs InputType.input_wpa_enterprise service =
      with_callback cbs.wpa_enterprise service enterprise_entries
  input_entries cbs InputType.input_wispr service =
      with_callback cbs.wispr_enabled service
        λ answer. ("Username", g.new_string answer.0) ∷ ("Password", g.new_string answer.1) ∷ []
  input_entries cbs InputType.input_unknown service = ok []

  unfoldable pub build_answer : List (String × V) → V
  build_answer entries = g.build "a{sv}" (map (λ entry. g.new_entry entry.0 entry.1) entries)

  unfoldable pub request_entries :
      InputCallbacks → Store ServProperties → List ℕ → String → V → Result (List (String × V))
  unfolding input_entries
  request_entries cbs store services service_path fields =
      elim (find_path store service_path services) [
        | none ↦ ok []
        | some service ↦ input_entries cbs (classify_input (parse_fields fields)) service
      ]

  unfoldable pub request_input :
      InputCallbacks → Store ServProperties → List ℕ → String → V → Result V
  unfolding request_entries build_answer
  request_input cbs store services service_path fields =
      map_ok build_answer (request_entries cbs store services service_path fields)

unfoldable pub report_error :
    InputCallbacks → Store ServProperties → List ℕ → String → String → Result Bool
report_error cbs store services service_path error = elim (find_path store service_path services) [
  | none ↦ ok false
  | some service ↦ elim cbs.report_error [
    | none ↦ ok false
    | some callback ↦ callback service error
  ]
]
