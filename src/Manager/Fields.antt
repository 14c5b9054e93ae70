-- ===== src/Manager/Fields.antt =====
-- The fields that connman asks for: parse_fields and classify_input of
-- src/dbus/gconnman_manager.cpp.
use libcppconnman.Prelude.{
  String, Bool, true, false, ◌&&◌, not, Option, none, some, List, [], ◌∷◌, map, str_eq,
  if◌then◌else◌,
}
use libcppconnman.GVariant.{GVariant}
use libcppconnman.Props.{key_of, value_of}

-- A member that was not given is a null pointer.
pub record FieldDescription : Type 0 where
  pub field_name : String
  pub type : Option String
  pub requirement : Option String

module _ {V : Type 0} ⦃g : GVariant V⦄ where
  unfoldable pub parse_inner : List V → FieldDescription → FieldDescription
  parse_inner [] desc = desc
  parse_inner (prop ∷ rest) desc = parse_inner rest (
      if str_eq (key_of prop) "Type"
      then record desc { type = some (g.get_string (value_of prop)) }
      else if str_eq (key_of prop) "Requirement"
      then record desc { requirement = some (g.get_string (value_of prop)) }
      else desc)

  unfoldable pub parse_fields : V → List FieldDescription
  unfolding parse_inner
  parse_fields fields =
      map
        (λ item.
          parse_inner (g.children (value_of item))
            (record { field_name = key_of item; type = none; requirement = none }))
        (g.children fields)

pub data InputType : Type 0 where
  input_unknown input_wpa2_passphrase input_wpa2_passphrase_wps_alternative : InputType
  input_hidden_network_name input_wpa_enterprise input_wispr input_challenge_response : InputType

-- `g_strcmp0 (p, text) == 0`: a null pointer is no text.
abbrev pub null_eq : Option String → String → Bool
null_eq none text = false
null_eq (some s) text = str_eq s text

pub record Flags : Type 0 where
  pub passphrase : Bool
  pub wps : Bool
  pub name : Bool
  pub identity : Bool
  pub username : Bool
  pub password : Bool
  pub challenge : Bool

abbrev pub no_flags : Flags
no_flags = record {
  passphrase = false;
  wps = false;
  name = false;
  identity = false;
  username = false;
  password = false;
  challenge = false;
}

-- One round of the loop: each `if` sets its flag.
unfoldable pub set_flags : FieldDescription → Flags → Flags
set_flags desc f = record {
  passphrase =
      if str_eq desc.field_name "Passphrase" && null_eq desc.requirement "mandatory"
      then true
      else f.passphrase;
  wps = if str_eq desc.field_name "WPS" then true else f.wps;
  name = if str_eq desc.field_name "Name" then true else f.name;
  identity = if str_eq desc.field_name "Identity" then true else f.identity;
  username = if str_eq desc.field_name "Username" then true else f.username;
  password = if str_eq desc.field_name "Password" then true else f.password;
  challenge =
      if str_eq desc.field_name "Passphrase" && null_eq desc.type "response"
      then true
      else f.challenge;
}

unfoldable pub scan_fields : List FieldDescription → Flags → Flags
unfolding set_flags
scan_fields [] f = f
scan_fields (desc ∷ rest) f = scan_fields rest (set_flags desc f)

unfoldable pub decide_input : Flags → InputType
decide_input f =
    if f.passphrase && (not f.wps && not f.identity)
    then InputType.input_wpa2_passphrase
    else if f.passphrase && f.wps
    then InputType.input_wpa2_passphrase_wps_alternative
    else if f.name
    then InputType.input_hidden_network_name
    else if f.identity && f.challenge
    then InputType.input_challenge_response
    else if f.identity && f.passphrase
    then InputType.input_wpa_enterprise
    else if f.username && f.password
    then InputType.input_wispr
    else InputType.input_unknown

unfoldable pub classify_input : List FieldDescription → InputType
unfolding scan_fields decide_input
classify_input fields = decide_input (scan_fields fields no_flags)
