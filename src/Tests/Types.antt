-- ===== src/Tests/Types.antt =====
-- Types of the values that the library sends, at concrete ones.
use Prim.Native.Char.{code}
use Prim.Native.String.{◌++◌ as text_append}
use libcppconnman.Prelude.{
  ◌≡◌, String, Bool, true, ◌&&◌, ◌||◌, not, str_eq, ltb, ◌==◌, if◌then◌else◌, false, refl, List, [],
  ◌∷◌, All, none, some, Result, ok, eq_iff,
}
use libcppconnman.Service.Props.{ServProperties, serv_init}
use libcppconnman.Manager.Props.{mana_init}
use libcppconnman.Manager.Calls.{register_agent}
use libcppconnman.Connmanctl.Words.{Text, chars, is_digit}
use libcppconnman.Proxy.Requests.{MethodCall}
use libcppconnman.Manager.Lists.{Store, find_path}
use libcppconnman.Manager.Fields.{parse_fields, classify_input}
use libcppconnman.Manager.Input.{
  InputCallbacks, request_entries, input_entries, build_answer, request_input,
}
use libcppconnman.Signatures.{GVariantTypes, Interface, Conforms}
use libcppconnman.Signatures.Requests.{agent, Sent-Conforms}
use libcppconnman.Signatures.Answers.{Member, request_input-typed}
use libcppconnman.Tests.Requests.{fresh}
use libcppconnman.Tests.Values.{
  text, bytes, dict, Var, var, type_of, types_of, tuple, cons, nil, has_type, has_type-type_of,
}

single-type :
    (v : Var) (t : String)
    → has_type v t ≡ true
    → has_type (tuple (cons v nil)) (text_append "(" (text_append t ")")) ≡ true
unfolding type_of types_of
single-type v t h = (eq_iff _ _).1 (cc (has_type-type_of v t h))

pair-type :
    (v w : Var) (t u : String)
    → has_type v t ≡ true
    → has_type w u ≡ true
    → has_type (tuple (cons v (cons w nil))) (text_append "(" (text_append (text_append t u) ")"))
      ≡ true
unfolding type_of types_of
pair-type v w t u h k = (eq_iff _ _).1 (cc (has_type-type_of v t h, has_type-type_of w u k))

-- Elements of letters, digits and `_`, each behind one `/`; `opened` says that a `/` was just read.
abbrev elements : Bool → Text → Bool
elements opened [] = not opened
elements opened (c ∷ s) =
    let rest = elements (code c == 47) s in
    if code c == 47
    then not opened && rest
    else (is_digit c
        || (ltb 64 (code c) && ltb (code c) 91)
        || (ltb 96 (code c) && ltb (code c) 123)
        || code c == 95)
      && rest

abbrev after_slash : Text → Bool
after_slash [] = false
after_slash (c ∷ s) = code c == 47 && elements true s

abbrev is_object_path : String → Bool
is_object_path path = str_eq path "/" || after_slash (chars path)

pub var_types : GVariantTypes is_object_path var
unfolding type_of
var_types = record {
  string = λ s. refl;
  object_path = λ s h. refl;
  boolean = λ b. refl;
  int32 = λ n. refl;
  uint64 = λ n h. refl;
  bytes = λ s. refl;
  variant = λ v. refl;
  entry = λ key v. refl;
  array = λ t vs typed. (eq_iff _ _).1 refl;
  unit = refl;
  single = single-type;
  pair = pair-type;
}

abbrev one_service : Store ServProperties
one_service = record { path = "/s"; props = serv_init } ∷ []

abbrev agent_call : Result (MethodCall Var)
agent_call = ok (register_agent {V = Var} "/net/amarula/agent_1" none (fresh mana_init)).1

Sent-Conforms_example :
    (call : MethodCall Var) × (agent_call ≡ ok call) × Conforms Interface.manager call
Sent-Conforms_example =
    Sent-Conforms var_types {callback = none} (agent (fresh mana_init) "/net/amarula/agent_1" refl)

-- A network that asks for an identity, and an answer with WPS.
abbrev enterprise_fields : Var
enterprise_fields = dict (
    ("Identity", dict (("Type", text "string") ∷ ("Requirement", text "mandatory") ∷ []))
    ∷ ("Passphrase", dict (("Type", text "passphrase") ∷ ("Requirement", text "mandatory") ∷ []))
    ∷ [])

abbrev enterprise_callbacks : InputCallbacks
enterprise_callbacks = record {
  passphrase = none;
  hidden_network_name = none;
  wpa_enterprise = some (λ service. ok ("me", (false, "1234")));
  wispr_enabled = none;
  report_error = none;
}

abbrev answer : Var
answer = dict (("Identity", text "me") ∷ ("WPS", bytes "1234") ∷ [])

request_input-typed_example :
    (es : List (String × Var)) × (answer ≡ build_answer es)
    × (var.is_of_type (var.new_tuple (answer ∷ [])) "(a{sv})" ≡ true)
    × All (Member (classify_input (parse_fields enterprise_fields))) es
unfolding request_input find_path parse_fields classify_input request_entries input_entries
    build_answer
request_input-typed_example =
    request_input-typed var_types enterprise_callbacks one_service (0 ∷ []) "/s" enterprise_fields
      answer refl
