-- ===== src/Connmanctl/Connect.antt =====
-- The lines `connect` and `disconnect` of examples/connmanctl.cpp, before and after connman reports the
-- state that they ask for.
use libcppconnman.Prelude.{
  ℕ, ◌≡◌, refl, String, Bool, true, false, some, List, [], ◌∷◌, ok, arith, str_eq, set,
  if◌then◌else◌, ◌∙◌, not,
}
use libcppconnman.GVariant.{GVariant, ℤ}
use libcppconnman.EnumMap.{from_string}
use libcppconnman.Names.{state_str}
use libcppconnman.Service.Enums.{ServState, state_map}
use libcppconnman.Service.Props.{ServProperties, serv_update}
use libcppconnman.Manager.Lists.{Object}
use libcppconnman.Manager.Defs.{Manager}
use libcppconnman.Connmanctl.Words.{Text, chars, trim, next_word}
use libcppconnman.Connmanctl.Messages.{Report}
use libcppconnman.Connmanctl.Actions.{Call, Action, ◌and_then◌, when◌act◌otherwise◌, on_found}
use libcppconnman.Connmanctl.Shell.{Shell}
use libcppconnman.Connmanctl.Services.{
  match_service, find_serv, is_up, connect_found, connect_command,
}
use libcppconnman.Connmanctl.Loop.{dispatch, run_line}
use libcppconnman.Connmanctl.Allowed.{find_if-objects}
use libcppconnman.Connmanctl.Requests.{arg_of}
use libcppconnman.Connmanctl.Power.{requests_of, find_if-set}

abbrev pub connect_word : Bool → String
connect_word connect = if connect then "connect" else "disconnect"

abbrev pub connect_request : Bool → ℕ → String → Action
connect_request connect a name =
    Action.serv_call a (if connect then Call.connect else Call.disconnect)
      (some (Report.connected name connect))

-- The manager after the state of a service was read anew.
abbrev pub with_state : ServState → ℕ → Object ServProperties → Manager → Manager
with_state state a o m = record m {
  service_store = set m.service_store a (record o { props = record o.props { state = state } });
}

find_serv-with_state :
    (m : Manager) (state : ServState) (arg : String) (a : ℕ) (o : Object ServProperties)
    → find_serv arg m ≡ some (a, o)
    → find_serv arg (with_state state a o m)
      ≡ some (a, record o { props = record o.props { state = state } })
unfolding match_service
find_serv-with_state m state arg a o found =
    let (listed, at, passes) =
      find_if-objects m.service_store (match_service arg) m.services a o found in
    find_if-set m.service_store (match_service arg) a o _ at passes m.services found

-- The property `State` is read into the state, and nothing else changes.
serv_update-state :
    {V : Type 0} ⦃g : GVariant V⦄
    → (v : V) (state : ServState) (p : ServProperties)
    → from_string state_map (g.get_string v) ≡ ok state
    → serv_update state_str v p ≡ ok (record p { state = state })
unfolding serv_update
serv_update-state v state p read = rw read refl

-- A service that is already as asked gets no request, another one gets one.
connect_found-requests :
    (connect : Bool) (a : ℕ) (props : ServProperties)
    → requests_of (connect_found connect a props).0 ≡ (
        if is_up props
        then (if connect then [] else connect_request false a props.name ∷ [])
        else (if connect then connect_request true a props.name ∷ [] else []))
unfolding connect_found when◌act◌otherwise◌ ◌and_then◌
connect_found-requests true a props = ground arith
connect_found-requests false a props = ground arith

connect_command-requests :
    (m : Manager) (connect : Bool) (arg : String) (a : ℕ) (o : Object ServProperties)
    → str_eq arg "" ≡ false
    → find_serv arg m ≡ some (a, o)
    → requests_of (connect_command m connect arg).0
      ≡ requests_of (connect_found connect a o.props).0
unfolding connect_command when◌act◌otherwise◌ on_found
connect_command-requests m connect arg a o u f = rw (u, f, connect_command) refl

module _ (number : ℤ → String) (commands_container : List String) where
  dispatch-connect :
      (sh : Shell) (m : Manager) (connect : Bool) (arg : String) (iss : Text)
      → dispatch number commands_container sh m (connect_word connect) arg iss
        ≡ connect_command m connect arg
  unfolding dispatch when◌act◌otherwise◌
  dispatch-connect sh m true arg iss = refl
  dispatch-connect sh m false arg iss = refl

  run_line-connect :
      (sh : Shell) (m : Manager) (line : String) (connect : Bool)
      → (next_word (trim (chars line))).0 ≡ connect_word connect
      → run_line number commands_container sh m line ≡ connect_command m connect (arg_of line)
  unfolding run_line
  run_line-connect sh m line connect h =
      rw h (
        dispatch-connect sh m connect (arg_of line) (next_word (next_word (trim (chars line))).1).1)

  -- The line `connect` or `disconnect` with the word of a listed service that is not as it asks makes
  -- exactly one request, to connect or to disconnect that service. When connman then reports a state
  -- that is as the line asks, the property is read into the service and no other changes: from then on
  -- the same line makes no request, and a line of the other command with the same word makes exactly
  -- the opposite request.
  pub connect_line-connects :
      {V : Type 0} ⦃g : GVariant V⦄
      → (v : V) (state : ServState) (sh : Shell) (m : Manager) (line opposite : String)
        (connect : Bool) (a : ℕ) (o : Object ServProperties)
      → (next_word (trim (chars line))).0 ≡ connect_word connect
      → (next_word (trim (chars opposite))).0 ≡ connect_word (not connect)
      → arg_of opposite ≡ arg_of line
      → str_eq (arg_of line) "" ≡ false
      → find_serv (arg_of line) m ≡ some (a, o)
      → is_up o.props ≡ not connect
      → from_string state_map (g.get_string v) ≡ ok state
      → is_up (record o.props { state = state }) ≡ connect
      → (requests_of (run_line number commands_container sh m line).0
          ≡ connect_request connect a o.props.name ∷ [])
        × (serv_update state_str v o.props ≡ ok (record o.props { state = state }))
        × (requests_of (run_line number commands_container sh (with_state state a o m) line).0 ≡ [])
        × (requests_of (run_line number commands_container sh (with_state state a o m) opposite).0
            ≡ connect_request (not connect) a o.props.name ∷ [])
  connect_line-connects v state sh m line opposite connect a o cmd cmd' same word found off read
        up =
      let arg = arg_of line in
      let after = with_state state a o m in
      let again = find_serv-with_state m state arg a o found in
      (
        rw (run_line-connect sh m line connect cmd) (
            connect_command-requests m connect arg a o word found
            ∙ (connect_found-requests connect a o.props ∙ ground (arith, off))),
        serv_update-state v state o.props read,
        rw (run_line-connect sh after line connect cmd) (
            connect_command-requests after connect arg a _ word again
            ∙ (connect_found-requests connect a _ ∙ ground (arith, up))),
        rw (run_line-connect sh after opposite (not connect) cmd', same)
            (connect_command-requests after (not connect) arg a _ word again
              ∙ (connect_found-requests (not connect) a _ ∙ ground (arith, up))),
      )
