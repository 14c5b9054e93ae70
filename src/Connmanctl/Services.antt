-- ===== src/Connmanctl/Services.antt =====
-- The commands on services: `services`, `connect`, `disconnect` and `remove` in `main` of
-- examples/connmanctl.cpp.
use libcppconnman.Prelude.{
  ℕ, String, Bool, ◌&&◌, ◌||◌, not, Option, some, List, [], ◌∷◌, ◌++◌, str_eq, ◌==◌, if◌then◌else◌,
}
use libcppconnman.GVariant.{ℤ}
use libcppconnman.Manager.Lists.{Object}
use libcppconnman.Manager.Defs.{Manager}
use libcppconnman.Service.Enums.{ServState, serv_state_to_int}
use libcppconnman.Service.Props.{ServProperties}
use libcppconnman.Service.Print.{print_serv}
use libcppconnman.Connmanctl.Words.{last_segment}
use libcppconnman.Connmanctl.Messages.{Report}
use libcppconnman.Connmanctl.Actions.{
  Call, Action, Run, say, one_request, ◌and_then◌, say_result, objects, find_if,
  when◌act◌otherwise◌, on_found, on_empty,
}

abbrev pub servs_of : Manager → List (ℕ × Object ServProperties)
servs_of m = objects m.service_store m.services

unfoldable pub match_service : String → ℕ × Object ServProperties → Bool
unfolding last_segment
match_service arg serv = str_eq (last_segment serv.1.path) arg || str_eq serv.1.props.name arg

abbrev pub find_serv : String → Manager → Option (ℕ × Object ServProperties)
find_serv arg m = find_if (match_service arg) (servs_of m)

abbrev pub is_state : ServState → ServProperties → Bool
is_state state props = serv_state_to_int props.state == serv_state_to_int state

abbrev pub is_up : ServProperties → Bool
is_up props = is_state ServState.ready props || is_state ServState.online props

abbrev flags : ServProperties → List String
flags props =
    (if props.favorite then "*" ∷ [] else [])
    ++ (if props.autoconnect then "A" ∷ [] else [])
    ++ (if is_state ServState.online props
        then "O" ∷ []
        else if is_state ServState.ready props
        then "R" ∷ []
        else [])

abbrev pub list_services : List (ℕ × Object ServProperties) → List String
list_services [] = []
list_services ((a, serv) ∷ services) =
    flags serv.props
    ++ " " ∷ serv.props.name ∷ " " ∷ last_segment serv.path ∷ "\n" ∷ list_services services

-- `number` is how the stream writes an integer.
module _ (number : ℤ → String) where
  unfoldable pub show_service : Manager → String → Run
  unfolding match_service print_serv
  show_service m arg =
      on_found (find_serv arg m) (say ("Service not found: " ∷ arg ∷ "\n" ∷ [])) (λ (a, serv).
        say ("Service: " ∷ serv.props.name ∷ " " ∷ serv.path ∷ "\n" ∷ [])
        and_then say_result (print_serv number serv.props))

  unfoldable pub services_command : Manager → String → Run
  unfolding show_service serv_state_to_int last_segment
  services_command m arg =
      on_empty (servs_of m) (say ("No services available.\n" ∷ []))
        (when str_eq arg "" act say (list_services (servs_of m)) otherwise show_service m arg)

-- What is done with the service that was found; `connect` says which command it is.
unfoldable pub connect_found : Bool → ℕ → ServProperties → Run
unfolding serv_state_to_int
connect_found connect a props =
    when (not (is_up props) && connect) || (is_up props && not connect)
    act say (
        (if connect then "Connecting" else "Disconnecting")
        ∷ " to service: "
        ∷ props.name
        ∷ "\n"
        ∷ [])
      and_then one_request (
          Action.serv_call a (if connect then Call.connect else Call.disconnect)
            (some (Report.connected props.name connect)))
    otherwise say (
        "Service "
        ∷ props.name
        ∷ " is already "
        ∷ (if connect then " connected" else " disconnected")
        ∷ "\n"
        ∷ [])

abbrev pub not_available : String → Run
not_available arg = say ("Service " ∷ arg ∷ " not available.\n" ∷ [])

unfoldable pub connect_command : Manager → Bool → String → Run
unfolding match_service connect_found
connect_command m connect arg =
    when str_eq arg ""
    act say ("Usage: connect/disconnect <service_name>\n" ∷ [])
    otherwise on_found (find_serv arg m) (not_available arg)
        (λ (a, serv). connect_found connect a serv.props)

unfoldable pub remove_command : Manager → String → Run
unfolding match_service
remove_command m arg =
    when str_eq arg ""
    act say ("Usage: remove <service_name>\n" ∷ [])
    otherwise on_found (find_serv arg m) (not_available arg) (λ (a, serv).
      say ("Removing service: " ∷ serv.props.name ∷ "\n" ∷ [])
      and_then one_request (Action.serv_call a Call.remove (some (Report.removed serv.props.name))))
