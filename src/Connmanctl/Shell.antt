-- ===== src/Connmanctl/Shell.antt =====
-- The state of the shell and the handlers that fill it: the globals of examples/connmanctl.cpp and the
-- callbacks that `main` registers.
use libcppconnman.Prelude.{
  String, Bool, true, Option, none, some, List, [], ◌∷◌, ◌++◌, map, str_eq, if◌then◌else◌,
}
use libcppconnman.Manager.Lists.{Object}
use libcppconnman.Service.Props.{ServProperties}
use libcppconnman.Technology.Props.{TechProperties}
use libcppconnman.Connmanctl.Commands.{tech_map}
use libcppconnman.Connmanctl.Words.{last_segment}

pub record Shell : Type 0 where
  pub services_container : List String
  pub technologies_container : List String
  pub passphrase : String
  pub connecting_name : String
  pub connecting : Bool
  pub history : List String  -- what `add_history` was given

-- The callback of onRequestInputPassphrase up to its wait, and what it returns when it has the lock
-- again in a state where `connecting` is false: in any other it waits on.
unfoldable pub request_passphrase : String → Shell → Shell
request_passphrase name sh = record sh { connecting = true; connecting_name = name }

unfoldable pub passphrase_answer : Shell → Option (Bool × String)
passphrase_answer sh = if sh.connecting then none else some (true, sh.passphrase)

-- The prompt that event_hook sets, if any.
unfoldable pub event_hook_prompt : Shell → Option (List String)
event_hook_prompt sh =
    if sh.connecting then some ("Enter passphrase for " ∷ sh.connecting_name ∷ ": " ∷ []) else none

-- The last segment of a service's path, and its name unless that is empty.
abbrev pub service_words : Object ServProperties → List String
service_words serv =
    last_segment serv.path ∷ (if str_eq serv.props.name "" then [] else serv.props.name ∷ [])

abbrev pub all_service_words : List (Object ServProperties) → List String
all_service_words [] = []
all_service_words (serv ∷ services) = service_words serv ++ all_service_words services

-- The callbacks of onServicesChanged and onTechnologiesChanged.
unfoldable pub services_changed : List (Object ServProperties) → Shell → Shell
unfolding last_segment
services_changed services sh = record sh { services_container = all_service_words services }

unfoldable pub technologies_changed : List (Object TechProperties) → Shell → Shell
technologies_changed technologies sh = record sh {
  technologies_container = map (λ tech. tech_map tech.props.type) technologies;
}
