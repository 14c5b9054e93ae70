-- ===== src/Connmanctl/Commands.antt =====
-- The commands and the tables of names (examples/connmanctl.cpp).
use libcppconnman.Prelude.{String, List, [], ◌∷◌}
use libcppconnman.Print.{Output}
use libcppconnman.Technology.Enums.{TechType}

pub data Command : Type 0 where
  technologies services scan enable disable connect disconnect remove agent quit tethering : Command

-- `command_map.at`, of which every command is a key.
abbrev pub command_map : Command → String
command_map Command.technologies = "technologies"
command_map Command.services = "services"
command_map Command.scan = "scan"
command_map Command.enable = "enable"
command_map Command.disable = "disable"
command_map Command.connect = "connect"
command_map Command.disconnect = "disconnect"
command_map Command.remove = "remove"
command_map Command.agent = "agent"
command_map Command.quit = "quit"
command_map Command.tethering = "tether"

-- `tech_map.at`, of which every type is a key.
abbrev pub tech_map : TechType → String
tech_map TechType.ethernet = "ethernet"
tech_map TechType.wifi = "wifi"
tech_map TechType.cellular = "cellular"
tech_map TechType.bluetooth = "bluetooth"
tech_map TechType.vpn = "vpn"
tech_map TechType.wired = "wired"
tech_map TechType.p2p = "p2p"
tech_map TechType.gps = "gps"
tech_map TechType.gadget = "gadget"

abbrev pub on_off_container : List String
on_off_container = "on" ∷ "off" ∷ []

-- `printContainer`: the items with ", " between them, and the end of the line.
abbrev pub print_container : List String → Output
print_container [] = "\n" ∷ []
print_container (s ∷ []) = s ∷ "\n" ∷ []
print_container (s ∷ t ∷ container) = s ∷ ", " ∷ print_container (t ∷ container)
