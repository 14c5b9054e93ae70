-- ===== src/Tests/Readings.antt =====
-- The dictionaries and the tables, at concrete values.
use libcppconnman.Prelude.{◌≡◌, refl, true, [], ◌∷◌, List, ok}
use libcppconnman.EnumMap.{from_string}
use libcppconnman.EnumMap.Tables.{reread, tables_reread}
use libcppconnman.Props.{update_properties, parse}
use libcppconnman.Service.Blocks.{ipv4_parse, ipv4_update}
use libcppconnman.Service.Enums.{
  ServType, ServState, Security, ServError, type_map, state_map, security_map, error_map,
  serv_type_enum, serv_state_enum, security_enum, serv_error_enum,
}
use libcppconnman.Service.Methods.{
  Ipv4Method, ProxyMethod, EthernetMethod, Ipv6Method, Ipv6Privacy, ipv4_method_map,
  proxy_method_map, ethernet_method_map, ipv6_method_map, ipv6_privacy_map, ipv4_method_enum,
  proxy_method_enum, ethernet_method_enum, ipv6_method_enum, ipv6_privacy_enum,
}
use libcppconnman.Service.Props.{ServProperties, serv_init, serv_update}
use libcppconnman.Service.Reading.{ServReads, update_properties-ServReads}
use libcppconnman.Technology.Enums.{TechType, tech_type_map, tech_type_enum}
use libcppconnman.Technology.Props.{TechProperties, tech_init, tech_update}
use libcppconnman.Technology.Reading.{TechReads}
use libcppconnman.Clock.Enums.{TimeUpdate, time_update_map, time_zone_update_map, time_update_enum}
use libcppconnman.Clock.Props.{ClockProperties, clock_init, clock_update}
use libcppconnman.Clock.Reading.{ClockReads}
use libcppconnman.Manager.Enums.{ManaState, mana_state_map, mana_state_enum}
use libcppconnman.Manager.Props.{ManaProperties, mana_init, mana_update}
use libcppconnman.Manager.Reading.{ManaReads}
use libcppconnman.Readings.{update_properties-Reads}
use libcppconnman.Tests.Values.{Var, var, text, number, boolean, dict, items}

abbrev service : List Var
service = items (
    dict (
      ("Name", text "home")
      ∷ ("Strength", number 326)
      ∷ ("State", text "ready")
      ∷ ("IPv4", dict (("Method", text "dhcp") ∷ ("Address", text "10.0.0.2") ∷ []))
      ∷ ("State", text "online")
      ∷ []))

abbrev read_service : ServProperties
read_service = (update_properties serv_update service serv_init).0

update_properties-ServReads_example : ServReads service serv_init read_service
unfolding update_properties serv_update from_string ipv4_parse parse ipv4_update
update_properties-ServReads_example =
    update_properties-ServReads service serv_init read_service refl

abbrev technology : List Var
technology = items (dict (("Type", text "wifi") ∷ ("Powered", boolean true) ∷ []))

abbrev read_technology : TechProperties
read_technology = (update_properties tech_update technology (tech_init TechType.ethernet)).0

abbrev clock : List Var
clock = items (dict (("Time", number 1700000000) ∷ ("TimeUpdates", text "auto") ∷ []))

abbrev read_clock : ClockProperties
read_clock = (update_properties clock_update clock clock_init).0

abbrev manager : List Var
manager = items (dict (("OfflineMode", boolean true) ∷ ("State", text "idle") ∷ []))

abbrev read_manager : ManaProperties
read_manager = (update_properties mana_update manager mana_init).0

update_properties-Reads_example :
    TechReads technology (tech_init TechType.ethernet) read_technology
    × ClockReads clock clock_init read_clock
    × ManaReads manager mana_init read_manager
unfolding update_properties tech_update clock_update mana_update from_string
update_properties-Reads_example =
    update_properties-Reads technology clock manager (tech_init TechType.ethernet) read_technology
      clock_init read_clock mana_init read_manager refl refl refl

tables_reread_example :
    (reread type_map ServType.wifi ≡ ok ServType.wifi)
    × (reread state_map ServState.online ≡ ok ServState.online)
    × (reread security_map Security.psk ≡ ok Security.psk)
    × (reread error_map ServError.none ≡ ok ServError.none)
    × (reread ipv4_method_map Ipv4Method.dhcp ≡ ok Ipv4Method.dhcp)
    × (reread ipv6_method_map Ipv6Method.auto ≡ ok Ipv6Method.auto)
    × (reread ipv6_privacy_map Ipv6Privacy.disabled ≡ ok Ipv6Privacy.disabled)
    × (reread ethernet_method_map EthernetMethod.manual ≡ ok EthernetMethod.manual)
    × (reread proxy_method_map ProxyMethod.direct ≡ ok ProxyMethod.direct)
    × (reread tech_type_map TechType.wifi ≡ ok TechType.wifi)
    × (reread time_update_map TimeUpdate.auto ≡ ok TimeUpdate.auto)
    × (reread time_zone_update_map TimeUpdate.auto ≡ ok TimeUpdate.auto)
    × (reread mana_state_map ManaState.ready ≡ ok ManaState.ready)
tables_reread_example =
    tables_reread ServType.wifi ServState.online Security.psk ServError.none Ipv4Method.dhcp
      Ipv6Method.auto Ipv6Privacy.disabled EthernetMethod.manual ProxyMethod.direct TechType.wifi
      TimeUpdate.auto ManaState.ready
