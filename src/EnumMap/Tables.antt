-- ===== src/EnumMap/Tables.antt =====
-- The tables of the program: src/dbus/gconnman_service.cpp, gconnman_technology.cpp,
-- gconnman_clock.cpp and gconnman_manager.cpp.
use libcppconnman.Prelude.{◌≡◌, ok, ◌>>=◌, Result, arith}
use libcppconnman.EnumMap.{Enum, EnumStringMap, to_string, from_string}
use libcppconnman.Service.Enums.{
  ServType, ServState, Security, ServError, type_map, state_map, security_map, error_map,
  serv_type_to_int, serv_state_to_int, security_to_int, serv_error_to_int, serv_type_enum,
  serv_state_enum, security_enum, serv_error_enum,
}
use libcppconnman.Service.Methods.{
  Ipv4Method, ProxyMethod, EthernetMethod, Ipv6Method, Ipv6Privacy, ipv4_method_map,
  proxy_method_map, ethernet_method_map, ipv6_method_map, ipv6_privacy_map, ipv4_method_to_int,
  proxy_method_to_int, ethernet_method_to_int, ipv6_method_to_int, ipv6_privacy_to_int,
  ipv4_method_enum, proxy_method_enum, ethernet_method_enum, ipv6_method_enum, ipv6_privacy_enum,
}
use libcppconnman.Technology.Enums.{TechType, tech_type_map, tech_type_to_int, tech_type_enum}
use libcppconnman.Clock.Enums.{
  TimeUpdate, time_update_map, time_zone_update_map, time_update_to_int, time_update_enum,
}
use libcppconnman.Manager.Enums.{ManaState, mana_state_map, mana_state_to_int, mana_state_enum}

-- The text of an enumerator, read again.
abbrev pub reread {ℓ} : {E : Type ℓ} → ⦃e : Enum E⦄ → EnumStringMap E → E → Result E
reread m e = to_string m e >>= λ s. from_string m s

pub type_map-reread : (e : ServType) → reread type_map e ≡ ok e
unfolding to_string from_string serv_type_to_int
type_map-reread e = ground arith

pub state_map-reread : (e : ServState) → reread state_map e ≡ ok e
unfolding to_string from_string serv_state_to_int
state_map-reread e = ground arith

pub security_map-reread : (e : Security) → reread security_map e ≡ ok e
unfolding to_string from_string security_to_int
security_map-reread e = ground arith

pub error_map-reread : (e : ServError) → reread error_map e ≡ ok e
unfolding to_string from_string serv_error_to_int
error_map-reread e = ground arith

pub ipv4_method_map-reread : (e : Ipv4Method) → reread ipv4_method_map e ≡ ok e
unfolding to_string from_string ipv4_method_to_int
ipv4_method_map-reread e = ground arith

pub ipv6_method_map-reread : (e : Ipv6Method) → reread ipv6_method_map e ≡ ok e
unfolding to_string from_string ipv6_method_to_int
ipv6_method_map-reread e = ground arith

ipv6_privacy_map-reread : (e : Ipv6Privacy) → reread ipv6_privacy_map e ≡ ok e
unfolding to_string from_string ipv6_privacy_to_int
ipv6_privacy_map-reread e = ground arith

pub ethernet_method_map-reread : (e : EthernetMethod) → reread ethernet_method_map e ≡ ok e
unfolding to_string from_string ethernet_method_to_int
ethernet_method_map-reread e = ground arith

pub proxy_method_map-reread : (e : ProxyMethod) → reread proxy_method_map e ≡ ok e
unfolding to_string from_string proxy_method_to_int
proxy_method_map-reread e = ground arith

pub tech_type_map-reread : (e : TechType) → reread tech_type_map e ≡ ok e
unfolding to_string from_string tech_type_to_int
tech_type_map-reread e = ground arith

pub time_update_map-reread : (e : TimeUpdate) → reread time_update_map e ≡ ok e
unfolding to_string from_string time_update_to_int
time_update_map-reread e = ground arith

pub time_zone_update_map-reread : (e : TimeUpdate) → reread time_zone_update_map e ≡ ok e
unfolding to_string from_string time_update_to_int
time_zone_update_map-reread e = ground arith

mana_state_map-reread : (e : ManaState) → reread mana_state_map e ≡ ok e
unfolding to_string from_string mana_state_to_int
mana_state_map-reread e = ground arith

-- Every enumerator of the thirteen tables has a text, and that text is read as the enumerator.
pub tables_reread :
    (type : ServType) (state : ServState) (security : Security) (error : ServError)
    (ipv4 : Ipv4Method) (ipv6 : Ipv6Method) (privacy : Ipv6Privacy) (ethernet : EthernetMethod)
    (proxy : ProxyMethod) (tech : TechType) (update : TimeUpdate) (mana : ManaState)
    → (reread type_map type ≡ ok type)
      × (reread state_map state ≡ ok state)
      × (reread security_map security ≡ ok security)
      × (reread error_map error ≡ ok error)
      × (reread ipv4_method_map ipv4 ≡ ok ipv4)
      × (reread ipv6_method_map ipv6 ≡ ok ipv6)
      × (reread ipv6_privacy_map privacy ≡ ok privacy)
      × (reread ethernet_method_map ethernet ≡ ok ethernet)
      × (reread proxy_method_map proxy ≡ ok proxy)
      × (reread tech_type_map tech ≡ ok tech)
      × (reread time_update_map update ≡ ok update)
      × (reread time_zone_update_map update ≡ ok update)
      × (reread mana_state_map mana ≡ ok mana)
tables_reread type state security error ipv4 ipv6 privacy ethernet proxy tech update mana = (
  type_map-reread type,
  state_map-reread state,
  security_map-reread security,
  error_map-reread error,
  ipv4_method_map-reread ipv4,
  ipv6_method_map-reread ipv6,
  ipv6_privacy_map-reread privacy,
  ethernet_method_map-reread ethernet,
  proxy_method_map-reread proxy,
  tech_type_map-reread tech,
  time_update_map-reread update,
  time_zone_update_map-reread update,
  mana_state_map-reread mana,
)
