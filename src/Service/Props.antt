-- ===== src/Service/Props.antt =====
-- ServProperties of include/amarula/dbus/connman/gservice.hpp and its `update`
-- (src/dbus/gconnman_service.cpp).
use libcppconnman.Prelude.{
  ℕ, ◌%◌, ◌^◌, String, Bool, false, Option, none, some, List, [], ◌∷◌, Result, ok, map_ok, ◌==◌,
  if◌then◌else◌,
}
use libcppconnman.GVariant.{GVariant}
use libcppconnman.GVariant.Vectors.{as_to_vector, as_to_enum_vector}
use libcppconnman.EnumMap.{from_string}
use libcppconnman.Props.{Update, cases}
use libcppconnman.Names.{
  name_str, type_str, state_str, error_str, favorite_str, immutable_str, autoconnect_str, mdns_str,
  strength_str, ipv4_str, ipv6_str, ethernet_str, provider_str, proxy_str, security_str,
  nameservers_str, nameservers_configuration_str, domains_str, timeservers_str,
}
use libcppconnman.Service.Enums.{
  ServState, ServError, ServType, Security, state_map, error_map, type_map, security_map,
}
use libcppconnman.Service.Blocks.{
  Ipv4, Ipv6, Ethernet, Provider, Proxy, ipv4_parse, ipv6_parse, ethernet_parse, provider_parse,
  proxy_parse,
}

pub record ServProperties : Type 0 where
  pub state : ServState
  pub error : ServError
  pub name : String
  pub type : ServType
  pub security : Option (List Security)
  pub name_servers : Option (List String)
  pub name_servers_conf : Option (List String)
  pub domains : Option (List String)
  pub time_servers : Option (List String)
  pub autoconnect : Bool
  pub mdns : Bool
  pub favorite : Bool
  pub immutable : Bool
  pub roaming : Bool
  pub strength : ℕ
  pub ipv4 : Option Ipv4
  pub ipv6 : Option Ipv6
  pub ethernet : Option Ethernet
  pub provider : Option Provider
  pub proxy : Option Proxy

abbrev pub serv_init : ServProperties
serv_init = record {
  state = ServState.idle;
  error = ServError.none;
  name = "";
  type = ServType.ethernet;
  security = none;
  name_servers = none;
  name_servers_conf = none;
  domains = none;
  time_servers = none;
  autoconnect = false;
  mdns = false;
  favorite = false;
  immutable = false;
  roaming = false;
  strength = 0;
  ipv4 = none;
  ipv6 = none;
  ethernet = none;
  provider = none;
  proxy = none;
}

module _ {V : Type 0} ⦃g : GVariant V⦄ where
  -- `(g_variant_n_children (value) != 0) ? std::optional (…) : std::nullopt`
  abbrev pub unless_empty : {A : Type 0} → (V → Result A) → V → Result (Option A)
  unless_empty read value =
      if g.n_children value == 0 then ok none else map_ok (λ a. some a) (read value)

  abbrev pub to_bool : V → Bool
  to_bool value = g.get_boolean value == 1

  abbrev pub serv_cases : List (String × (V → ServProperties → Result ServProperties))
  serv_cases =
      (name_str, λ value p. ok (record p { name = g.get_string value }))
      ∷ (
        type_str,
        λ value p. map_ok (λ x. record p { type = x }) (from_string type_map (g.get_string value)),
      )
      ∷ (
        state_str,
        λ value p.
            map_ok (λ x. record p { state = x }) (from_string state_map (g.get_string value)),
      )
      ∷ (
        error_str,
        λ value p.
            map_ok (λ x. record p { error = x }) (from_string error_map (g.get_string value)),
      )
      ∷ (favorite_str, λ value p. ok (record p { favorite = to_bool value }))
      ∷ (immutable_str, λ value p. ok (record p { immutable = to_bool value }))
      ∷ (autoconnect_str, λ value p. ok (record p { autoconnect = to_bool value }))
      ∷ (mdns_str, λ value p. ok (record p { mdns = to_bool value }))
      ∷ (strength_str, λ value p. ok (record p { strength = g.get_byte value % 2 ^ 8 }))
      ∷ (ipv4_str, λ value p. map_ok (λ x. record p { ipv4 = x }) (unless_empty ipv4_parse value))
      ∷ (ipv6_str, λ value p. map_ok (λ x. record p { ipv6 = x }) (unless_empty ipv6_parse value))
      ∷ (
        ethernet_str,
        λ value p. map_ok (λ x. record p { ethernet = x }) (unless_empty ethernet_parse value),
      )
      ∷ (
        provider_str,
        λ value p. map_ok (λ x. record p { provider = x }) (unless_empty provider_parse value),
      )
      ∷ (
        proxy_str,
        λ value p. map_ok (λ x. record p { proxy = x }) (unless_empty proxy_parse value),
      )
      ∷ (
        security_str,
        λ value p.
            map_ok (λ x. record p { security = x })
              (unless_empty (as_to_enum_vector security_map) value),
      )
      ∷ (
        nameservers_str,
        λ value p.
            map_ok (λ x. record p { name_servers = x })
              (unless_empty (λ v. ok (as_to_vector v)) value),
      )
      ∷ (
        nameservers_configuration_str,
        λ value p.
            map_ok (λ x. record p { name_servers_conf = x })
              (unless_empty (λ v. ok (as_to_vector v)) value),
      )
      ∷ (
        domains_str,
        λ value p.
            map_ok (λ x. record p { domains = x }) (unless_empty (λ v. ok (as_to_vector v)) value),
      )
      ∷ (
        timeservers_str,
        λ value p.
            map_ok (λ x. record p { time_servers = x })
              (unless_empty (λ v. ok (as_to_vector v)) value),
      )
      ∷ []

  unfoldable pub serv_update : Update V ServProperties
  serv_update = cases serv_cases
