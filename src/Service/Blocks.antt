-- ===== src/Service/Blocks.antt =====
-- The dictionaries inside a service: IPv4, IPv6, Ethernet, Provider and Proxy of
-- include/amarula/dbus/connman/gservice.hpp, with their `update` functions and constructors
-- (src/dbus/gconnman_service.cpp).
use libcppconnman.Prelude.{ℕ, ◌%◌, ◌^◌, String, List, [], ◌∷◌, Result, ok, map_ok}
use libcppconnman.GVariant.{GVariant}
use libcppconnman.GVariant.Vectors.{as_to_vector}
use libcppconnman.EnumMap.{from_string}
use libcppconnman.Props.{Update, cases, parse}
use libcppconnman.Names.{
  method_str, address_str, netmask_str, gateway_str, privacy_str, prefixlength_str, interface_str,
  mtu_str, host_str, domain_str, name_str, type_str, url_str, servers_str, excludes_str,
}
use libcppconnman.Service.Methods.{
  Ipv4Method, Ipv6Method, Ipv6Privacy, EthernetMethod, ProxyMethod, ipv4_method_map,
  ipv6_method_map, ipv6_privacy_map, ethernet_method_map, proxy_method_map,
}

pub record Ipv4 : Type 0 where
  pub method : Ipv4Method
  pub address : String
  pub netmask : String
  pub gateway : String

pub record Ipv6 : Type 0 where
  pub method : Ipv6Method
  pub address : String
  pub gateway : String
  pub privacy : Ipv6Privacy
  pub prefix_length : ℕ

pub record Ethernet : Type 0 where
  pub method : EthernetMethod
  pub interface : String
  pub address : String
  pub mtu : ℕ

pub record Provider : Type 0 where
  pub host : String
  pub domain : String
  pub name : String
  pub type : String

pub record Proxy : Type 0 where
  pub method : ProxyMethod
  pub url : String
  pub servers : List String
  pub excludes : List String

-- The objects before any key is read: enumerators of value 0, empty texts and zeros.
abbrev pub ipv4_init : Ipv4
ipv4_init = record { method = Ipv4Method.off; address = ""; netmask = ""; gateway = "" }

abbrev pub ipv6_init : Ipv6
ipv6_init = record {
  method = Ipv6Method.off;
  address = "";
  gateway = "";
  privacy = Ipv6Privacy.disabled;
  prefix_length = 0;
}

abbrev pub ethernet_init : Ethernet
ethernet_init = record { method = EthernetMethod.manual; interface = ""; address = ""; mtu = 0 }

abbrev pub provider_init : Provider
provider_init = record { host = ""; domain = ""; name = ""; type = "" }

abbrev pub proxy_init : Proxy
proxy_init = record { method = ProxyMethod.direct; url = ""; servers = []; excludes = [] }

module _ {V : Type 0} ⦃g : GVariant V⦄ where
  abbrev pub ipv4_cases : List (String × (V → Ipv4 → Result Ipv4))
  ipv4_cases =
      (
        method_str,
        λ value p.
            map_ok (λ m. record p { method = m })
              (from_string ipv4_method_map (g.get_string value)),
      )
      ∷ (address_str, λ value p. ok (record p { address = g.get_string value }))
      ∷ (netmask_str, λ value p. ok (record p { netmask = g.get_string value }))
      ∷ (gateway_str, λ value p. ok (record p { gateway = g.get_string value }))
      ∷ []

  unfoldable pub ipv4_update : Update V Ipv4
  ipv4_update = cases ipv4_cases

  abbrev pub ipv6_cases : List (String × (V → Ipv6 → Result Ipv6))
  ipv6_cases =
      (
        method_str,
        λ value p.
            map_ok (λ m. record p { method = m })
              (from_string ipv6_method_map (g.get_string value)),
      )
      ∷ (address_str, λ value p. ok (record p { address = g.get_string value }))
      ∷ (gateway_str, λ value p. ok (record p { gateway = g.get_string value }))
      ∷ (
        privacy_str,
        λ value p.
            map_ok (λ m. record p { privacy = m })
              (from_string ipv6_privacy_map (g.get_string value)),
      )
      ∷ (prefixlength_str, λ value p. ok (record p { prefix_length = g.get_byte value % 2 ^ 8 }))
      ∷ []

  unfoldable pub ipv6_update : Update V Ipv6
  ipv6_update = cases ipv6_cases

  abbrev pub ethernet_cases : List (String × (V → Ethernet → Result Ethernet))
  ethernet_cases =
      (
        method_str,
        λ value p.
            map_ok (λ m. record p { method = m })
              (from_string ethernet_method_map (g.get_string value)),
      )
      ∷ (interface_str, λ value p. ok (record p { interface = g.get_string value }))
      ∷ (address_str, λ value p. ok (record p { address = g.get_string value }))
      ∷ (mtu_str, λ value p. ok (record p { mtu = g.get_uint16 value % 2 ^ 16 }))
      ∷ []

  unfoldable pub ethernet_update : Update V Ethernet
  ethernet_update = cases ethernet_cases

  abbrev pub provider_cases : List (String × (V → Provider → Result Provider))
  provider_cases =
      (host_str, λ value p. ok (record p { host = g.get_string value }))
      ∷ (domain_str, λ value p. ok (record p { domain = g.get_string value }))
      ∷ (name_str, λ value p. ok (record p { name = g.get_string value }))
      ∷ (type_str, λ value p. ok (record p { type = g.get_string value }))
      ∷ []

  unfoldable pub provider_update : Update V Provider
  provider_update = cases provider_cases

  abbrev pub proxy_cases : List (String × (V → Proxy → Result Proxy))
  proxy_cases =
      (
        method_str,
        λ value p.
            map_ok (λ m. record p { method = m })
              (from_string proxy_method_map (g.get_string value)),
      )
      ∷ (url_str, λ value p. ok (record p { url = g.get_string value }))
      ∷ (servers_str, λ value p. ok (record p { servers = as_to_vector value }))
      ∷ (excludes_str, λ value p. ok (record p { excludes = as_to_vector value }))
      ∷ []

  unfoldable pub proxy_update : Update V Proxy
  proxy_update = cases proxy_cases

  -- The constructors from a variant.
  unfoldable pub ipv4_parse : V → Result Ipv4
  ipv4_parse variant = parse ipv4_update (g.children variant) ipv4_init

  unfoldable pub ipv6_parse : V → Result Ipv6
  ipv6_parse variant = parse ipv6_update (g.children variant) ipv6_init

  unfoldable pub ethernet_parse : V → Result Ethernet
  ethernet_parse variant = parse ethernet_update (g.children variant) ethernet_init

  unfoldable pub provider_parse : V → Result Provider
  provider_parse variant = parse provider_update (g.children variant) provider_init

  unfoldable pub proxy_parse : V → Result Proxy
  proxy_parse variant = parse proxy_update (g.children variant) proxy_init
