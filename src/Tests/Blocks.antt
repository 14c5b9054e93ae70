-- ===== src/Tests/Blocks.antt =====
-- The blocks of a service, at concrete dictionaries.
use libcppconnman.Prelude.{[], ◌∷◌, refl}
use libcppconnman.GVariant.Vectors.{as_to_vector}
use libcppconnman.EnumMap.{from_string}
use libcppconnman.Props.{parse}
use libcppconnman.Service.Methods.{Ipv4Method, Ipv6Method, EthernetMethod, ProxyMethod}
use libcppconnman.Service.Blocks.{
  Ipv4, ipv4_update, ipv4_init, ipv4_parse, Ipv6, ipv6_update, ipv6_init, ipv6_parse, Ethernet,
  ethernet_update, ethernet_init, ethernet_parse, Provider, provider_update, provider_init,
  provider_parse, Proxy, proxy_update, proxy_init, proxy_parse,
}
use libcppconnman.Service.BlockReading.{
  Ipv4Reads, Ipv6Reads, EthernetReads, ProviderReads, ProxyReads,
}
use libcppconnman.Service.BlocksReading.{blocks_parse-Reads}
use libcppconnman.Tests.Values.{Var, var, text, number, strings, dict}

abbrev ipv4_dict : Var
ipv4_dict = dict (("Method", text "dhcp") ∷ ("Address", text "10.0.0.2") ∷ [])

abbrev ipv4_read : Ipv4
ipv4_read = record ipv4_init { method = Ipv4Method.dhcp; address = "10.0.0.2" }

abbrev ipv6_dict : Var
ipv6_dict = dict (("Method", text "auto") ∷ ("PrefixLength", number 64) ∷ [])

abbrev ipv6_read : Ipv6
ipv6_read = record ipv6_init { method = Ipv6Method.auto; prefix_length = 64 }

abbrev ethernet_dict : Var
ethernet_dict = dict (("Method", text "auto") ∷ ("MTU", number 1500) ∷ [])

abbrev ethernet_read : Ethernet
ethernet_read = record ethernet_init { method = EthernetMethod.auto; mtu = 1500 }

abbrev provider_dict : Var
provider_dict = dict (("Host", text "vpn") ∷ [])

abbrev provider_read : Provider
provider_read = record provider_init { host = "vpn" }

abbrev proxy_dict : Var
proxy_dict = dict (("Method", text "direct") ∷ ("Servers", strings ("p" ∷ [])) ∷ [])

abbrev proxy_read : Proxy
proxy_read = record proxy_init { method = ProxyMethod.direct; servers = "p" ∷ [] }

blocks_parse-Reads_example :
    Ipv4Reads ipv4_dict ipv4_read
    × Ipv6Reads ipv6_dict ipv6_read
    × EthernetReads ethernet_dict ethernet_read
    × ProviderReads provider_dict provider_read
    × ProxyReads proxy_dict proxy_read
unfolding ipv4_parse ipv4_update ipv6_parse ipv6_update ethernet_parse ethernet_update
    provider_parse provider_update proxy_parse proxy_update parse from_string as_to_vector
blocks_parse-Reads_example =
    blocks_parse-Reads ipv4_dict ipv6_dict ethernet_dict provider_dict proxy_dict ipv4_read
      ipv6_read ethernet_read provider_read proxy_read refl refl refl refl refl
