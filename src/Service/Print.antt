-- ===== src/Service/Print.antt =====
-- `operator<<` of ServProperties and of its parts (src/dbus/gconnman_service.cpp).
use libcppconnman.Prelude.{String, List, [], ◌∷◌, ◌++◌, Result, ok, map_ok, if◌then◌else◌, ◌==◌}
use libcppconnman.GVariant.{ℤ, pos}
use libcppconnman.EnumMap.{to_string}
use libcppconnman.Print.{Output, show_bool, line, spaced, if_set, line_of, both, line_ok}
use libcppconnman.Service.Enums.{
  ServError, Security, type_map, state_map, error_map, security_map, serv_error_to_int,
  serv_type_to_int, serv_state_to_int, security_to_int, serv_type_enum, serv_state_enum,
  security_enum, serv_error_enum,
}
use libcppconnman.Service.Methods.{
  ipv4_method_map, ipv6_method_map, ethernet_method_map, proxy_method_map, ipv4_method_to_int,
  ipv6_method_to_int, ethernet_method_to_int, proxy_method_to_int, ipv6_privacy_to_int,
  ipv4_method_enum, ipv6_method_enum, ethernet_method_enum, proxy_method_enum,
}
use libcppconnman.Service.Blocks.{Ipv4, Ipv6, Ethernet, Provider, Proxy}
use libcppconnman.Service.Props.{ServProperties}

unfoldable pub print_ipv4 : Ipv4 → Result Output
unfolding to_string ipv4_method_to_int
print_ipv4 obj = both (ok ("IPv4:\n" ∷ [])) (
    both (line_ok "  Method" (to_string ipv4_method_map obj.method)) (
      ok (
        line "  Address" obj.address
        ++ line "  Netmask" obj.netmask
        ++ line "  Gateway" obj.gateway)))

unfoldable pub print_provider : Provider → Result Output
print_provider obj = ok (
    "Provider:\n" ∷ line "  Host" obj.host
    ++ line "  Domain" obj.domain
    ++ line "  Name" obj.name
    ++ line "  Type" obj.type)

unfoldable pub print_proxy : Proxy → Result Output
unfolding to_string proxy_method_to_int
print_proxy obj = both (ok ("Proxy:\n" ∷ [])) (
    both (line_ok "  Method" (to_string proxy_method_map obj.method)) (
      ok (
        line "  URL" obj.url
        ++ "  Servers: " ∷ spaced obj.servers
        ++ "\n" ∷ "  Excludes: " ∷ spaced obj.excludes
        ++ "\n" ∷ [])))

-- The texts of the security types, each before a space.
unfoldable pub print_security : List Security → Result Output
unfolding to_string security_to_int
print_security [] = ok []
print_security (sec ∷ security) =
    both (map_ok (λ s. s ∷ " " ∷ []) (to_string security_map sec)) (print_security security)

-- `number` is how the stream writes an integer.
module _ (number : ℤ → String) where
  unfoldable pub print_ethernet : Ethernet → Result Output
  unfolding to_string ethernet_method_to_int
  print_ethernet obj = both (ok ("Ethernet:\n" ∷ [])) (
      both (line_ok "  Method" (to_string ethernet_method_map obj.method)) (
        ok (
          line "  Interface" obj.interface
          ++ line "  Address" obj.address
          ++ line "  MTU" (number (pos obj.mtu)))))

  unfoldable pub print_ipv6 : Ipv6 → Result Output
  unfolding to_string ipv6_method_to_int ipv6_privacy_to_int
  print_ipv6 obj = both (ok ("IPv6:\n" ∷ [])) (
      both (line_ok "  Method" (to_string ipv6_method_map obj.method)) (
        ok (
          line "  Address" obj.address
          ++ line "  Gateway" obj.gateway
          ++ line "  Privacy" (number (pos (ipv6_privacy_to_int obj.privacy)))
          ++ line "  Prefix Length" (number (pos obj.prefix_length)))))

  unfoldable pub print_serv : ServProperties → Result Output
  unfolding to_string serv_state_to_int serv_error_to_int serv_type_to_int print_security print_ipv4
      print_ipv6 print_ethernet print_provider print_proxy
  print_serv obj = both (line_ok "State" (to_string state_map obj.state)) (
      both
        (if serv_error_to_int obj.error == serv_error_to_int ServError.none
          then ok []
          else line_ok "Error" (to_string error_map obj.error))
        (both (ok (line "Name" obj.name)) (
          both (line_ok "Type" (to_string type_map obj.type)) (
            both
              (ok (
                line "Strength" (number (pos obj.strength))
                ++ line "AutoConnect" (show_bool obj.autoconnect)
                ++ line "mDNS" (show_bool obj.mdns)
                ++ line "Favorite" (show_bool obj.favorite)
                ++ line "Immutable" (show_bool obj.immutable)
                ++ line "Roaming" (show_bool obj.roaming)))
              (both
                (if_set
                  (λ security.
                    both (ok ("Security: " ∷ [])) (both (print_security security) (ok ("\n" ∷ []))))
                  obj.security)
                (both
                  (ok (
                    line_of "Nameservers: " obj.name_servers
                    ++ line_of "Nameservers.Configuration: " obj.name_servers_conf
                    ++ line_of "Domains: " obj.domains
                    ++ line_of "TimeServers: " obj.time_servers))
                  (both (if_set print_ipv4 obj.ipv4) (
                    both (if_set print_ipv6 obj.ipv6) (
                      both (if_set print_ethernet obj.ethernet) (
                        both (if_set print_provider obj.provider)
                          (if_set print_proxy obj.proxy)))))))))))
