-- ===== src/Service/Fields.antt =====
-- The branch of `update` that each field of a service has (src/dbus/gconnman_service.cpp).
use libcppconnman.Prelude.{◌%◌, ◌^◌, ok, refl, arith, ◌==◌}
use libcppconnman.GVariant.{GVariant}
use libcppconnman.GVariant.Vectors.{as_to_vector, as_to_enum_vector}
use libcppconnman.EnumMap.{from_string}
use libcppconnman.Props.Fields.{IsField, cases-IsField}
use libcppconnman.Names.{
  name_str, type_str, state_str, error_str, favorite_str, immutable_str, autoconnect_str, mdns_str,
  strength_str, ipv4_str, ipv6_str, ethernet_str, provider_str, proxy_str, security_str,
  nameservers_str, nameservers_configuration_str, domains_str, timeservers_str,
}
use libcppconnman.Service.Enums.{type_map, state_map, error_map, security_map}
use libcppconnman.Service.Blocks.{
  ipv4_parse, ipv6_parse, ethernet_parse, provider_parse, proxy_parse,
}
use libcppconnman.Service.Props.{serv_cases, serv_update, unless_empty}

module _ {V : Type 0} ⦃g : GVariant V⦄ where
  pub name-IsField : IsField (serv_update {V = V}) name_str (λ p. p.name) (λ v. ok (g.get_string v))
  unfolding serv_update
  name-IsField = cases-IsField name_str (λ p. p.name) _ serv_cases (ground arith) refl

  pub type-IsField :
      IsField
        (serv_update {V = V})
        type_str
        (λ p. p.type)
        (λ v. from_string type_map (g.get_string v))
  unfolding serv_update
  type-IsField = cases-IsField type_str (λ p. p.type) _ serv_cases (ground arith) refl

  pub state-IsField :
      IsField
        (serv_update {V = V})
        state_str
        (λ p. p.state)
        (λ v. from_string state_map (g.get_string v))
  unfolding serv_update
  state-IsField = cases-IsField state_str (λ p. p.state) _ serv_cases (ground arith) refl

  pub error-IsField :
      IsField
        (serv_update {V = V})
        error_str
        (λ p. p.error)
        (λ v. from_string error_map (g.get_string v))
  unfolding serv_update
  error-IsField = cases-IsField error_str (λ p. p.error) _ serv_cases (ground arith) refl

  pub favorite-IsField :
      IsField (serv_update {V = V}) favorite_str (λ p. p.favorite) (λ v. ok (g.get_boolean v == 1))
  unfolding serv_update
  favorite-IsField = cases-IsField favorite_str (λ p. p.favorite) _ serv_cases (ground arith) refl

  pub immutable-IsField :
      IsField
        (serv_update {V = V})
        immutable_str
        (λ p. p.immutable)
        (λ v. ok (g.get_boolean v == 1))
  unfolding serv_update
  immutable-IsField =
      cases-IsField immutable_str (λ p. p.immutable) _ serv_cases (ground arith) refl

  pub autoconnect-IsField :
      IsField
        (serv_update {V = V})
        autoconnect_str
        (λ p. p.autoconnect)
        (λ v. ok (g.get_boolean v == 1))
  unfolding serv_update
  autoconnect-IsField =
      cases-IsField autoconnect_str (λ p. p.autoconnect) _ serv_cases (ground arith) refl

  pub mdns-IsField :
      IsField (serv_update {V = V}) mdns_str (λ p. p.mdns) (λ v. ok (g.get_boolean v == 1))
  unfolding serv_update
  mdns-IsField = cases-IsField mdns_str (λ p. p.mdns) _ serv_cases (ground arith) refl

  pub strength-IsField :
      IsField (serv_update {V = V}) strength_str (λ p. p.strength) (λ v. ok (g.get_byte v % 2 ^ 8))
  unfolding serv_update
  strength-IsField = cases-IsField strength_str (λ p. p.strength) _ serv_cases (ground arith) refl

  pub ipv4-IsField :
      IsField (serv_update {V = V}) ipv4_str (λ p. p.ipv4) (λ v. unless_empty ipv4_parse v)
  unfolding serv_update
  ipv4-IsField = cases-IsField ipv4_str (λ p. p.ipv4) _ serv_cases (ground arith) refl

  pub ipv6-IsField :
      IsField (serv_update {V = V}) ipv6_str (λ p. p.ipv6) (λ v. unless_empty ipv6_parse v)
  unfolding serv_update
  ipv6-IsField = cases-IsField ipv6_str (λ p. p.ipv6) _ serv_cases (ground arith) refl

  pub ethernet-IsField :
      IsField
        (serv_update {V = V})
        ethernet_str
        (λ p. p.ethernet)
        (λ v. unless_empty ethernet_parse v)
  unfolding serv_update
  ethernet-IsField = cases-IsField ethernet_str (λ p. p.ethernet) _ serv_cases (ground arith) refl

  pub provider-IsField :
      IsField
        (serv_update {V = V})
        provider_str
        (λ p. p.provider)
        (λ v. unless_empty provider_parse v)
  unfolding serv_update
  provider-IsField = cases-IsField provider_str (λ p. p.provider) _ serv_cases (ground arith) refl

  pub proxy-IsField :
      IsField (serv_update {V = V}) proxy_str (λ p. p.proxy) (λ v. unless_empty proxy_parse v)
  unfolding serv_update
  proxy-IsField = cases-IsField proxy_str (λ p. p.proxy) _ serv_cases (ground arith) refl

  pub security-IsField :
      IsField
        (serv_update {V = V})
        security_str
        (λ p. p.security)
        (λ v. unless_empty (as_to_enum_vector security_map) v)
  unfolding serv_update
  security-IsField = cases-IsField security_str (λ p. p.security) _ serv_cases (ground arith) refl

  pub name_servers-IsField :
      IsField
        (serv_update {V = V})
        nameservers_str
        (λ p. p.name_servers)
        (λ v. unless_empty (λ w. ok (as_to_vector w)) v)
  unfolding serv_update
  name_servers-IsField =
      cases-IsField nameservers_str (λ p. p.name_servers) _ serv_cases (ground arith) refl

  pub name_servers_conf-IsField :
      IsField
        (serv_update {V = V})
        nameservers_configuration_str
        (λ p. p.name_servers_conf)
        (λ v. unless_empty (λ w. ok (as_to_vector w)) v)
  unfolding serv_update
  name_servers_conf-IsField =
      cases-IsField nameservers_configuration_str (λ p. p.name_servers_conf) _ serv_cases
        (ground arith) refl

  pub domains-IsField :
      IsField
        (serv_update {V = V})
        domains_str
        (λ p. p.domains)
        (λ v. unless_empty (λ w. ok (as_to_vector w)) v)
  unfolding serv_update
  domains-IsField = cases-IsField domains_str (λ p. p.domains) _ serv_cases (ground arith) refl

  pub time_servers-IsField :
      IsField
        (serv_update {V = V})
        timeservers_str
        (λ p. p.time_servers)
        (λ v. unless_empty (λ w. ok (as_to_vector w)) v)
  unfolding serv_update
  time_servers-IsField =
      cases-IsField timeservers_str (λ p. p.time_servers) _ serv_cases (ground arith) refl
