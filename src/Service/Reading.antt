-- ===== src/Service/Reading.antt =====
-- What the properties of a service hold after a dictionary was read: every field the value of the last entry under its key.
use libcppconnman.Prelude.{◌%◌, ◌^◌, ◌≡◌, List, none, ok, ◌==◌}
use libcppconnman.GVariant.{GVariant}
use libcppconnman.GVariant.Vectors.{as_to_vector, as_to_enum_vector}
use libcppconnman.EnumMap.{from_string}
use libcppconnman.Props.{update_properties}
use libcppconnman.Props.Fields.{Holds, last_value, update_properties-last}
use libcppconnman.Names.{
  name_str, type_str, state_str, error_str, favorite_str, immutable_str, autoconnect_str, mdns_str,
  strength_str, ipv4_str, ipv6_str, ethernet_str, provider_str, proxy_str, security_str,
  nameservers_str, nameservers_configuration_str, domains_str, timeservers_str,
}
use libcppconnman.Service.Enums.{type_map, state_map, error_map, security_map}
use libcppconnman.Service.Blocks.{
  ipv4_parse, ipv6_parse, ethernet_parse, provider_parse, proxy_parse,
}
use libcppconnman.Service.Props.{ServProperties, serv_update, unless_empty}
use libcppconnman.Service.Fields.{
  name-IsField, type-IsField, state-IsField, error-IsField, favorite-IsField, immutable-IsField,
  autoconnect-IsField, mdns-IsField, strength-IsField, ipv4-IsField, ipv6-IsField, ethernet-IsField,
  provider-IsField, proxy-IsField, security-IsField, name_servers-IsField,
  name_servers_conf-IsField, domains-IsField, time_servers-IsField,
}

-- What the entries of `props` make of the fields of `p`.
pub record ServReads {V : Type 0} ⦃g : GVariant V⦄ (props : List V) (p p' : ServProperties)
    : Type 0 where
  pub name : Holds (λ v. ok (g.get_string v)) (last_value name_str props) p.name p'.name
  pub type :
      Holds (λ v. from_string type_map (g.get_string v)) (last_value type_str props) p.type p'.type
  pub state :
      Holds
        (λ v. from_string state_map (g.get_string v))
        (last_value state_str props)
        p.state
        p'.state
  pub error :
      Holds
        (λ v. from_string error_map (g.get_string v))
        (last_value error_str props)
        p.error
        p'.error
  pub favorite :
      Holds (λ v. ok (g.get_boolean v == 1)) (last_value favorite_str props) p.favorite p'.favorite
  pub immutable :
      Holds
        (λ v. ok (g.get_boolean v == 1))
        (last_value immutable_str props)
        p.immutable
        p'.immutable
  pub autoconnect :
      Holds
        (λ v. ok (g.get_boolean v == 1))
        (last_value autoconnect_str props)
        p.autoconnect
        p'.autoconnect
  pub mdns : Holds (λ v. ok (g.get_boolean v == 1)) (last_value mdns_str props) p.mdns p'.mdns
  pub strength :
      Holds (λ v. ok (g.get_byte v % 2 ^ 8)) (last_value strength_str props) p.strength p'.strength
  pub ipv4 : Holds (λ v. unless_empty ipv4_parse v) (last_value ipv4_str props) p.ipv4 p'.ipv4
  pub ipv6 : Holds (λ v. unless_empty ipv6_parse v) (last_value ipv6_str props) p.ipv6 p'.ipv6
  pub ethernet :
      Holds
        (λ v. unless_empty ethernet_parse v)
        (last_value ethernet_str props)
        p.ethernet
        p'.ethernet
  pub provider :
      Holds
        (λ v. unless_empty provider_parse v)
        (last_value provider_str props)
        p.provider
        p'.provider
  pub proxy : Holds (λ v. unless_empty proxy_parse v) (last_value proxy_str props) p.proxy p'.proxy
  pub security :
      Holds
        (λ v. unless_empty (as_to_enum_vector security_map) v)
        (last_value security_str props)
        p.security
        p'.security
  pub name_servers :
      Holds
        (λ v. unless_empty (λ w. ok (as_to_vector w)) v)
        (last_value nameservers_str props)
        p.name_servers
        p'.name_servers
  pub name_servers_conf :
      Holds
        (λ v. unless_empty (λ w. ok (as_to_vector w)) v)
        (last_value nameservers_configuration_str props)
        p.name_servers_conf
        p'.name_servers_conf
  pub domains :
      Holds
        (λ v. unless_empty (λ w. ok (as_to_vector w)) v)
        (last_value domains_str props)
        p.domains
        p'.domains
  pub time_servers :
      Holds
        (λ v. unless_empty (λ w. ok (as_to_vector w)) v)
        (last_value timeservers_str props)
        p.time_servers
        p'.time_servers

module _ {V : Type 0} ⦃g : GVariant V⦄ where
  -- When updateProperties of a service reads a dictionary without an exception, each of the 19 fields
  -- that have a key holds what the last entry under its key decodes to, and its old value where no
  -- entry has the key.
  pub update_properties-ServReads :
      (props : List V) (p p' : ServProperties)
      → update_properties serv_update props p ≡ (p', none)
      → ServReads props p p'
  update_properties-ServReads props p p' h = record {
    name =
        update_properties-last serv_update name_str (λ q. q.name) (λ v. ok (g.get_string v))
          name-IsField props p p' h;
    type =
        update_properties-last serv_update type_str (λ q. q.type)
          (λ v. from_string type_map (g.get_string v)) type-IsField props p p' h;
    state =
        update_properties-last serv_update state_str (λ q. q.state)
          (λ v. from_string state_map (g.get_string v)) state-IsField props p p' h;
    error =
        update_properties-last serv_update error_str (λ q. q.error)
          (λ v. from_string error_map (g.get_string v)) error-IsField props p p' h;
    favorite =
        update_properties-last serv_update favorite_str (λ q. q.favorite)
          (λ v. ok (g.get_boolean v == 1)) favorite-IsField props p p' h;
    immutable =
        update_properties-last serv_update immutable_str (λ q. q.immutable)
          (λ v. ok (g.get_boolean v == 1)) immutable-IsField props p p' h;
    autoconnect =
        update_properties-last serv_update autoconnect_str (λ q. q.autoconnect)
          (λ v. ok (g.get_boolean v == 1)) autoconnect-IsField props p p' h;
    mdns =
        update_properties-last serv_update mdns_str (λ q. q.mdns) (λ v. ok (g.get_boolean v == 1))
          mdns-IsField props p p' h;
    strength =
        update_properties-last serv_update strength_str (λ q. q.strength)
          (λ v. ok (g.get_byte v % 2 ^ 8)) strength-IsField props p p' h;
    ipv4 =
        update_properties-last serv_update ipv4_str (λ q. q.ipv4) (λ v. unless_empty ipv4_parse v)
          ipv4-IsField props p p' h;
    ipv6 =
        update_properties-last serv_update ipv6_str (λ q. q.ipv6) (λ v. unless_empty ipv6_parse v)
          ipv6-IsField props p p' h;
    ethernet =
        update_properties-last serv_update ethernet_str (λ q. q.ethernet)
          (λ v. unless_empty ethernet_parse v) ethernet-IsField props p p' h;
    provider =
        update_properties-last serv_update provider_str (λ q. q.provider)
          (λ v. unless_empty provider_parse v) provider-IsField props p p' h;
    proxy =
        update_properties-last serv_update proxy_str (λ q. q.proxy)
          (λ v. unless_empty proxy_parse v) proxy-IsField props p p' h;
    security =
        update_properties-last serv_update security_str (λ q. q.security)
          (λ v. unless_empty (as_to_enum_vector security_map) v) security-IsField props p p' h;
    name_servers =
        update_properties-last serv_update nameservers_str (λ q. q.name_servers)
          (λ v. unless_empty (λ w. ok (as_to_vector w)) v) name_servers-IsField props p p' h;
    name_servers_conf =
        update_properties-last serv_update nameservers_configuration_str (λ q. q.name_servers_conf)
          (λ v. unless_empty (λ w. ok (as_to_vector w)) v) name_servers_conf-IsField props p p' h;
    domains =
        update_properties-last serv_update domains_str (λ q. q.domains)
          (λ v. unless_empty (λ w. ok (as_to_vector w)) v) domains-IsField props p p' h;
    time_servers =
        update_properties-last serv_update timeservers_str (λ q. q.time_servers)
          (λ v. unless_empty (λ w. ok (as_to_vector w)) v) time_servers-IsField props p p' h;
  }
