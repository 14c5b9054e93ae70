-- ===== src/Service/BlockReading.antt =====
-- What the blocks of a service hold after a dictionary was read (src/dbus/gconnman_service.cpp).
use libcppconnman.Prelude.{◌%◌, ◌^◌, ◌≡◌, String, Result, ok, refl, arith}
use libcppconnman.GVariant.{GVariant}
use libcppconnman.GVariant.Vectors.{as_to_vector}
use libcppconnman.EnumMap.{from_string}
use libcppconnman.Props.Fields.{cases-IsField, Holds, last_value, parse-last}
use libcppconnman.Names.{
  address_str, domain_str, excludes_str, gateway_str, host_str, interface_str, method_str, mtu_str,
  name_str, netmask_str, prefixlength_str, privacy_str, servers_str, type_str, url_str,
}
use libcppconnman.Service.Methods.{
  ipv4_method_map, ipv6_method_map, ipv6_privacy_map, ethernet_method_map, proxy_method_map,
}
use libcppconnman.Service.Blocks.{
  Ipv4, ipv4_cases, ipv4_update, ipv4_init, ipv4_parse, Ipv6, ipv6_cases, ipv6_update, ipv6_init,
  ipv6_parse, Ethernet, ethernet_cases, ethernet_update, ethernet_init, ethernet_parse, Provider,
  provider_cases, provider_update, provider_init, provider_parse, Proxy, proxy_cases, proxy_update,
  proxy_init, proxy_parse,
}

-- The field is what the last entry under its key decodes to, or `before` where no entry has the key.
abbrev pub FieldReads :
    {V A : Type 0} → ⦃g : GVariant V⦄ → String → (V → Result A) → V → A → A → Type 0
FieldReads ⦃g⦄ key decode variant before now =
    Holds decode (last_value key (g.children variant)) before now

module _ {V : Type 0} ⦃g : GVariant V⦄ where
  -- What each field holds: what the last entry under its key decodes to, or its initial value.
  abbrev pub Ipv4Reads : V → Ipv4 → Type 0
  Ipv4Reads variant b =
      FieldReads method_str (λ v. from_string ipv4_method_map (g.get_string v)) variant
        ipv4_init.method b.method
      × FieldReads address_str (λ v. ok (g.get_string v)) variant ipv4_init.address b.address
      × FieldReads netmask_str (λ v. ok (g.get_string v)) variant ipv4_init.netmask b.netmask
      × FieldReads gateway_str (λ v. ok (g.get_string v)) variant ipv4_init.gateway b.gateway

  pub ipv4_parse-Ipv4Reads :
      (variant : V) (b : Ipv4) → ipv4_parse variant ≡ ok b → Ipv4Reads variant b
  unfolding ipv4_parse ipv4_update
  ipv4_parse-Ipv4Reads variant b h = (
    parse-last ipv4_update method_str (λ p. p.method)
        (λ v. from_string ipv4_method_map (g.get_string v))
        (cases-IsField method_str (λ p. p.method) _ ipv4_cases (ground arith) refl)
        (g.children variant) ipv4_init b h,
    parse-last ipv4_update address_str (λ p. p.address) (λ v. ok (g.get_string v))
        (cases-IsField address_str (λ p. p.address) _ ipv4_cases (ground arith) refl)
        (g.children variant) ipv4_init b h,
    parse-last ipv4_update netmask_str (λ p. p.netmask) (λ v. ok (g.get_string v))
        (cases-IsField netmask_str (λ p. p.netmask) _ ipv4_cases (ground arith) refl)
        (g.children variant) ipv4_init b h,
    parse-last ipv4_update gateway_str (λ p. p.gateway) (λ v. ok (g.get_string v))
        (cases-IsField gateway_str (λ p. p.gateway) _ ipv4_cases (ground arith) refl)
        (g.children variant) ipv4_init b h,
  )

  -- What each field holds: what the last entry under its key decodes to, or its initial value.
  abbrev pub Ipv6Reads : V → Ipv6 → Type 0
  Ipv6Reads variant b =
      FieldReads method_str (λ v. from_string ipv6_method_map (g.get_string v)) variant
        ipv6_init.method b.method
      × FieldReads address_str (λ v. ok (g.get_string v)) variant ipv6_init.address b.address
      × FieldReads gateway_str (λ v. ok (g.get_string v)) variant ipv6_init.gateway b.gateway
      × FieldReads privacy_str (λ v. from_string ipv6_privacy_map (g.get_string v)) variant
          ipv6_init.privacy b.privacy
      × FieldReads prefixlength_str (λ v. ok (g.get_byte v % 2 ^ 8)) variant ipv6_init.prefix_length
          b.prefix_length

  pub ipv6_parse-Ipv6Reads :
      (variant : V) (b : Ipv6) → ipv6_parse variant ≡ ok b → Ipv6Reads variant b
  unfolding ipv6_parse ipv6_update
  ipv6_parse-Ipv6Reads variant b h = (
    parse-last ipv6_update method_str (λ p. p.method)
        (λ v. from_string ipv6_method_map (g.get_string v))
        (cases-IsField method_str (λ p. p.method) _ ipv6_cases (ground arith) refl)
        (g.children variant) ipv6_init b h,
    parse-last ipv6_update address_str (λ p. p.address) (λ v. ok (g.get_string v))
        (cases-IsField address_str (λ p. p.address) _ ipv6_cases (ground arith) refl)
        (g.children variant) ipv6_init b h,
    parse-last ipv6_update gateway_str (λ p. p.gateway) (λ v. ok (g.get_string v))
        (cases-IsField gateway_str (λ p. p.gateway) _ ipv6_cases (ground arith) refl)
        (g.children variant) ipv6_init b h,
    parse-last ipv6_update privacy_str (λ p. p.privacy)
        (λ v. from_string ipv6_privacy_map (g.get_string v))
        (cases-IsField privacy_str (λ p. p.privacy) _ ipv6_cases (ground arith) refl)
        (g.children variant) ipv6_init b h,
    parse-last ipv6_update prefixlength_str (λ p. p.prefix_length) (λ v. ok (g.get_byte v % 2 ^ 8))
        (cases-IsField prefixlength_str (λ p. p.prefix_length) _ ipv6_cases (ground arith) refl)
        (g.children variant) ipv6_init b h,
  )

  -- What each field holds: what the last entry under its key decodes to, or its initial value.
  abbrev pub EthernetReads : V → Ethernet → Type 0
  EthernetReads variant b =
      FieldReads method_str (λ v. from_string ethernet_method_map (g.get_string v)) variant
        ethernet_init.method b.method
      × FieldReads interface_str (λ v. ok (g.get_string v)) variant ethernet_init.interface
          b.interface
      × FieldReads address_str (λ v. ok (g.get_string v)) variant ethernet_init.address b.address
      × FieldReads mtu_str (λ v. ok (g.get_uint16 v % 2 ^ 16)) variant ethernet_init.mtu b.mtu

  pub ethernet_parse-EthernetReads :
      (variant : V) (b : Ethernet) → ethernet_parse variant ≡ ok b → EthernetReads variant b
  unfolding ethernet_parse ethernet_update
  ethernet_parse-EthernetReads variant b h = (
    parse-last ethernet_update method_str (λ p. p.method)
        (λ v. from_string ethernet_method_map (g.get_string v))
        (cases-IsField method_str (λ p. p.method) _ ethernet_cases (ground arith) refl)
        (g.children variant) ethernet_init b h,
    parse-last ethernet_update interface_str (λ p. p.interface) (λ v. ok (g.get_string v))
        (cases-IsField interface_str (λ p. p.interface) _ ethernet_cases (ground arith) refl)
        (g.children variant) ethernet_init b h,
    parse-last ethernet_update address_str (λ p. p.address) (λ v. ok (g.get_string v))
        (cases-IsField address_str (λ p. p.address) _ ethernet_cases (ground arith) refl)
        (g.children variant) ethernet_init b h,
    parse-last ethernet_update mtu_str (λ p. p.mtu) (λ v. ok (g.get_uint16 v % 2 ^ 16))
        (cases-IsField mtu_str (λ p. p.mtu) _ ethernet_cases (ground arith) refl)
        (g.children variant) ethernet_init b h,
  )

  -- What each field holds: what the last entry under its key decodes to, or its initial value.
  abbrev pub ProviderReads : V → Provider → Type 0
  ProviderReads variant b =
      FieldReads host_str (λ v. ok (g.get_string v)) variant provider_init.host b.host
      × FieldReads domain_str (λ v. ok (g.get_string v)) variant provider_init.domain b.domain
      × FieldReads name_str (λ v. ok (g.get_string v)) variant provider_init.name b.name
      × FieldReads type_str (λ v. ok (g.get_string v)) variant provider_init.type b.type

  pub provider_parse-ProviderReads :
      (variant : V) (b : Provider) → provider_parse variant ≡ ok b → ProviderReads variant b
  unfolding provider_parse provider_update
  provider_parse-ProviderReads variant b h = (
    parse-last provider_update host_str (λ p. p.host) (λ v. ok (g.get_string v))
        (cases-IsField host_str (λ p. p.host) _ provider_cases (ground arith) refl)
        (g.children variant) provider_init b h,
    parse-last provider_update domain_str (λ p. p.domain) (λ v. ok (g.get_string v))
        (cases-IsField domain_str (λ p. p.domain) _ provider_cases (ground arith) refl)
        (g.children variant) provider_init b h,
    parse-last provider_update name_str (λ p. p.name) (λ v. ok (g.get_string v))
        (cases-IsField name_str (λ p. p.name) _ provider_cases (ground arith) refl)
        (g.children variant) provider_init b h,
    parse-last provider_update type_str (λ p. p.type) (λ v. ok (g.get_string v))
        (cases-IsField type_str (λ p. p.type) _ provider_cases (ground arith) refl)
        (g.children variant) provider_init b h,
  )

  -- What each field holds: what the last entry under its key decodes to, or its initial value.
  abbrev pub ProxyReads : V → Proxy → Type 0
  ProxyReads variant b =
      FieldReads method_str (λ v. from_string proxy_method_map (g.get_string v)) variant
        proxy_init.method b.method
      × FieldReads url_str (λ v. ok (g.get_string v)) variant proxy_init.url b.url
      × FieldReads servers_str (λ v. ok (as_to_vector v)) variant proxy_init.servers b.servers
      × FieldReads excludes_str (λ v. ok (as_to_vector v)) variant proxy_init.excludes b.excludes

  pub proxy_parse-ProxyReads :
      (variant : V) (b : Proxy) → proxy_parse variant ≡ ok b → ProxyReads variant b
  unfolding proxy_parse proxy_update
  proxy_parse-ProxyReads variant b h = (
    parse-last proxy_update method_str (λ p. p.method)
        (λ v. from_string proxy_method_map (g.get_string v))
        (cases-IsField method_str (λ p. p.method) _ proxy_cases (ground arith) refl)
        (g.children variant) proxy_init b h,
    parse-last proxy_update url_str (λ p. p.url) (λ v. ok (g.get_string v))
        (cases-IsField url_str (λ p. p.url) _ proxy_cases (ground arith) refl) (g.children variant)
        proxy_init b h,
    parse-last proxy_update servers_str (λ p. p.servers) (λ v. ok (as_to_vector v))
        (cases-IsField servers_str (λ p. p.servers) _ proxy_cases (ground arith) refl)
        (g.children variant) proxy_init b h,
    parse-last proxy_update excludes_str (λ p. p.excludes) (λ v. ok (as_to_vector v))
        (cases-IsField excludes_str (λ p. p.excludes) _ proxy_cases (ground arith) refl)
        (g.children variant) proxy_init b h,
  )
