-- ===== src/Service/BlocksReading.antt =====
-- The five dictionaries inside a service, read from variants (src/dbus/gconnman_service.cpp).
use libcppconnman.Prelude.{◌≡◌, ok}
use libcppconnman.GVariant.{GVariant}
use libcppconnman.Service.Blocks.{
  Ipv4, Ipv6, Ethernet, Provider, Proxy, ipv4_parse, ipv6_parse, ethernet_parse, provider_parse,
  proxy_parse,
}
use libcppconnman.Service.BlockReading.{
  Ipv4Reads, Ipv6Reads, EthernetReads, ProviderReads, ProxyReads, ipv4_parse-Ipv4Reads,
  ipv6_parse-Ipv6Reads, ethernet_parse-EthernetReads, provider_parse-ProviderReads,
  proxy_parse-ProxyReads,
}

module _ {V : Type 0} ⦃g : GVariant V⦄ where
  -- IPv4, IPv6, Ethernet, Provider and Proxy, each made from a variant without an exception: every field
  -- holds what the last entry under its key decodes to, and its initial value where no entry has the
  -- key.
  pub blocks_parse-Reads :
      (v4 v6 ve vh vp : V) (ipv4 : Ipv4) (ipv6 : Ipv6) (ethernet : Ethernet) (provider : Provider)
      (proxy : Proxy)
      → ipv4_parse v4 ≡ ok ipv4
      → ipv6_parse v6 ≡ ok ipv6
      → ethernet_parse ve ≡ ok ethernet
      → provider_parse vh ≡ ok provider
      → proxy_parse vp ≡ ok proxy
      → Ipv4Reads v4 ipv4
        × Ipv6Reads v6 ipv6
        × EthernetReads ve ethernet
        × ProviderReads vh provider
        × ProxyReads vp proxy
  blocks_parse-Reads v4 v6 ve vh vp ipv4 ipv6 ethernet provider proxy h4 h6 he hh hp = (
    ipv4_parse-Ipv4Reads v4 ipv4 h4,
    ipv6_parse-Ipv6Reads v6 ipv6 h6,
    ethernet_parse-EthernetReads ve ethernet he,
    provider_parse-ProviderReads vh provider hh,
    proxy_parse-ProxyReads vp proxy hp,
  )
