-- ===== src/Signatures/Blocks.antt =====
-- Which getter reads which member of a service's dictionaries: the classes IPv4, IPv6, Ethernet, Provider
-- and Proxy of src/dbus/gconnman_service.cpp, against the types that connman's service-api gives.
use libcppconnman.Prelude.{◌≡◌, refl, String, List, [], ◌∷◌, All, ap, ◌∙◌}
use libcppconnman.Props.{parse}
use libcppconnman.GVariant.{GVariant}
use libcppconnman.Service.Blocks.{
  ipv4_cases, ipv4_update, ipv4_parse, ipv4_init, ipv6_cases, ipv6_update, ipv6_parse, ipv6_init,
  ethernet_cases, ethernet_update, ethernet_parse, ethernet_init, provider_cases, provider_update,
  provider_parse, provider_init, proxy_cases, proxy_update, proxy_parse, proxy_init,
}
use libcppconnman.Signatures.Getters.{
  Agree, Aligned, ◌also◌, no_branch, cases-eq, Typed, string_at, byte_at, uint16_at, strings_at,
  Entry, parse-eq,
}

abbrev pub ipv4_types : List (String × String)
ipv4_types = ("Method", "s") ∷ ("Address", "s") ∷ ("Netmask", "s") ∷ ("Gateway", "s") ∷ []

abbrev pub ipv6_types : List (String × String)
ipv6_types =
    ("Method", "s")
    ∷ ("Address", "s")
    ∷ ("PrefixLength", "y")
    ∷ ("Gateway", "s")
    ∷ ("Privacy", "s")
    ∷ []

abbrev pub ethernet_types : List (String × String)
ethernet_types = ("Method", "s") ∷ ("Interface", "s") ∷ ("Address", "s") ∷ ("MTU", "q") ∷ []

abbrev pub provider_types : List (String × String)
provider_types = ("Host", "s") ∷ ("Domain", "s") ∷ ("Name", "s") ∷ ("Type", "s") ∷ []

-- connman names the second one "URL"; the code looks for "Url", which is taken to be a text as well.
abbrev pub proxy_types : List (String × String)
proxy_types =
    ("Method", "s") ∷ ("URL", "s") ∷ ("Url", "s") ∷ ("Servers", "as") ∷ ("Excludes", "as") ∷ []

module _ {V : Type 0} {HasType : V → String → Type 0} {g h : GVariant V}
    (agree : Agree HasType g h) where
  ipv4_cases-Aligned : Aligned (Typed HasType ipv4_types) (ipv4_cases ⦃g = g⦄) (ipv4_cases ⦃g = h⦄)
  ipv4_cases-Aligned =
      let string = string_at agree ipv4_types in
      (λ v p r. cc (string "Method" v refl r))
      also (λ v p r. cc (string "Address" v refl r))
      also (λ v p r. cc (string "Netmask" v refl r))
      also (λ v p r. cc (string "Gateway" v refl r))
      also no_branch

  pub ipv4_parse-eq :
      (v : V)
      → All (Entry g HasType (Typed HasType ipv4_types)) (g.children v)
      → g.children v ≡ h.children v
      → ipv4_parse ⦃g = g⦄ v ≡ ipv4_parse ⦃g = h⦄ v
  unfolding ipv4_parse ipv4_update
  ipv4_parse-eq v a same =
      parse-eq agree (Typed HasType ipv4_types) (ipv4_update ⦃g = g⦄) (ipv4_update ⦃g = h⦄)
        (cases-eq ipv4_cases-Aligned) _ ipv4_init a
      ∙ ap (λ d. parse ⦃g = h⦄ (ipv4_update ⦃g = h⦄) d ipv4_init) same

  ipv6_cases-Aligned : Aligned (Typed HasType ipv6_types) (ipv6_cases ⦃g = g⦄) (ipv6_cases ⦃g = h⦄)
  ipv6_cases-Aligned =
      let string = string_at agree ipv6_types in
      (λ v p r. cc (string "Method" v refl r))
      also (λ v p r. cc (string "Address" v refl r))
      also (λ v p r. cc (string "Gateway" v refl r))
      also (λ v p r. cc (string "Privacy" v refl r))
      also (λ v p r. cc (byte_at agree ipv6_types "PrefixLength" v refl r))
      also no_branch

  pub ipv6_parse-eq :
      (v : V)
      → All (Entry g HasType (Typed HasType ipv6_types)) (g.children v)
      → g.children v ≡ h.children v
      → ipv6_parse ⦃g = g⦄ v ≡ ipv6_parse ⦃g = h⦄ v
  unfolding ipv6_parse ipv6_update
  ipv6_parse-eq v a same =
      parse-eq agree (Typed HasType ipv6_types) (ipv6_update ⦃g = g⦄) (ipv6_update ⦃g = h⦄)
        (cases-eq ipv6_cases-Aligned) _ ipv6_init a
      ∙ ap (λ d. parse ⦃g = h⦄ (ipv6_update ⦃g = h⦄) d ipv6_init) same

  ethernet_cases-Aligned :
      Aligned (Typed HasType ethernet_types) (ethernet_cases ⦃g = g⦄) (ethernet_cases ⦃g = h⦄)
  ethernet_cases-Aligned =
      let string = string_at agree ethernet_types in
      (λ v p r. cc (string "Method" v refl r))
      also (λ v p r. cc (string "Interface" v refl r))
      also (λ v p r. cc (string "Address" v refl r))
      also (λ v p r. cc (uint16_at agree ethernet_types "MTU" v refl r))
      also no_branch

  pub ethernet_parse-eq :
      (v : V)
      → All (Entry g HasType (Typed HasType ethernet_types)) (g.children v)
      → g.children v ≡ h.children v
      → ethernet_parse ⦃g = g⦄ v ≡ ethernet_parse ⦃g = h⦄ v
  unfolding ethernet_parse ethernet_update
  ethernet_parse-eq v a same =
      parse-eq agree (Typed HasType ethernet_types) (ethernet_update ⦃g = g⦄)
        (ethernet_update ⦃g = h⦄) (cases-eq ethernet_cases-Aligned) _ ethernet_init a
      ∙ ap (λ d. parse ⦃g = h⦄ (ethernet_update ⦃g = h⦄) d ethernet_init) same

  provider_cases-Aligned :
      Aligned (Typed HasType provider_types) (provider_cases ⦃g = g⦄) (provider_cases ⦃g = h⦄)
  provider_cases-Aligned =
      let string = string_at agree provider_types in
      (λ v p r. cc (string "Host" v refl r))
      also (λ v p r. cc (string "Domain" v refl r))
      also (λ v p r. cc (string "Name" v refl r))
      also (λ v p r. cc (string "Type" v refl r))
      also no_branch

  pub provider_parse-eq :
      (v : V)
      → All (Entry g HasType (Typed HasType provider_types)) (g.children v)
      → g.children v ≡ h.children v
      → provider_parse ⦃g = g⦄ v ≡ provider_parse ⦃g = h⦄ v
  unfolding provider_parse provider_update
  provider_parse-eq v a same =
      parse-eq agree (Typed HasType provider_types) (provider_update ⦃g = g⦄)
        (provider_update ⦃g = h⦄) (cases-eq provider_cases-Aligned) _ provider_init a
      ∙ ap (λ d. parse ⦃g = h⦄ (provider_update ⦃g = h⦄) d provider_init) same

  proxy_cases-Aligned :
      Aligned (Typed HasType proxy_types) (proxy_cases ⦃g = g⦄) (proxy_cases ⦃g = h⦄)
  proxy_cases-Aligned =
      let string = string_at agree proxy_types in
      (λ v p r. cc (string "Method" v refl r))
      also (λ v p r. cc (string "Url" v refl r))
      also (λ v p r. cc (strings_at agree proxy_types "Servers" v refl r))
      also (λ v p r. cc (strings_at agree proxy_types "Excludes" v refl r))
      also no_branch

  pub proxy_parse-eq :
      (v : V)
      → All (Entry g HasType (Typed HasType proxy_types)) (g.children v)
      → g.children v ≡ h.children v
      → proxy_parse ⦃g = g⦄ v ≡ proxy_parse ⦃g = h⦄ v
  unfolding proxy_parse proxy_update
  proxy_parse-eq v a same =
      parse-eq agree (Typed HasType proxy_types) (proxy_update ⦃g = g⦄) (proxy_update ⦃g = h⦄)
        (cases-eq proxy_cases-Aligned) _ proxy_init a
      ∙ ap (λ d. parse ⦃g = h⦄ (proxy_update ⦃g = h⦄) d proxy_init) same
