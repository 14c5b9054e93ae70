-- ===== src/Signatures/Services.antt =====
-- Which getter reads which property of a service: ServProperties::update of
-- src/dbus/gconnman_service.cpp, against the types that connman's service-api gives.
use libcppconnman.Prelude.{
  ℕ, ◌≡◌, ◌⊎◌, inl, inr, subst, refl, ap, ap₂, String, Result, ok, none, some, List, [], ◌∷◌, All,
  map_ok, if◌then◌else◌, ◌==◌,
}
use libcppconnman.GVariant.{GVariant}
use libcppconnman.GVariant.Vectors.{as_to_vector, as_to_enum_vector}
use libcppconnman.Service.Enums.{security_map}
use libcppconnman.Service.Blocks.{
  ipv4_parse, ipv6_parse, ethernet_parse, provider_parse, proxy_parse,
}
use libcppconnman.Service.Props.{ServProperties, serv_cases, serv_update, unless_empty}
use libcppconnman.Signatures.{look_up}
use libcppconnman.Signatures.Getters.{
  Agree, Aligned, ◌also◌, no_branch, cases-eq, Typed, typed_at, string_at, boolean_at, byte_at,
  strings_at, as_to_enum_vector-eq, Entry,
}
use libcppconnman.Signatures.Blocks.{
  ipv4_types, ipv6_types, ethernet_types, provider_types, proxy_types, ipv4_parse-eq, ipv6_parse-eq,
  ethernet_parse-eq, provider_parse-eq, proxy_parse-eq,
}

abbrev pub service_types : List (String × String)
service_types =
    ("State", "s")
    ∷ ("Error", "s")
    ∷ ("Name", "s")
    ∷ ("Type", "s")
    ∷ ("Security", "as")
    ∷ ("Strength", "y")
    ∷ ("Favorite", "b")
    ∷ ("Immutable", "b")
    ∷ ("AutoConnect", "b")
    ∷ ("Roaming", "b")
    ∷ ("Nameservers", "as")
    ∷ ("Nameservers.Configuration", "as")
    ∷ ("Timeservers", "as")
    ∷ ("Timeservers.Configuration", "as")
    ∷ ("Domains", "as")
    ∷ ("Domains.Configuration", "as")
    ∷ ("mDNS", "b")
    ∷ ("IPv4", "a{sv}")
    ∷ ("IPv6", "a{sv}")
    ∷ ("Ethernet", "a{sv}")
    ∷ ("Provider", "a{sv}")
    ∷ ("Proxy", "a{sv}")
    ∷ []

-- The members of the dictionaries that are values.
abbrev pub block_types : List (String × List (String × String))
block_types =
    ("IPv4", ipv4_types)
    ∷ ("IPv6", ipv6_types)
    ∷ ("Ethernet", ethernet_types)
    ∷ ("Provider", provider_types)
    ∷ ("Proxy", proxy_types)
    ∷ []

-- A value that has the type of its key, and, where that is a dictionary, entries of the right types.
abbrev pub ServiceTyped : {V : Type 0} → GVariant V → (V → String → Type 0) → String → V → Type 0
ServiceTyped g HasType key v =
    Typed HasType service_types key v
    × ((look_up key block_types ≡ none)
        ⊎ ((types : List (String × String)) × (look_up key block_types ≡ some types)
            × All (Entry g HasType (Typed HasType types)) (g.children v)))

module _ {V : Type 0} {HasType : V → String → Type 0} {g h : GVariant V}
    (agree : Agree HasType g h) where
  entries_at :
      (types : List (String × String)) (key : String) (v : V)
      → look_up key block_types ≡ some types
      → ServiceTyped g HasType key v
      → All (Entry g HasType (Typed HasType types)) (g.children v)
  entries_at types key v e (t, inl n) = cc
  entries_at types key v e (t, inr (types', e', a)) =
      subst (λ ts. All (Entry g HasType (Typed HasType ts)) (g.children v)) (cc) a

  unless_empty-eq :
      {A : Type 0} {n n' : ℕ} {r r' : Result A}
      → n ≡ n'
      → r ≡ r'
      → (if n == 0 then ok none else map_ok (λ a. some a) r)
        ≡ (if n' == 0 then ok none else map_ok (λ a. some a) r')
  unless_empty-eq e k = ap₂ (λ n r. if n == 0 then ok none else map_ok (λ a. some a) r) e k

  -- A list of texts that is left out when it is empty.
  list_at :
      (key : String) (v : V)
      → look_up key service_types ≡ some "as"
      → ServiceTyped g HasType key v
      → unless_empty ⦃g = g⦄ (λ w. ok (as_to_vector ⦃g = g⦄ w)) v
        ≡ unless_empty ⦃g = h⦄ (λ w. ok (as_to_vector ⦃g = h⦄ w)) v
  list_at key v e (r, b) =
      unless_empty-eq (agree.count_strings v (typed_at HasType service_types key "as" v e r))
        (ap (λ xs. ok xs) (strings_at agree service_types key v e r))

  -- A dictionary that is left out when it is empty.
  block_at :
      {A : Type 0} (read read' : V → Result A) (types : List (String × String)) (key : String)
      (v : V)
      → (All (Entry g HasType (Typed HasType types)) (g.children v)
          → g.children v ≡ h.children v
          → read v ≡ read' v)
      → look_up key service_types ≡ some "a{sv}"
      → look_up key block_types ≡ some types
      → ServiceTyped g HasType key v
      → unless_empty ⦃g = g⦄ read v ≡ unless_empty ⦃g = h⦄ read' v
  block_at read read' types key v same e e' (r, b) =
      let dict = typed_at HasType service_types key "a{sv}" v e r in
      unless_empty-eq (agree.count_entries v dict)
        (same (entries_at types key v e' (r, b)) (agree.entries v dict))

  security_at :
      (v : V)
      → ServiceTyped g HasType "Security" v
      → unless_empty ⦃g = g⦄ (as_to_enum_vector ⦃g = g⦄ security_map) v
        ≡ unless_empty ⦃g = h⦄ (as_to_enum_vector ⦃g = h⦄ security_map) v
  security_at v (r, b) =
      let texts = typed_at HasType service_types "Security" "as" v refl r in
      unless_empty-eq (agree.count_strings v texts)
        (as_to_enum_vector-eq agree security_map v texts)

  serv_cases-Aligned : Aligned (ServiceTyped g HasType) (serv_cases ⦃g = g⦄) (serv_cases ⦃g = h⦄)
  serv_cases-Aligned =
      let string = string_at agree service_types in
      let boolean = boolean_at agree service_types in
      (λ v p r. cc (string "Name" v refl r.0))
      also (λ v p r. cc (string "Type" v refl r.0))
      also (λ v p r. cc (string "State" v refl r.0))
      also (λ v p r. cc (string "Error" v refl r.0))
      also (λ v p r. cc (boolean "Favorite" v refl r.0))
      also (λ v p r. cc (boolean "Immutable" v refl r.0))
      also (λ v p r. cc (boolean "AutoConnect" v refl r.0))
      also (λ v p r. cc (boolean "mDNS" v refl r.0))
      also (λ v p r. cc (byte_at agree service_types "Strength" v refl r.0))
      also (λ v p r. cc (
          block_at (ipv4_parse ⦃g = g⦄) (ipv4_parse ⦃g = h⦄) ipv4_types "IPv4" v
            (ipv4_parse-eq agree v) refl refl r))
      also (λ v p r. cc (
          block_at (ipv6_parse ⦃g = g⦄) (ipv6_parse ⦃g = h⦄) ipv6_types "IPv6" v
            (ipv6_parse-eq agree v) refl refl r))
      also (λ v p r. cc (
          block_at (ethernet_parse ⦃g = g⦄) (ethernet_parse ⦃g = h⦄) ethernet_types "Ethernet" v
            (ethernet_parse-eq agree v) refl refl r))
      also (λ v p r. cc (
          block_at (provider_parse ⦃g = g⦄) (provider_parse ⦃g = h⦄) provider_types "Provider" v
            (provider_parse-eq agree v) refl refl r))
      also (λ v p r. cc (
          block_at (proxy_parse ⦃g = g⦄) (proxy_parse ⦃g = h⦄) proxy_types "Proxy" v
            (proxy_parse-eq agree v) refl refl r))
      also (λ v p r. cc (security_at v r))
      also (λ v p r. cc (list_at "Nameservers" v refl r))
      also (λ v p r. cc (list_at "Nameservers.Configuration" v refl r))
      also (λ v p r. cc (list_at "Domains" v refl r))
      also (λ v p r. cc (list_at "Timeservers" v refl r))
      also no_branch

  pub serv_update-eq :
      (key : String) (v : V) (p : ServProperties)
      → ServiceTyped g HasType key v
      → serv_update ⦃g = g⦄ key v p ≡ serv_update ⦃g = h⦄ key v p
  unfolding serv_update
  serv_update-eq = cases-eq serv_cases-Aligned
