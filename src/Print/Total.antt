-- ===== src/Print/Total.antt =====
-- Printing never throws, whatever the properties.
use libcppconnman.Prelude.{
  ◌≡◌, refl, String, ℕ, Option, none, some, List, [], ◌∷◌, ◌++◌, Result, ok, map_ok, >>=-eq-ok,
  Bool-cases, inl, inr, if◌then◌else◌, ◌==◌,
}
use libcppconnman.GVariant.{ℤ}
use libcppconnman.EnumMap.{Enum, EnumStringMap, to_string, from_string}
use libcppconnman.EnumMap.Tables.{
  reread, type_map-reread, state_map-reread, security_map-reread, error_map-reread,
  ipv4_method_map-reread, ipv6_method_map-reread, ethernet_method_map-reread,
  proxy_method_map-reread, tech_type_map-reread, time_update_map-reread,
  time_zone_update_map-reread,
}
use libcppconnman.Print.{Output, line, if_set, both, line_ok}
use libcppconnman.Service.Enums.{
  Security, ServError, type_map, state_map, error_map, security_map, serv_error_to_int,
  serv_type_enum, serv_state_enum, security_enum, serv_error_enum,
}
use libcppconnman.Service.Methods.{
  ipv4_method_map, ipv6_method_map, ethernet_method_map, proxy_method_map, ipv4_method_enum,
  ipv6_method_enum, ethernet_method_enum, proxy_method_enum,
}
use libcppconnman.Technology.Enums.{tech_type_map, tech_type_enum}
use libcppconnman.Clock.Enums.{time_update_map, time_zone_update_map, time_update_enum}
use libcppconnman.Service.Blocks.{Ipv4, Ipv6, Ethernet, Proxy}
use libcppconnman.Service.Props.{ServProperties}
use libcppconnman.Service.Print.{
  print_ipv4, print_ipv6, print_ethernet, print_provider, print_proxy, print_security, print_serv,
}
use libcppconnman.Technology.Props.{TechProperties}
use libcppconnman.Technology.Print.{print_tech}
use libcppconnman.Clock.Props.{ClockProperties}
use libcppconnman.Clock.Print.{print_clock}

abbrev pub Returns : {A : Type 0} → Result A → Type 0
Returns {A} r = (a : A) × (r ≡ ok a)

both-Returns : {r s : Result Output} → Returns r → Returns s → Returns (both r s)
unfolding both
both-Returns {r} {s} (a, p) (b, q) = (a ++ b, rw (p, q) refl)

map_ok-Returns : {A : Type 0} (f : A → Output) {r : Result A} → Returns r → Returns (map_ok f r)
map_ok-Returns f (a, p) = (f a, rw p refl)

if_set-Returns :
    {A : Type 0} (print : A → Result Output) (o : Option A)
    → ((a : A) → Returns (print a))
    → Returns (if_set print o)
if_set-Returns print none h = ([], refl)
if_set-Returns print (some a) h = h a

returns : (out : Output) → Returns (ok out)
returns out = (out, refl)

-- An enumerator whose text can be read again has a text.
text-Returns :
    {E : Type 0} ⦃e : Enum E⦄ (m : EnumStringMap E) (x : E)
    → reread m x ≡ ok x
    → Returns (to_string m x)
text-Returns m x h = let (s, p, q) = >>=-eq-ok (to_string m x) (λ s. from_string m s) h in (s, p)

line_ok-Returns :
    {E : Type 0} ⦃e : Enum E⦄ (key : String) (m : EnumStringMap E) (x : E)
    → reread m x ≡ ok x
    → Returns (line_ok key (to_string m x))
unfolding line_ok
line_ok-Returns key m x h = map_ok-Returns (line key) (text-Returns m x h)

error_line-Returns :
    (error : ServError)
    → Returns (
        if serv_error_to_int error == serv_error_to_int ServError.none
        then ok []
        else line_ok "Error" (to_string error_map error))
unfolding serv_error_to_int
error_line-Returns error = elim (Bool-cases (serv_error_to_int error == 0)) [
  | inl e ↦ rw e (returns [])
  | inr e ↦ rw e (line_ok-Returns "Error" error_map error (error_map-reread error))
]

print_ipv4-Returns : (obj : Ipv4) → Returns (print_ipv4 obj)
unfolding print_ipv4
print_ipv4-Returns obj = both-Returns (returns _) (
    both-Returns (line_ok-Returns _ ipv4_method_map obj.method (ipv4_method_map-reread obj.method))
      (returns _))

print_proxy-Returns : (obj : Proxy) → Returns (print_proxy obj)
unfolding print_proxy
print_proxy-Returns obj = both-Returns (returns _) (
    both-Returns
      (line_ok-Returns _ proxy_method_map obj.method (proxy_method_map-reread obj.method))
      (returns _))

print_security-Returns : (security : List Security) → Returns (print_security security)
unfolding print_security
print_security-Returns [] = returns _
print_security-Returns (sec ∷ security) =
    both-Returns (map_ok-Returns _ (text-Returns security_map sec (security_map-reread sec)))
      (print_security-Returns security)

module _ (number : ℤ → String) where
  print_ethernet-Returns : (obj : Ethernet) → Returns (print_ethernet number obj)
  unfolding print_ethernet
  print_ethernet-Returns obj = both-Returns (returns _) (
      both-Returns
        (line_ok-Returns _ ethernet_method_map obj.method (ethernet_method_map-reread obj.method))
        (returns _))

  print_ipv6-Returns : (obj : Ipv6) → Returns (print_ipv6 number obj)
  unfolding print_ipv6
  print_ipv6-Returns obj = both-Returns (returns _) (
      both-Returns
        (line_ok-Returns _ ipv6_method_map obj.method (ipv6_method_map-reread obj.method))
        (returns _))

  print_tech-Returns : (obj : TechProperties) → Returns (print_tech number obj)
  unfolding print_tech
  print_tech-Returns obj = both-Returns (returns _) (
      both-Returns (line_ok-Returns _ tech_type_map obj.type (tech_type_map-reread obj.type))
        (returns _))

  print_serv-Returns : (obj : ServProperties) → Returns (print_serv number obj)
  unfolding print_serv print_provider
  print_serv-Returns obj =
      both-Returns (line_ok-Returns _ state_map obj.state (state_map-reread obj.state)) (
        both-Returns (error_line-Returns obj.error) (
          both-Returns (returns _) (
            both-Returns (line_ok-Returns _ type_map obj.type (type_map-reread obj.type)) (
              both-Returns (returns _) (
                both-Returns
                  (if_set-Returns _ obj.security (λ security.
                    both-Returns (returns _)
                      (both-Returns (print_security-Returns security) (returns _))))
                  (both-Returns (returns _) (
                    both-Returns (if_set-Returns _ obj.ipv4 print_ipv4-Returns) (
                      both-Returns (if_set-Returns _ obj.ipv6 print_ipv6-Returns) (
                        both-Returns (if_set-Returns _ obj.ethernet print_ethernet-Returns) (
                          both-Returns (if_set-Returns _ obj.provider (λ provider. returns _))
                            (if_set-Returns _ obj.proxy print_proxy-Returns)))))))))))

  print_clock-Returns :
      (local_time : ℕ → Option String) (obj : ClockProperties)
      → Returns (print_clock number local_time obj)
  unfolding print_clock
  print_clock-Returns local_time obj = both-Returns (returns _) (
      both-Returns
        (line_ok-Returns _ time_update_map obj.time_updates
          (time_update_map-reread obj.time_updates))
        (both-Returns (returns _) (
          both-Returns
            (line_ok-Returns _ time_zone_update_map obj.timezone_updates
              (time_zone_update_map-reread obj.timezone_updates))
            (returns _))))

  -- Printing the properties of a technology, of a service or of the clock never throws, whatever they
  -- are, while each enumeration holds one of its enumerators: every one that is printed has a text.
  pub prints-Returns :
      (local_time : ℕ → Option String) (tech : TechProperties) (serv : ServProperties)
      (clock : ClockProperties)
      → Returns (print_tech number tech)
        × Returns (print_serv number serv)
        × Returns (print_clock number local_time clock)
  prints-Returns local_time tech serv clock =
      (print_tech-Returns tech, print_serv-Returns serv, print_clock-Returns local_time clock)
