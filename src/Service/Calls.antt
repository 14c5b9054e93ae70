-- ===== src/Service/Calls.antt =====
-- The requests of Service (src/dbus/gconnman_service.cpp), and what connman's answer makes of them.
use libcppconnman.Prelude.{
  ℕ, String, ◌≡◌, Option, none, some, List, [], ◌∷◌, ok, arith, Bool, map, map_ok, ap,
}
use libcppconnman.GVariant.{GVariant, GVariantLaws}
use libcppconnman.GVariant.Vectors.{as_to_vector, vector_to_as, as_to_vector-vector_to_as}
use libcppconnman.Names.{
  connect_str, disconnect_str, remove_str, autoconnect_str, nameservers_configuration_str,
}
use libcppconnman.Proxy.{System}
use libcppconnman.Proxy.Requests.{
  MethodCall, call_method, set_property, request, echo, update_property-set_property,
}
use libcppconnman.Service.Props.{ServProperties, serv_update, unless_empty}

module _ {V : Type 0} ⦃g : GVariant V⦄ where
  unfoldable pub connect : Option ℕ → System ServProperties → System ServProperties × MethodCall V
  unfolding request call_method
  connect = request (call_method connect_str none)

  unfoldable pub disconnect :
      Option ℕ → System ServProperties → System ServProperties × MethodCall V
  unfolding request call_method
  disconnect = request (call_method disconnect_str none)

  unfoldable pub remove : Option ℕ → System ServProperties → System ServProperties × MethodCall V
  unfolding request call_method
  remove = request (call_method remove_str none)

  unfoldable pub set_autoconnect :
      Bool → Option ℕ → System ServProperties → System ServProperties × MethodCall V
  unfolding request set_property
  set_autoconnect autoconnect = request (set_property autoconnect_str (g.new_boolean autoconnect))

  unfoldable pub set_name_servers :
      List String → Option ℕ → System ServProperties → System ServProperties × MethodCall V
  unfolding request set_property vector_to_as
  set_name_servers name_servers =
      request (set_property nameservers_configuration_str (vector_to_as name_servers))

-- An empty list is no list.
abbrev pub non_empty : List String → Option (List String)
non_empty [] = none
non_empty (x ∷ xs) = some (x ∷ xs)

-- A list that is packed is read as itself, or as none if it is empty.
read_packed :
    {V : Type 0} ⦃g : GVariant V⦄
    → GVariantLaws g
    → (servers : List String)
    → unless_empty (λ (v : V). ok (as_to_vector v)) (vector_to_as servers) ≡ ok (non_empty servers)
unfolding vector_to_as
read_packed ⦃g⦄ laws [] = rw (laws.n_children-build "as" [])
read_packed ⦃g⦄ laws (x ∷ xs) =
    let items = map (λ s. g.new_string s) (x ∷ xs) in
    rw (laws.n_children-build "as" items)
      (rw (as_to_vector-vector_to_as laws (x ∷ xs)) (ground arith))

module _ {V : Type 0} ⦃g : GVariant V⦄ (laws : GVariantLaws g) (callback : Option ℕ)
    (s : System ServProperties) (p : ServProperties) where
  -- When connman reports a change with the parameters that a request sent, exactly the property that
  -- was set has the value that it was set to: automatic connection, and the configured name servers,
  -- of which an empty list is reported as none.
  pub serv_roundtrip :
      (b : Bool) (servers : List String)
      → (echo serv_update (set_autoconnect {V = V} b callback s).1 p
          ≡ ok (record p { autoconnect = b }))
        × (echo serv_update (set_name_servers {V = V} servers callback s).1 p
            ≡ ok (record p { name_servers_conf = non_empty servers }))
  unfolding set_autoconnect set_name_servers serv_update
  serv_roundtrip b servers = (
    rw (update_property-set_property laws)
        (ground (arith, laws.get_boolean-new_true, laws.get_boolean-new_false)),
    rw (update_property-set_property laws) (ap (map_ok _) (read_packed laws servers)),
  )
