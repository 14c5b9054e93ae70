-- ===== src/Manager/Calls.antt =====
-- The requests of Manager (src/dbus/gconnman_manager.cpp), and what connman's answer makes of them.
use libcppconnman.Prelude.{ℕ, String, ◌≡◌, Option, none, some, [], ◌∷◌, ok, arith, Bool}
use libcppconnman.GVariant.{GVariant, GVariantLaws}
use libcppconnman.Names.{
  offlinemode_str, registeragent_str, unregisteragent_str, gettechnologies_str, getservices_str,
}
use libcppconnman.Proxy.{System}
use libcppconnman.Proxy.Requests.{
  MethodCall, call_method, set_property, request, echo, update_property-set_property,
}
use libcppconnman.Manager.Props.{ManaProperties, mana_update}

module _ {V : Type 0} ⦃g : GVariant V⦄ where
  unfoldable pub set_offline_mode :
      Bool → Option ℕ → System ManaProperties → System ManaProperties × MethodCall V
  unfolding request set_property
  set_offline_mode offline_mode =
      request (set_property offlinemode_str (g.new_boolean offline_mode))

  unfoldable pub register_agent :
      String → Option ℕ → System ManaProperties → System ManaProperties × MethodCall V
  unfolding request call_method
  register_agent object_path =
      request
        (call_method registeragent_str (some (g.new_tuple (g.new_object_path object_path ∷ []))))

  unfoldable pub unregister_agent :
      String → Option ℕ → System ManaProperties → System ManaProperties × MethodCall V
  unfolding request call_method
  unregister_agent object_path =
      request
        (call_method unregisteragent_str (some (g.new_tuple (g.new_object_path object_path ∷ []))))

module _ {V : Type 0} ⦃g : GVariant V⦄ where
  -- The two calls that the constructor makes; their replies go to get_proxies_cb and not through the
  -- table of callbacks.
  unfoldable pub get_technologies : MethodCall V
  unfolding call_method
  get_technologies = call_method gettechnologies_str none

  unfoldable pub get_services : MethodCall V
  unfolding call_method
  get_services = call_method getservices_str none

module _ {V : Type 0} ⦃g : GVariant V⦄ (laws : GVariantLaws g) (callback : Option ℕ)
    (s : System ManaProperties) (p : ManaProperties) where
  -- When connman reports a change with the parameters that a request for the offline mode sent,
  -- exactly the offline mode has the value that it was set to.
  pub mana_roundtrip :
      (b : Bool)
      → echo mana_update (set_offline_mode {V = V} b callback s).1 p
        ≡ ok (record p { offline_mode = b })
  unfolding set_offline_mode mana_update
  mana_roundtrip b =
      rw (update_property-set_property laws)
        (ground (arith, laws.get_boolean-new_true, laws.get_boolean-new_false))
