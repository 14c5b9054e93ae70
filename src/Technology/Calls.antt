-- ===== src/Technology/Calls.antt =====
-- The requests of Technology (src/dbus/gconnman_technology.cpp), and what connman's answer makes of
-- them.
use libcppconnman.Prelude.{ℕ, String, ◌≡◌, Option, none, ok, arith, Bool}
use libcppconnman.GVariant.{GVariant, GVariantLaws, ℤ}
use libcppconnman.Names.{
  powered_str, tethering_str, tetheringidentifier_str, tetheringpassphrase_str, tetheringfreq_str,
  scan_str,
}
use libcppconnman.Proxy.{System}
use libcppconnman.Proxy.Requests.{
  MethodCall, call_method, set_property, request, echo, update_property-set_property,
}
use libcppconnman.Technology.Props.{TechProperties, tech_update}

module _ {V : Type 0} ⦃g : GVariant V⦄ where
  unfoldable pub set_powered :
      Bool → Option ℕ → System TechProperties → System TechProperties × MethodCall V
  unfolding request set_property
  set_powered powered = request (set_property powered_str (g.new_boolean powered))

  unfoldable pub set_tethering :
      Bool → Option ℕ → System TechProperties → System TechProperties × MethodCall V
  unfolding request set_property
  set_tethering tethering = request (set_property tethering_str (g.new_boolean tethering))

  unfoldable pub set_tethering_identifier :
      String → Option ℕ → System TechProperties → System TechProperties × MethodCall V
  unfolding request set_property
  set_tethering_identifier identifier =
      request (set_property tetheringidentifier_str (g.new_string identifier))

  unfoldable pub set_tethering_passphrase :
      String → Option ℕ → System TechProperties → System TechProperties × MethodCall V
  unfolding request set_property
  set_tethering_passphrase passphrase =
      request (set_property tetheringpassphrase_str (g.new_string passphrase))

  unfoldable pub set_tethering_freq :
      ℤ → Option ℕ → System TechProperties → System TechProperties × MethodCall V
  unfolding request set_property
  set_tethering_freq frequency = request (set_property tetheringfreq_str (g.new_int32 frequency))

  unfoldable pub scan : Option ℕ → System TechProperties → System TechProperties × MethodCall V
  unfolding request call_method
  scan = request (call_method scan_str none)

module _ {V : Type 0} ⦃g : GVariant V⦄ (laws : GVariantLaws g) (callback : Option ℕ)
    (s : System TechProperties) (p : TechProperties) where
  -- When connman reports a change with the parameters that a request sent, exactly the property that
  -- was set has the value that it was set to: powered, tethering, and the identifier, the passphrase
  -- and the frequency of the tethering.
  pub tech_roundtrip :
      (b : Bool) (t : String) (n : ℤ)
      → (echo tech_update (set_powered {V = V} b callback s).1 p ≡ ok (record p { powered = b }))
        × (echo tech_update (set_tethering {V = V} b callback s).1 p
            ≡ ok (record p { tethering = b }))
        × (echo tech_update (set_tethering_identifier {V = V} t callback s).1 p
            ≡ ok (record p { tethering_identifier = t }))
        × (echo tech_update (set_tethering_passphrase {V = V} t callback s).1 p
            ≡ ok (record p { tethering_passphrase = t }))
        × (echo tech_update (set_tethering_freq {V = V} n callback s).1 p
            ≡ ok (record p { tethering_freq = n }))
  unfolding set_powered set_tethering set_tethering_identifier set_tethering_passphrase
      set_tethering_freq tech_update
  tech_roundtrip b t n = (
    rw (update_property-set_property laws)
        (ground (arith, laws.get_boolean-new_true, laws.get_boolean-new_false)),
    rw (update_property-set_property laws)
        (ground (arith, laws.get_boolean-new_true, laws.get_boolean-new_false)),
    rw (update_property-set_property laws) (rw (laws.get_string-new_string t)),
    rw (update_property-set_property laws) (rw (laws.get_string-new_string t)),
    rw (update_property-set_property laws) (rw (laws.get_int32-new_int32 n)),
  )
