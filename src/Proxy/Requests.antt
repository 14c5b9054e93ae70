-- ===== src/Proxy/Requests.antt =====
-- callMethod and setProperty of include/amarula/dbus/gproxy.hpp: what a request sends, beside the
-- callback that it registers.
use libcppconnman.Prelude.{ℕ, String, ◌≡◌, Option, none, some, [], ◌∷◌, ok, throw, Result, arith}
use libcppconnman.GVariant.{GVariant, GVariantLaws}
use libcppconnman.Props.{Update, update_property}
use libcppconnman.Proxy.{Kind, System, issue, prepare_callback}

pub record MethodCall (V : Type 0) : Type 0 where
  pub method : String
  pub parameters : V

module _ {V : Type 0} ⦃g : GVariant V⦄ where
  -- No parameters are sent as the empty tuple.
  unfoldable pub call_method : String → Option V → MethodCall V
  call_method arg_name none = record { method = arg_name; parameters = g.new_tuple [] }
  call_method arg_name (some parameters) = record { method = arg_name; parameters = parameters }

  unfoldable pub set_property : String → V → MethodCall V
  unfolding call_method
  set_property arg_name arg_value =
      call_method "SetProperty"
        (some (g.new_tuple (g.new_string arg_name ∷ g.new_variant arg_value ∷ [])))

  -- `auto data = prepareCallback (callback); setProperty (name, value, …, data.release ());`
  unfoldable pub request :
      {P : Type 0} → MethodCall V → Option ℕ → System P → System P × MethodCall V
  unfolding issue
  request call callback s = (issue s (Kind.properties_set, callback), call)

  unfoldable pub get_properties : {P : Type 0} → Option ℕ → System P → System P × MethodCall V
  unfolding issue call_method
  get_properties callback s =
      (issue s (Kind.properties, callback), call_method "GetProperties" none)

  -- As `request`, where the value is a text that may not be there: the callback is registered before the
  -- exception leaves, and nothing is sent.
  unfoldable pub request_text :
      {P : Type 0} → String → Result String → Option ℕ → System P → System P × Result (MethodCall V)
  unfolding request set_property prepare_callback
  request_text name (ok text) callback s =
      let (s', call) = request (set_property name (g.new_string text)) callback s in (s', ok call)
  request_text name (throw e) callback s =
      ((prepare_callback Kind.properties_set callback s).0, throw e)

  -- A PropertyChanged signal that carries the parameters of this call.
  abbrev pub echo : {P : Type 0} → Update V P → MethodCall V → P → Result P
  echo update call p = update_property update call.parameters p

  -- A PropertyChanged signal that has the parameters of a SetProperty call is an update of that key
  -- to that value.
  pub update_property-set_property :
      GVariantLaws g
      → {P : Type 0} (update : Update V P) (name : String) (value : V) (p : P)
      → echo update (set_property name value) p ≡ update name value p
  unfolding update_property set_property
  update_property-set_property laws update name value p = ground (
    arith,
    laws.child-pair_fst (g.new_string name) (g.new_variant value),
    laws.child-pair_snd (g.new_string name) (g.new_variant value),
    laws.get_string-new_string name,
    laws.get_variant-new_variant value,
  )
