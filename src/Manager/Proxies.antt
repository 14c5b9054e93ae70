-- ===== src/Manager/Proxies.antt =====
-- Making and refreshing the proxies of a list: dict_to_path_prop, dict_to_proxy, arrays_to_proxies
-- and the loop of process_services_changed in src/dbus/gconnman_manager.cpp.
use Prim.Native.String.{◌++◌ as append}
use libcppconnman.Prelude.{
  ℕ, String, Option, none, some, List, [], ◌∷◌, ◌++◌, Result, ok, throw, Exception, runtime_error,
  map_ok, if◌then◌else◌, length, get_elem?,
}
use libcppconnman.GVariant.{GVariant}
use libcppconnman.Props.{Update, update_properties}
use libcppconnman.Manager.Lists.{Store, find_path, set_props}

-- The address, unless an exception leaves the call.
unfoldable pub unless_thrown : {P : Type 0} → Option Exception → Store P → ℕ → Store P × Result ℕ
unless_thrown none store a = (store, ok a)
unless_thrown (some e) store a = (store, throw e)

module _ {V : Type 0} ⦃g : GVariant V⦄ where
  unfoldable pub dict_to_path_prop : V → String × V
  dict_to_path_prop tuple = (g.get_string (g.get_child_value tuple 0), g.get_child_value tuple 1)

  -- `create path` is the message with which g_dbus_proxy_new_sync fails, if it fails.
  module _ {P : Type 0} (create : String → Option String) (update : Update V P) (init : P) where
    unfoldable pub read_new : Store P → String → V → Store P × Result ℕ
    unfolding unless_thrown
    read_new store path properties =
        let (props, thrown) = update_properties update (g.children properties) init in
        let store' = store ++ record { path = path; props = props } ∷ [] in
        unless_thrown thrown store' (length store)

    unfoldable pub make_proxy : Store P → String → V → Store P × Result ℕ
    unfolding read_new
    make_proxy store path properties = elim (create path) [
      | some message ↦ (store, throw (runtime_error (append "Failed to create proxy: " message)))
      | none ↦ read_new store path properties
    ]

    -- The properties of the proxy at `a` are read anew; what an exception cuts off stays as it was.
    unfoldable pub refresh : Store P → ℕ → V → Store P × Result ℕ
    unfolding unless_thrown
    refresh store a properties = elim (get_elem? store a) [
      | none ↦ (store, ok a)
      | some o ↦
          let (props, thrown) = update_properties update (g.children properties) o.props in
          let store' = set_props store a props in unless_thrown thrown store' a
    ]

    unfoldable pub dict_to_proxy : Store P → V → Store P × Result ℕ
    unfolding make_proxy dict_to_path_prop
    dict_to_proxy store tuple =
        let (path, properties) = dict_to_path_prop tuple in make_proxy store path properties

    unfoldable pub make_proxies : Store P → List V → Store P × Result (List ℕ)
    unfolding dict_to_proxy
    make_proxies store [] = (store, ok [])
    make_proxies store (item ∷ items) =
        let (store', made) = dict_to_proxy store item in
        elim made [
          | throw e ↦ (store', throw e)
          | ok a ↦
              let (store'', rest) = make_proxies store' items in
              (store'', map_ok (λ list. a ∷ list) rest)
        ]

    unfoldable pub arrays_to_proxies : Store P → V → Store P × Result (List ℕ)
    unfolding make_proxies
    arrays_to_proxies store array_od =
        if g.is_of_type array_od "a(oa{sv})"
        then make_proxies store (g.children array_od)
        else (store, ok [])

    -- One entry of a change: the proxy that the list has under this path, or a new one.
    unfoldable pub reuse_or_make : List ℕ → Store P → String × V → Store P × Result ℕ
    unfolding make_proxy refresh find_path
    reuse_or_make services store (path, prop) = elim (find_path store path services) [
      | some a ↦ refresh store a prop
      | none ↦ make_proxy store path prop
    ]

    -- The new order; on an exception it is dropped.
    unfoldable pub reorder : List ℕ → Store P → List (String × V) → Store P × Result (List ℕ)
    unfolding reuse_or_make
    reorder services store [] = (store, ok [])
    reorder services store (entry ∷ changed) =
        let (store', found) = reuse_or_make services store entry in
        elim found [
          | throw e ↦ (store', throw e)
          | ok a ↦
              let (store'', rest) = reorder services store' changed in
              (store'', map_ok (λ list. a ∷ list) rest)
        ]
