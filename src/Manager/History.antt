-- ===== src/Manager/History.antt =====
-- Any history of signals and replies that reach the manager (src/dbus/gconnman_manager.cpp).
use libcppconnman.Prelude.{String, Option, none, some, List, [], ◌∷◌}
use libcppconnman.GVariant.{GVariant}
use libcppconnman.Technology.Enums.{TechType}
use libcppconnman.Manager.Defs.{
  Manager, Outcome, on_services_changed_cb, on_technology_added_removed_cb, get_services_cb,
  get_technologies_cb,
}
use libcppconnman.Manager.Kept.{
  WellFormed, Keeps, on_services_changed_cb-Keeps, on_technology_added_removed_cb-Keeps,
}
use libcppconnman.Manager.KeptReplies.{get_services_cb-Keeps, get_technologies_cb-Keeps}

-- What reaches the manager from GLib.
pub data Signal (V : Type 0) : Type 0 where
  services_changed : V → Signal V
  technology_signal : String → V → Signal V
  services_reply technologies_reply : Option V → Signal V

module _ {V : Type 0} ⦃g : GVariant V⦄ (create : String → Option String) (type : TechType) where
  unfoldable pub handle : Signal V → Manager → Outcome
  unfolding on_services_changed_cb on_technology_added_removed_cb get_services_cb
      get_technologies_cb
  handle (services_changed parameters) m = on_services_changed_cb create type parameters m
  handle (technology_signal name parameters) m =
      on_technology_added_removed_cb create type name parameters m
  handle (services_reply reply) m = get_services_cb create type reply m
  handle (technologies_reply reply) m = get_technologies_cb create type reply m

  -- One after the other. The thread of the loop has no handler for an exception, which ends the program.
  unfoldable pub handle_all : List (Signal V) → Manager → Outcome
  unfolding handle
  handle_all [] m = (m, none)
  handle_all (signal ∷ signals) m =
      let (m', thrown) = handle signal m in
      let rest = handle_all signals m' in elim thrown [ none ↦ rest | some e ↦ (m', some e) ]

  pub handle-Keeps : (signal : Signal V) (m : Manager) → WellFormed m → Keeps m (handle signal m).0
  unfolding handle
  handle-Keeps (services_changed parameters) m w =
      on_services_changed_cb-Keeps create type parameters m w
  handle-Keeps (technology_signal name parameters) m w =
      on_technology_added_removed_cb-Keeps create type name parameters m w
  handle-Keeps (services_reply reply) m w = get_services_cb-Keeps create type reply m w
  handle-Keeps (technologies_reply reply) m w = get_technologies_cb-Keeps create type reply m w
