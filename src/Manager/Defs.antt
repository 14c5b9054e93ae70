-- ===== src/Manager/Defs.antt =====
-- The state of Manager (include/amarula/dbus/connman/gmanager.hpp) and its signal and reply handlers
-- (src/dbus/gconnman_manager.cpp). Each handler holds the manager's lock while it changes the lists,
-- so it is one step; the user callback runs after it, on a copy of the list.
use libcppconnman.Prelude.{
  ℕ, String, Option, none, some, List, [], ◌∷◌, ◌++◌, ok, throw, Exception, map, str_eq,
  if◌then◌else◌,
}
use libcppconnman.GVariant.{GVariant}
use libcppconnman.Service.Props.{ServProperties, serv_init, serv_update}
use libcppconnman.Technology.Enums.{TechType}
use libcppconnman.Technology.Props.{TechProperties, tech_init, tech_update}
use libcppconnman.Manager.Lists.{Store, erase_path, erase_paths}
use libcppconnman.Manager.Proxies.{dict_to_path_prop, dict_to_proxy, arrays_to_proxies, reorder}

-- A call of the user's OnServListChangedCallback or OnTechListChangedCallback; the callback is
-- `none` while it is the one that does nothing.
pub data Event : Type 0 where
  services_notified technologies_notified : Option ℕ → List ℕ → Event

pub record Manager : Type 0 where
  pub services : List ℕ
  pub technologies : List ℕ
  pub service_store : Store ServProperties
  pub technology_store : Store TechProperties
  pub services_changed_cb : Option ℕ
  pub technologies_changed_cb : Option ℕ
  pub events : List Event

abbrev pub Outcome : Type 0
Outcome = Manager × Option Exception

-- A null callback is ignored.
unfoldable pub on_services_changed : Option ℕ → Manager → Manager
on_services_changed none m = m
on_services_changed (some callback) m = record m { services_changed_cb = some callback }

unfoldable pub on_technologies_changed : Option ℕ → Manager → Manager
on_technologies_changed none m = m
on_technologies_changed (some callback) m = record m { technologies_changed_cb = some callback }

unfoldable pub notify_services : Manager → Manager
notify_services m = record m {
  events = m.events ++ Event.services_notified m.services_changed_cb m.services ∷ [];
}

unfoldable pub notify_technologies : Manager → Manager
notify_technologies m = record m {
  events = m.events ++ Event.technologies_notified m.technologies_changed_cb m.technologies ∷ [];
}

-- The reply of GetServices or GetTechnologies: the new list, and the callback unless it is empty.
abbrev pub unless_empty_list : List ℕ → (Manager → Manager) → Manager → Manager
unless_empty_list [] notify m = m
unless_empty_list (a ∷ list) notify m = notify m

-- `create path` is the message with which the proxy of this path cannot be made, if it cannot;
-- `type` is what the uninitialized `type_` of a technology holds.
module _ {V : Type 0} ⦃g : GVariant V⦄ (create : String → Option String) (type : TechType) where
  unfoldable pub process_services_changed : List String → List (String × V) → Manager → Outcome
  unfolding erase_paths reorder
  process_services_changed removed changed m =
      let kept = erase_paths m.service_store removed m.services in
      let (store, order) = reorder create serv_update serv_init kept m.service_store changed in
      elim order [
        | ok list ↦ (record m { services = list; service_store = store }, none)
        | throw e ↦ (record m { services = kept; service_store = store }, some e)
      ]

  unfoldable pub on_services_changed_cb : V → Manager → Outcome
  unfolding process_services_changed notify_services dict_to_path_prop
  on_services_changed_cb parameters m =
      let changed =
        map (λ item. dict_to_path_prop item) (g.children (g.get_child_value parameters 0)) in
      let removed = map (λ item. g.get_string item) (g.children (g.get_child_value parameters 1)) in
      let (m', thrown) = process_services_changed removed changed m in
      elim thrown [ none ↦ (notify_services m', none) | some e ↦ (m', some e) ]

  unfoldable pub add_technology : V → Manager → Outcome
  unfolding dict_to_proxy
  add_technology parameters m =
      let (store, made) =
        dict_to_proxy create tech_update (tech_init type) m.technology_store parameters in
      let m' = record m { technology_store = store } in
      elim made [
        | ok a ↦ (record m' { technologies = m.technologies ++ a ∷ [] }, none)
        | throw e ↦ (m', some e)
      ]

  unfoldable pub remove_technology : V → Manager → Manager
  unfolding erase_path
  remove_technology parameters m = record m {
    technologies = erase_path m.technology_store (g.get_string parameters) m.technologies;
  }

  unfoldable pub on_technology_added_removed_cb : String → V → Manager → Outcome
  unfolding add_technology remove_technology notify_technologies
  on_technology_added_removed_cb signal_name parameters m =
      let (m', thrown) =
        if str_eq signal_name "g-signal::TechnologyAdded"
        then add_technology parameters m
        else if str_eq signal_name "g-signal::TechnologyRemoved"
        then (remove_technology parameters m, none)
        else (m, none) in
      elim thrown [ none ↦ (notify_technologies m', none) | some e ↦ (m', some e) ]

  -- `reply` is the array of the reply, if the call succeeded.
  unfoldable pub get_services_cb : Option V → Manager → Outcome
  unfolding arrays_to_proxies notify_services
  get_services_cb none m = (m, none)
  get_services_cb (some out_properties) m =
      let (store, made) =
        arrays_to_proxies create serv_update serv_init m.service_store out_properties in
      let m' = record m { service_store = store } in
      elim made [
        | ok list ↦ (unless_empty_list list notify_services (record m' { services = list }), none)
        | throw e ↦ (m', some e)
      ]

  unfoldable pub get_technologies_cb : Option V → Manager → Outcome
  unfolding arrays_to_proxies notify_technologies
  get_technologies_cb none m = (m, none)
  get_technologies_cb (some out_properties) m =
      let (store, made) =
        arrays_to_proxies create tech_update (tech_init type) m.technology_store out_properties in
      let m' = record m { technology_store = store } in
      elim made [
        | ok list ↦
            (unless_empty_list list notify_technologies (record m' { technologies = list }), none)
        | throw e ↦ (m', some e)
      ]
