-- ===== src/Tests/Services.antt =====
-- The lists of the manager, at two services.
use libcppconnman.Prelude.{
  Result, ℕ, some, ◌≡◌, refl, String, ◌&&◌, not, Option, none, List, [], ◌∷◌, runtime_error, arith,
}
use libcppconnman.EnumMap.{from_string}
use libcppconnman.Props.{update_properties}
use libcppconnman.Service.Props.{ServProperties, serv_init, serv_update}
use libcppconnman.Technology.Enums.{TechType}
use libcppconnman.Manager.Lists.{Store, obj_path, erase_paths}
use libcppconnman.Manager.Defs.{
  Manager, process_services_changed, get_services_cb, on_technology_added_removed_cb,
  notify_technologies,
}
use libcppconnman.Manager.Changes.{
  After, member, has_text, process_services_changed-order, process_services_changed-thrown,
}
use libcppconnman.Manager.Signals.{is_member_name, technology_signal_ignored}
use libcppconnman.Manager.Reads.{Reads, read_into, props_at, reuse_or_make-Reads}
use libcppconnman.Manager.Proxies.{reuse_or_make}
use libcppconnman.Tests.Values.{array, Var, var, text, number, dict, tuple, cons, nil}

abbrev always_made : String → Option String
always_made path = none

abbrev two_services : Manager
two_services = record {
  services = 0 ∷ 1 ∷ [];
  technologies = [];
  service_store =
      record { path = "/a"; props = serv_init } ∷ record { path = "/b"; props = serv_init } ∷ [];
  technology_store = [];
  services_changed_cb = none;
  technologies_changed_cb = none;
  events = [];
}

-- A new service before one that was there.
abbrev changes : List (String × Var)
changes =
    ("/c", dict (("Name", text "cafe") ∷ []))
    ∷ ("/b", dict (("Name", text "home") ∷ ("Strength", number 70) ∷ []))
    ∷ []

abbrev changed_services : Manager
changed_services =
    (process_services_changed always_made TechType.wifi ("/a" ∷ []) changes two_services).0

changed_services_test : changed_services.services ≡ 2 ∷ 1 ∷ []
unfolding process_services_changed update_properties serv_update
changed_services_test = refl

process_services_changed-order_example :
    After changes
      (erase_paths two_services.service_store ("/a" ∷ []) two_services.services)
      two_services
      changed_services
unfolding process_services_changed update_properties serv_update
process_services_changed-order_example =
    process_services_changed-order always_made TechType.wifi ("/a" ∷ []) changes two_services
      changed_services (omega arith, (omega arith, tt)) refl

abbrev bad_changes : List (String × Var)
bad_changes = ("/b", dict (("State", text "asleep") ∷ [])) ∷ []

abbrev cut_services : Manager
cut_services =
    (process_services_changed always_made TechType.wifi ("/a" ∷ []) bad_changes two_services).0

process_services_changed-thrown_example :
    member 1 cut_services.services
    ≡ (member 1 (0 ∷ 1 ∷ []) && not (has_text (obj_path two_services.service_store 1) ("/a" ∷ [])))
unfolding process_services_changed update_properties serv_update from_string
process_services_changed-thrown_example =
    process_services_changed-thrown always_made TechType.wifi ("/a" ∷ []) bad_changes two_services
      cut_services (runtime_error "Invalid string value") refl 1

technology_signal_ignored_example :
    on_technology_added_removed_cb always_made TechType.wifi "TechnologyAdded"
      (tuple (cons (text "/t") (cons (dict []) nil)))
      two_services
    ≡ (notify_technologies two_services, none)
unfolding is_member_name
technology_signal_ignored_example =
    technology_signal_ignored always_made TechType.wifi "TechnologyAdded"
      (tuple (cons (text "/t") (cons (dict []) nil))) two_services refl

abbrev services_array : Var
services_array =
    array "a(oa{sv})"
      (cons (tuple (cons (text "/x") (cons (dict (("Name", text "home") ∷ [])) nil))) nil)

abbrev listed_services : Manager
listed_services = (get_services_cb always_made TechType.wifi (some services_array) two_services).0

abbrev home : Var
home = dict (("Name", text "home") ∷ [])

abbrev found : Store ServProperties × Result ℕ
found =
    reuse_or_make always_made serv_update serv_init (0 ∷ 1 ∷ []) two_services.service_store
      ("/b", home)

reuse_or_make-Reads_example :
    Reads two_services.service_store found.0 1 "/b"
      (read_into serv_update (props_at serv_init two_services.service_store 1) home)
unfolding reuse_or_make update_properties serv_update
reuse_or_make-Reads_example =
    reuse_or_make-Reads always_made serv_update serv_init (0 ∷ 1 ∷ []) two_services.service_store
      found.0 "/b" home 1 (omega arith, (omega arith, tt)) refl
