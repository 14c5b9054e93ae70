-- ===== src/Manager/Kept.antt =====
-- What every handler of the manager keeps (src/dbus/gconnman_manager.cpp).
use libcppconnman.Prelude.{
  ℕ, String, Bool, true, false, if◌then◌else◌, Option, none, List, [], ◌∷◌, ◌++◌, inl, inr,
  Result-cases, map, str_eq, ◌<◌, length, Option-cases,
}
use libcppconnman.GVariant.{GVariant}
use libcppconnman.Service.Props.{serv_init, serv_update}
use libcppconnman.Technology.Enums.{TechType}
use libcppconnman.Technology.Props.{tech_init, tech_update}
use libcppconnman.Manager.Lists.{Store, erase_paths}
use libcppconnman.Manager.Proxies.{dict_to_path_prop, reorder, dict_to_proxy}
use libcppconnman.Manager.Defs.{
  Manager, Outcome, notify_services, notify_technologies, process_services_changed,
  on_services_changed_cb, add_technology, remove_technology, on_technology_added_removed_cb,
  unless_empty_list,
}
use libcppconnman.Manager.Paths.{Extends, Extends-refl}
use libcppconnman.Manager.Order.{Valid, Valid-Extends, reorder-Ordered}
use libcppconnman.Manager.Changes.{erase_path-Valid, erase_paths-Valid}
use libcppconnman.Manager.Made.{dict_to_proxy-Entry}

-- Both lists hold only addresses of objects that were made.
pub record WellFormed (m : Manager) : Type 0 where
  pub services : Valid m.service_store m.services
  pub technologies : Valid m.technology_store m.technologies

-- No object is lost and none changes its path.
pub record Later (m m' : Manager) : Type 0 where
  pub services : Extends m.service_store m'.service_store
  pub technologies : Extends m.technology_store m'.technology_store

abbrev pub Keeps : Manager → Manager → Type 0
Keeps m m' = WellFormed m' × Later m m'

pub keep : (m : Manager) → WellFormed m → Keeps m m
keep m w = (
  w,
  record {
    services = Extends-refl m.service_store;
    technologies = Extends-refl m.technology_store;
  },
)

Valid-append :
    {P : Type 0} (s : Store P) (list : List ℕ) (a : ℕ)
    → Valid s list
    → a < length s
    → Valid s (list ++ a ∷ [])
Valid-append s [] a v h = (h, tt)
Valid-append s (b ∷ list) a v h = (v.0, Valid-append s list a v.1 h)

pub notify_services-Keeps : (m m' : Manager) → Keeps m m' → Keeps m (notify_services m')
unfolding notify_services
notify_services-Keeps m m' (w, l) = (
  record { services = w.services; technologies = w.technologies },
  record { services = l.services; technologies = l.technologies },
)

pub notify_technologies-Keeps : (m m' : Manager) → Keeps m m' → Keeps m (notify_technologies m')
unfolding notify_technologies
notify_technologies-Keeps m m' (w, l) = (
  record { services = w.services; technologies = w.technologies },
  record { services = l.services; technologies = l.technologies },
)

pub unless_empty_list-Keeps :
    (list : List ℕ) (notify : Manager → Manager) (m m' : Manager)
    → Keeps m m'
    → Keeps m (notify m')
    → Keeps m (unless_empty_list list notify m')
unless_empty_list-Keeps [] notify m m' k n = k
unless_empty_list-Keeps (a ∷ list) notify m m' k n = n

if-Keeps :
    (test : Bool) (m : Manager) (o o' : Outcome)
    → Keeps m o.0
    → Keeps m o'.0
    → Keeps m (if test then o else o').0
if-Keeps true m o o' k k' = k
if-Keeps false m o o' k k' = k'

module _ {V : Type 0} ⦃g : GVariant V⦄ (create : String → Option String) (type : TechType) where
  process_services_changed-Keeps :
      (removed : List String) (changed : List (String × V)) (m : Manager)
      → WellFormed m
      → Keeps m (process_services_changed create type removed changed m).0
  unfolding process_services_changed
  process_services_changed-Keeps removed changed m w =
      let kept = erase_paths m.service_store removed m.services in
      let valid = erase_paths-Valid m.service_store removed m.services w.services in
      let o = reorder-Ordered create serv_update serv_init changed m.service_store kept valid in
      let store = (reorder create serv_update serv_init kept m.service_store changed).0 in
      let later : (l : List ℕ) → Later m (record m { services = l; service_store = store }) =
        λ l. record { services = o.extends; technologies = Extends-refl m.technology_store } in
      elim (Result-cases (reorder create serv_update serv_init kept m.service_store changed).1) [
        | inl (list, q) ↦
            rw (q, process_services_changed)
              (record { services = (o.order list q).1; technologies = w.technologies }, later list)
        | inr (e, q) ↦
            rw (q, process_services_changed)
              (
                record {
                  services = Valid-Extends m.service_store store kept o.extends valid;
                  technologies = w.technologies;
                },
                later kept,
              )
      ]

  pub on_services_changed_cb-Keeps :
      (parameters : V) (m : Manager)
      → WellFormed m
      → Keeps m (on_services_changed_cb create type parameters m).0
  unfolding on_services_changed_cb
  on_services_changed_cb-Keeps parameters m w =
      let changed =
        map (λ item. dict_to_path_prop item) (g.children (g.get_child_value parameters 0)) in
      let removed = map (λ item. g.get_string item) (g.children (g.get_child_value parameters 1)) in
      let m' = (process_services_changed create type removed changed m).0 in
      let k = process_services_changed-Keeps removed changed m w in
      elim (Option-cases (process_services_changed create type removed changed m).1) [
        | inl q ↦ rw (q, on_services_changed_cb) (notify_services-Keeps m m' k)
        | inr (e, q) ↦ rw (q, on_services_changed_cb) k
      ]

  add_technology-Keeps :
      (parameters : V) (m : Manager)
      → WellFormed m
      → Keeps m (add_technology create type parameters m).0
  unfolding add_technology
  add_technology-Keeps parameters m w =
      let entry =
        dict_to_proxy-Entry create tech_update (tech_init type) m.technology_store parameters in
      let store =
        (dict_to_proxy create tech_update (tech_init type) m.technology_store parameters).0 in
      let valid =
        Valid-Extends m.technology_store store m.technologies entry.extends w.technologies in
      let later : (l : List ℕ) → Later m (record m { technologies = l; technology_store = store }) =
        λ l. record { services = Extends-refl m.service_store; technologies = entry.extends } in
      elim (Result-cases
        (dict_to_proxy create tech_update (tech_init type) m.technology_store parameters).1) [
          | inl (a, q) ↦
              rw (q, add_technology)
                (
                  record {
                    services = w.services;
                    technologies = Valid-append store m.technologies a valid (entry.found a q).1;
                  },
                  later (m.technologies ++ a ∷ []),
                )
          | inr (e, q) ↦
              rw (q, add_technology)
                (record { services = w.services; technologies = valid }, later m.technologies)
        ]

  remove_technology-Keeps :
      (parameters : V) (m : Manager)
      → WellFormed m
      → Keeps m (remove_technology create type parameters m)
  unfolding remove_technology
  remove_technology-Keeps parameters m w = (
    record {
      services = w.services;
      technologies =
          erase_path-Valid m.technology_store m.technology_store (g.get_string parameters)
            m.technologies w.technologies;
    },
    record {
      services = Extends-refl m.service_store;
      technologies = Extends-refl m.technology_store;
    },
  )

  abbrev pub technology_step : String → V → Manager → Outcome
  technology_step name parameters m =
      if str_eq name "g-signal::TechnologyAdded"
      then add_technology create type parameters m
      else if str_eq name "g-signal::TechnologyRemoved"
      then (remove_technology create type parameters m, none)
      else (m, none)

  technology_step-Keeps :
      (name : String) (parameters : V) (m : Manager)
      → WellFormed m
      → Keeps m (technology_step name parameters m).0
  technology_step-Keeps name parameters m w =
      if-Keeps _ m _ _ (add_technology-Keeps parameters m w)
        (if-Keeps _ m _ _ (remove_technology-Keeps parameters m w) (keep m w))

  pub on_technology_added_removed_cb-Keeps :
      (name : String) (parameters : V) (m : Manager)
      → WellFormed m
      → Keeps m (on_technology_added_removed_cb create type name parameters m).0
  unfolding on_technology_added_removed_cb
  on_technology_added_removed_cb-Keeps name parameters m w =
      let k = technology_step-Keeps name parameters m w in
      elim (Option-cases (technology_step name parameters m).1) [
        | inl q ↦ rw (q, on_technology_added_removed_cb) (notify_technologies-Keeps m _ k)
        | inr (e, q) ↦ rw (q, on_technology_added_removed_cb) k
      ]
