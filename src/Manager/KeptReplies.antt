-- ===== src/Manager/KeptReplies.antt =====
-- What the replies of GetServices and GetTechnologies keep: get_proxies_cb of
-- src/dbus/gconnman_manager.cpp.
use libcppconnman.Prelude.{ℕ, String, Option, none, some, List, inl, inr, Result-cases}
use libcppconnman.GVariant.{GVariant}
use libcppconnman.Service.Props.{serv_init, serv_update}
use libcppconnman.Technology.Enums.{TechType}
use libcppconnman.Technology.Props.{tech_init, tech_update}
use libcppconnman.Manager.Proxies.{arrays_to_proxies}
use libcppconnman.Manager.Defs.{
  Manager, notify_services, notify_technologies, get_services_cb, get_technologies_cb,
}
use libcppconnman.Manager.Paths.{Extends-refl}
use libcppconnman.Manager.Order.{Valid-Extends}
use libcppconnman.Manager.Made.{arrays_to_proxies-Made}
use libcppconnman.Manager.Kept.{
  WellFormed, Later, Keeps, keep, notify_services-Keeps, notify_technologies-Keeps,
  unless_empty_list-Keeps,
}

module _ {V : Type 0} ⦃g : GVariant V⦄ (create : String → Option String) (type : TechType) where
  pub get_services_cb-Keeps :
      (reply : Option V) (m : Manager)
      → WellFormed m
      → Keeps m (get_services_cb create type reply m).0
  unfolding get_services_cb
  get_services_cb-Keeps none m w = keep m w
  get_services_cb-Keeps (some out) m w =
      let o = arrays_to_proxies-Made create serv_update serv_init m.service_store out in
      let (store, made) = arrays_to_proxies create serv_update serv_init m.service_store out in
      let later : (l : List ℕ) → Later m (record m { services = l; service_store = store }) =
        λ l. record { services = o.extends; technologies = Extends-refl m.technology_store } in
      elim (Result-cases made) [
        | inl (list, q) ↦
            let m' : Manager = record m { services = list; service_store = store } in
            let k : Keeps m m' = (
              record { services = (o.made list q).1; technologies = w.technologies },
              later list,
            ) in
            rw (q, get_services_cb)
              (unless_empty_list-Keeps list notify_services m m' k (notify_services-Keeps m m' k))
        | inr (e, q) ↦
            rw (q, get_services_cb)
              (
                record {
                  services = Valid-Extends m.service_store store m.services o.extends w.services;
                  technologies = w.technologies;
                },
                later m.services,
              )
      ]

  pub get_technologies_cb-Keeps :
      (reply : Option V) (m : Manager)
      → WellFormed m
      → Keeps m (get_technologies_cb create type reply m).0
  unfolding get_technologies_cb
  get_technologies_cb-Keeps none m w = keep m w
  get_technologies_cb-Keeps (some out) m w =
      let o = arrays_to_proxies-Made create tech_update (tech_init type) m.technology_store out in
      let (store, made) =
        arrays_to_proxies create tech_update (tech_init type) m.technology_store out in
      let later : (l : List ℕ) → Later m (record m { technologies = l; technology_store = store }) =
        λ l. record { services = Extends-refl m.service_store; technologies = o.extends } in
      elim (Result-cases made) [
        | inl (list, q) ↦
            let m' : Manager = record m { technologies = list; technology_store = store } in
            let k : Keeps m m' =
              (record { services = w.services; technologies = (o.made list q).1 }, later list) in
            rw (q, get_technologies_cb)
              (unless_empty_list-Keeps list notify_technologies m m' k
                (notify_technologies-Keeps m m' k))
        | inr (e, q) ↦
            rw (q, get_technologies_cb)
              (
                record {
                  services = w.services;
                  technologies =
                      Valid-Extends m.technology_store store m.technologies o.extends
                        w.technologies;
                },
                later m.technologies,
              )
      ]
