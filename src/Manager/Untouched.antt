-- ===== src/Manager/Untouched.antt =====
-- The handlers for technologies leave the services alone (src/dbus/gconnman_manager.cpp).
use libcppconnman.Prelude.{
  ℕ, ◌≡◌, refl, String, Bool, true, false, Option, none, some, List, [], ◌∷◌, inl, inr,
  Option-cases, Result-cases, if◌then◌else◌, str_eq,
}
use libcppconnman.GVariant.{GVariant}
use libcppconnman.Service.Props.{ServProperties, serv_init}
use libcppconnman.Technology.Enums.{TechType}
use libcppconnman.Technology.Props.{tech_init, tech_update}
use libcppconnman.Manager.Proxies.{dict_to_proxy, arrays_to_proxies}
use libcppconnman.Manager.Defs.{
  Manager, Outcome, add_technology, remove_technology, on_technology_added_removed_cb,
  get_technologies_cb, notify_technologies, unless_empty_list,
}
use libcppconnman.Manager.View.{view}
use libcppconnman.Manager.Kept.{technology_step}

abbrev pub services_view : Manager → List (String × ServProperties)
services_view m = view serv_init m.service_store m.services

pub unless_empty_list-view :
    (list : List ℕ) (notify : Manager → Manager) (m : Manager)
    → services_view (notify m) ≡ services_view m
    → services_view (unless_empty_list list notify m) ≡ services_view m
unless_empty_list-view [] notify m h = refl
unless_empty_list-view (a ∷ list) notify m h = h

if-view :
    (b : Bool) (m : Manager) (x y : Outcome)
    → services_view x.0 ≡ services_view m
    → services_view y.0 ≡ services_view m
    → services_view (if b then x else y).0 ≡ services_view m
if-view true m x y p q = p
if-view false m x y p q = q

module _ {V : Type 0} ⦃g : GVariant V⦄ (create : String → Option String) (type : TechType) where
  add_technology-view :
      (parameters : V) (m : Manager)
      → services_view (add_technology create type parameters m).0 ≡ services_view m
  unfolding add_technology
  add_technology-view parameters m =
      elim (Result-cases
        (dict_to_proxy create tech_update (tech_init type) m.technology_store parameters).1) [
          | inl (a, q) ↦ rw (q, add_technology) refl
          | inr (e, q) ↦ rw (q, add_technology) refl
        ]

  technology_step-view :
      (name : String) (parameters : V) (m : Manager)
      → services_view (technology_step create type name parameters m).0 ≡ services_view m
  unfolding remove_technology
  technology_step-view name parameters m =
      let added = add_technology create type parameters m in
      let removed : Outcome = (remove_technology create type parameters m, none) in
      let is_added = str_eq name "g-signal::TechnologyAdded" in
      let is_removed = str_eq name "g-signal::TechnologyRemoved" in
      if-view is_added m added (if is_removed then removed else (m, none))
        (add_technology-view parameters m) (if-view is_removed m removed (m, none) refl refl)

  pub technology_signal-view :
      (name : String) (parameters : V) (m : Manager)
      → services_view (on_technology_added_removed_cb create type name parameters m).0
        ≡ services_view m
  unfolding on_technology_added_removed_cb notify_technologies
  technology_signal-view name parameters m =
      let k = technology_step-view name parameters m in
      elim (Option-cases (technology_step create type name parameters m).1) [
        | inl q ↦ rw (q, on_technology_added_removed_cb) k
        | inr (e, q) ↦ rw (q, on_technology_added_removed_cb) k
      ]

  pub technologies_reply-view :
      (reply : Option V) (m : Manager)
      → services_view (get_technologies_cb create type reply m).0 ≡ services_view m
  unfolding get_technologies_cb notify_technologies
  technologies_reply-view none m = refl
  technologies_reply-view (some out) m =
      let (store, made) =
        arrays_to_proxies create tech_update (tech_init type) m.technology_store out in
      elim (Result-cases made) [
        | inl (list, q) ↦
            rw (q, get_technologies_cb)
              (unless_empty_list-view list notify_technologies
                (record m { technologies = list; technology_store = store }) refl)
        | inr (e, q) ↦ rw (q, get_technologies_cb) refl
      ]
