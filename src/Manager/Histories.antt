-- ===== src/Manager/Histories.antt =====
-- Histories of signals and replies refine a fold over the ordered list of paths with properties
-- (src/dbus/gconnman_manager.cpp).
use libcppconnman.Prelude.{
  ℕ, ◌≡◌, refl, sym, ◌∙◌, ap, String, Option, none, some, List, [], ◌∷◌, Result, map_ok, map, All,
  inl, inr, Option-cases, Result-cases, Bool-cases, if◌then◌else◌,
}
use libcppconnman.GVariant.{GVariant}
use libcppconnman.Props.{Update}
use libcppconnman.Service.Props.{ServProperties, serv_init, serv_update}
use libcppconnman.Technology.Enums.{TechType}
use libcppconnman.Manager.Lists.{Store, find_path}
use libcppconnman.Manager.Proxies.{
  dict_to_path_prop, dict_to_proxy, make_proxies, arrays_to_proxies, reuse_or_make, reorder,
}
use libcppconnman.Manager.Defs.{
  Manager, process_services_changed, on_services_changed_cb, get_services_cb, notify_services,
}
use libcppconnman.Manager.View.{without, updated}
use libcppconnman.Manager.Kept.{WellFormed}
use libcppconnman.Manager.Untouched.{
  services_view, unless_empty_list-view, technology_signal-view, technologies_reply-view,
}
use libcppconnman.Manager.Refinement.{
  DistinctPaths, reorder-updated, process_services_changed-updated,
}
use libcppconnman.Manager.History.{
  Signal, services_changed, technology_signal, services_reply, technologies_reply, handle,
  handle_all, handle-Keeps,
}

module _ {V : Type 0} ⦃g : GVariant V⦄ where
  abbrev pub entries_of : List V → List (String × V)
  entries_of items = map (λ item. dict_to_path_prop item) items

  -- The changed entries and the removed paths of ServicesChanged.
  abbrev pub changed_of : V → List (String × V)
  changed_of parameters = entries_of (g.children (g.get_child_value parameters 0))

  abbrev pub removed_of : V → List String
  removed_of parameters =
      map (λ item. g.get_string item) (g.children (g.get_child_value parameters 1))

  -- The entries of a reply's array; one of another type has none.
  abbrev pub listed_of : V → List (String × V)
  listed_of out = if g.is_of_type out "a(oa{sv})" then entries_of (g.children out) else []

  -- What a signal or reply promises for the services.
  abbrev pub promised : Signal V → List (String × ServProperties) → List (String × ServProperties)
  promised (services_changed parameters) services =
      updated serv_init serv_update (without serv_init (removed_of parameters) services)
        (changed_of parameters)
  promised (technology_signal name parameters) services = services
  promised (services_reply none) services = services
  promised (services_reply (some out)) services = updated serv_init serv_update [] (listed_of out)
  promised (technologies_reply reply) services = services

  abbrev pub promised_all :
      List (Signal V) → List (String × ServProperties) → List (String × ServProperties)
  promised_all [] services = services
  promised_all (signal ∷ signals) services = promised_all signals (promised signal services)

  -- No two entries of a message have the same path.
  abbrev pub Distinct : Signal V → Type 0
  Distinct (services_changed parameters) = DistinctPaths (changed_of parameters)
  Distinct (services_reply (some out)) = DistinctPaths (listed_of out)
  Distinct signal = Unit {0}

module _ {V P : Type 0} ⦃g : GVariant V⦄ (create : String → Option String) (update : Update V P)
    (init : P) where
  -- Making proxies is reordering with nothing to reuse.
  make_proxies-reorder :
      (items : List V) (s : Store P)
      → make_proxies create update init s items ≡ reorder create update init [] s (entries_of items)
  unfolding make_proxies reorder reuse_or_make dict_to_proxy find_path
  make_proxies-reorder [] s = refl
  make_proxies-reorder (item ∷ items) s =
      let (s₁, made) = dict_to_proxy create update init s item in
      elim (Result-cases made) [
        | inr (e, q) ↦ rw (q, make_proxies, reorder) refl
        | inl (a, q) ↦
            rw (q, make_proxies, reorder)
              (ap (λ (r : Store P × Result (List ℕ)). (r.0, map_ok (λ list. a ∷ list) r.1))
                (make_proxies-reorder items s₁))
      ]

  arrays_to_proxies-reorder :
      (s : Store P) (out : V)
      → arrays_to_proxies create update init s out ≡ reorder create update init [] s (listed_of out)
  unfolding arrays_to_proxies
  arrays_to_proxies-reorder s out = elim (Bool-cases (g.is_of_type out "a(oa{sv})")) [
    | inl e ↦ rw (e, arrays_to_proxies) (make_proxies-reorder (g.children out) s)
    | inr e ↦ rw (e, arrays_to_proxies) (make_proxies-reorder [] s)
  ]

module _ {V : Type 0} ⦃g : GVariant V⦄ (create : String → Option String) (type : TechType) where
  -- The services after one signal or reply that is handled without an exception.
  services_changed-promised :
      (parameters : V) (m : Manager)
      → WellFormed m
      → DistinctPaths (changed_of parameters)
      → (on_services_changed_cb create type parameters m).1 ≡ none
      → services_view (on_services_changed_cb create type parameters m).0
        ≡ promised (services_changed parameters) (services_view m)
  unfolding on_services_changed_cb notify_services
  services_changed-promised parameters m w d h =
      let removed = removed_of parameters in
      let changed = changed_of parameters in
      let (m', thrown) = process_services_changed create type removed changed m in
      elim (Option-cases thrown) [
        | inr (e, q) ↦ cc (rw (q, on_services_changed_cb) at h)
        | inl q ↦
            rw (q, on_services_changed_cb)
              (process_services_changed-updated create type removed changed m m' w.services d
                (ap (λ o. (m', o)) q))
      ]

  services_reply-promised :
      (out : V) (m : Manager)
      → DistinctPaths (listed_of out)
      → (get_services_cb create type (some out) m).1 ≡ none
      → services_view (get_services_cb create type (some out) m).0
        ≡ promised (services_reply (some out)) (services_view m)
  unfolding get_services_cb notify_services
  services_reply-promised out m d h =
      let s = m.service_store in
      let (store, made) = arrays_to_proxies create serv_update serv_init s out in
      elim (Result-cases made) [
        | inr (e, q) ↦ cc (rw (q, get_services_cb) at h)
        | inl (list, q) ↦
            let whole =
              sym (arrays_to_proxies-reorder create serv_update serv_init s out)
              ∙ ap (λ r. (store, r)) q in
            rw (q, get_services_cb)
              (unless_empty_list-view list notify_services
                  (record m { services = list; service_store = store }) refl
                ∙ reorder-updated create serv_update serv_init (listed_of out) s store [] list tt d
                    whole)
      ]

  handle-promised :
      (signal : Signal V) (m : Manager)
      → WellFormed m
      → Distinct signal
      → (handle create type signal m).1 ≡ none
      → services_view (handle create type signal m).0 ≡ promised signal (services_view m)
  unfolding handle get_services_cb
  handle-promised (services_changed parameters) m w d h =
      services_changed-promised parameters m w d h
  handle-promised (technology_signal name parameters) m w d h =
      technology_signal-view create type name parameters m
  handle-promised (services_reply none) m w d h = refl
  handle-promised (services_reply (some out)) m w d h = services_reply-promised out m d h
  handle-promised (technologies_reply reply) m w d h = technologies_reply-view create type reply m

  -- After any history of signals and replies that ends without an exception and in which no message names
  -- a path twice, the services, seen as an ordered list of paths with properties, are what the messages make of
  -- the list one after the other: ServicesChanged drops the removed paths and leaves the changed entries
  -- in their order, each with its properties read into those under its path; a reply of GetServices
  -- starts the list anew; signals and replies for technologies change nothing.
  pub handle_all-promised :
      (signals : List (Signal V)) (m m' : Manager)
      → WellFormed m
      → All Distinct signals
      → handle_all create type signals m ≡ (m', none)
      → services_view m' ≡ promised_all signals (services_view m)
  unfolding handle_all
  handle_all-promised [] m m' w d h = cc
  handle_all-promised (signal ∷ signals) m m' w d h =
      let m₁ = (handle create type signal m).0 in
      let w₁ = (handle-Keeps create type signal m w).0 in
      elim (Option-cases (handle create type signal m).1) [
        | inr (e, q) ↦ cc (rw (q, handle_all) at h)
        | inl q ↦
            handle_all-promised signals m₁ m' w₁ d.1 (rw (q, handle_all) at h)
            ∙ ap (promised_all signals) (handle-promised signal m w d.0 q)
      ]
