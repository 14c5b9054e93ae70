-- ===== src/Manager/Made.antt =====
-- The proxies that a reply of GetServices or GetTechnologies makes: arrays_to_proxies of
-- src/dbus/gconnman_manager.cpp.
use libcppconnman.Prelude.{
  ℕ, ◌≡◌, refl, ◌∙◌, ap₂, subst, String, Bool-cases, Option, some, none, List, [], ◌∷◌, Result, ok,
  arith, inl, inr, map, Result-cases, map_ok-eq-ok, if◌then◌else◌,
}
use libcppconnman.GVariant.{GVariant}
use libcppconnman.Props.{Update}
use libcppconnman.Manager.Lists.{Store, find_path}
use libcppconnman.Manager.Proxies.{
  dict_to_path_prop, dict_to_proxy, make_proxies, arrays_to_proxies,
}
use libcppconnman.Service.Props.{serv_update, serv_init}
use libcppconnman.Technology.Enums.{TechType}
use libcppconnman.Manager.Defs.{Manager, get_services_cb, unless_empty_list, notify_services}
use libcppconnman.Manager.Paths.{Extends, Extends-refl, Extends-trans, Entry, make_proxy-Entry}
use libcppconnman.Manager.Order.{Valid, paths_of}

-- What making the proxies of these paths does to the store.
pub record Made {P : Type 0} (paths : List String) (s t : Store P) (r : Result (List ℕ))
    : Type 0 where
  pub extends : Extends s t
  pub made : (list : List ℕ) → r ≡ ok list → (paths_of t list ≡ paths) × Valid t list

module _ {V : Type 0} ⦃g : GVariant V⦄ where
  abbrev pub item_path : V → String
  item_path item = (dict_to_path_prop item).0

  -- An array of another type makes none.
  abbrev pub array_paths : V → List String
  array_paths array_od =
      if g.is_of_type array_od "a(oa{sv})" then map item_path (g.children array_od) else []

module _ {V P : Type 0} ⦃g : GVariant V⦄ (create : String → Option String) (update : Update V P)
    (init : P) where
  pub dict_to_proxy-Entry :
      (s : Store P) (item : V)
      → Entry
          (item_path item)
          []
          s
          (dict_to_proxy create update init s item).0
          (dict_to_proxy create update init s item).1
  unfolding dict_to_proxy find_path
  dict_to_proxy-Entry s item =
      make_proxy-Entry create update init s (item_path item) (dict_to_path_prop item).1 [] refl

  pub make_proxies-Made :
      (items : List V) (s : Store P)
      → Made
          (map item_path items)
          s
          (make_proxies create update init s items).0
          (make_proxies create update init s items).1
  unfolding make_proxies
  make_proxies-Made [] s = record {
    extends = Extends-refl s;
    made = λ list h.
        let e : [] ≡ list = ground (arith, h) in
        subst (λ l. (paths_of s l ≡ []) × Valid s l) e (refl, tt);
  }
  make_proxies-Made (item ∷ items) s =
      let first = dict_to_proxy-Entry s item in
      let s₁ = (dict_to_proxy create update init s item).0 in
      let rest = make_proxies-Made items s₁ in
      elim (Result-cases (dict_to_proxy create update init s item).1) [
        | inr (e, q) ↦
            rw (q, make_proxies) (record { extends = first.extends; made = λ list h. cc })
        | inl (a, q) ↦
            rw (q, make_proxies)
              (record {
                extends = Extends-trans s s₁ _ first.extends rest.extends;
                made = λ list h.
                    let t = (make_proxies create update init s₁ items).0 in
                    let (tail, tq, e) =
                      map_ok-eq-ok (λ (l : List ℕ). a ∷ l)
                        (make_proxies create update init s₁ items).1 h in
                    let (p, v) = rest.made tail tq in
                    let (at, lt, chosen) = first.found a q in
                    subst (λ l. (paths_of t l ≡ map item_path (item ∷ items)) × Valid t l) e
                      (
                        ap₂ ◌∷◌ (rest.extends.paths a lt ∙ at) p,
                        (omega (arith, rest.extends.grows, lt), v),
                      );
              })
      ]

  pub arrays_to_proxies-Made :
      (s : Store P) (array_od : V)
      → Made
          (array_paths array_od)
          s
          (arrays_to_proxies create update init s array_od).0
          (arrays_to_proxies create update init s array_od).1
  unfolding arrays_to_proxies make_proxies
  arrays_to_proxies-Made s array_od = elim (Bool-cases (g.is_of_type array_od "a(oa{sv})")) [
    | inl e ↦ rw (e, arrays_to_proxies) (make_proxies-Made (g.children array_od) s)
    | inr e ↦ rw (e, arrays_to_proxies) (make_proxies-Made [] s)
  ]

-- The services of `n` are the objects of the array, and its technologies those of `m`.
abbrev pub Listed : {V : Type 0} → ⦃g : GVariant V⦄ → V → Manager → Manager → Type 0
Listed out m n =
    (paths_of n.service_store n.services ≡ array_paths out)
    × Valid n.service_store n.services
    × (n.technologies ≡ m.technologies)

module _ {V : Type 0} ⦃g : GVariant V⦄ where
  unless_empty_list-Listed :
      (out : V) (list : List ℕ) (m n : Manager)
      → Listed out m n
      → Listed out m (unless_empty_list list notify_services n)
  unfolding notify_services
  unless_empty_list-Listed out [] m n h = h
  unless_empty_list-Listed out (a ∷ list) m n h = h

module _ {V : Type 0} ⦃g : GVariant V⦄ (create : String → Option String) (type : TechType) where
  -- The reply of GetServices, when it is handled without an exception, makes the list of services
  -- exactly the objects of its array, in their order, all of them made, and empty if the array has
  -- another type; the technologies stay.
  pub get_services_cb-order :
      (out : V) (m m' : Manager)
      → get_services_cb create type (some out) m ≡ (m', none)
      → Listed out m m'
  unfolding get_services_cb
  get_services_cb-order out m m' h =
      let o = arrays_to_proxies-Made create serv_update serv_init m.service_store out in
      let (store, made) = arrays_to_proxies create serv_update serv_init m.service_store out in
      elim (Result-cases made) [
        | inr (e, q) ↦ ground (arith, q)
        | inl (list, q) ↦
            let n : Manager = record m { services = list; service_store = store } in
            let same : unless_empty_list list notify_services n ≡ m' = ground (arith, q, h) in
            let (paths, valid) = o.made list q in
            subst (Listed out m) same (unless_empty_list-Listed out list m n (paths, valid, refl))
      ]
