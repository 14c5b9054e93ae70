-- ===== src/Manager/Changes.antt =====
-- What ServicesChanged makes of the list of services.
use libcppconnman.Prelude.{
  ℕ, ◌≡◌, refl, subst, String, Bool, false, ◌&&◌, ◌||◌, not, Option, none, some, List, [], ◌∷◌,
  Exception, arith, length, inl, inr, map, Result-cases, str_eq, ◌==◌, ==_iff, Bool-cases,
}
use libcppconnman.GVariant.{GVariant}
use libcppconnman.Service.Props.{serv_init, serv_update}
use libcppconnman.Technology.Enums.{TechType}
use libcppconnman.Manager.Lists.{Store, obj_path, erase_path, erase_paths}
use libcppconnman.Manager.Proxies.{reorder}
use libcppconnman.Manager.Defs.{Manager, process_services_changed}
use libcppconnman.Manager.Order.{Valid, paths_of, AllChosen, reorder-Ordered}

abbrev pub member : ℕ → List ℕ → Bool
member a [] = false
member a (b ∷ list) = a == b || member a list

abbrev pub has_text : String → List String → Bool
has_text t [] = false
has_text t (u ∷ list) = str_eq t u || has_text t list

module _ {P : Type 0} where
  pub erase_path-Valid :
      (s t : Store P) (path : String) (list : List ℕ)
      → Valid t list
      → Valid t (erase_path s path list)
  unfolding erase_path
  erase_path-Valid s t path [] v = tt
  erase_path-Valid s t path (a ∷ list) v = ground (arith, erase_path-Valid s t path list v.1)

  pub erase_paths-Valid :
      (s : Store P) (paths : List String) (list : List ℕ)
      → Valid s list
      → Valid s (erase_paths s paths list)
  unfolding erase_paths
  erase_paths-Valid s [] list v = v
  erase_paths-Valid s (path ∷ paths) list v =
      erase_paths-Valid s paths (erase_path s path list) (erase_path-Valid s s path list v)

  member-erase_path :
      (s : Store P) (path : String) (a : ℕ) (list : List ℕ)
      → member a (erase_path s path list) ≡ (member a list && not (str_eq (obj_path s a) path))
  unfolding erase_path
  member-erase_path s path a [] = refl
  member-erase_path s path a (b ∷ list) = elim (Bool-cases (a == b)) [
    | inl e ↦
        let same = (==_iff a b).0 e in
        rw same (
          ground (
            arith,
            subst
                (λ c.
                  member c (erase_path s path list)
                  ≡ (member c list && not (str_eq (obj_path s c) path)))
                same (member-erase_path s path a list),
          ))
    | inr e ↦ ground (arith, e, member-erase_path s path a list)
  ]

  -- Exactly the proxies with none of the paths stay.
  pub member-erase_paths :
      (s : Store P) (paths : List String) (a : ℕ) (list : List ℕ)
      → member a (erase_paths s paths list) ≡ (member a list && not (has_text (obj_path s a) paths))
  unfolding erase_paths
  member-erase_paths s [] a list = ground arith
  member-erase_paths s (path ∷ paths) a list = ground (
    arith,
    member-erase_paths s paths a (erase_path s path list),
    member-erase_path s path a list,
  )

-- The services of `m'` are the changed entries in their order, each the proxy that `kept` has under its
-- path or else one made after all those of `m`.
abbrev pub After : {V : Type 0} → List (String × V) → List ℕ → Manager → Manager → Type 0
After changed kept m m' =
    (paths_of m'.service_store m'.services ≡ map (λ entry. entry.0) changed)
    × Valid m'.service_store m'.services
    × AllChosen m.service_store kept (length m.service_store) changed m'.services
    × (m'.technologies ≡ m.technologies)

module _ {V : Type 0} ⦃g : GVariant V⦄ (create : String → Option String) (type : TechType) where
  -- A change that is processed without an exception makes the list of services exactly the changed
  -- entries, in their order: the object at each place has the entry's path, and it is the proxy that
  -- the list had under that path, if it was not removed, or else a newly made one. The technologies
  -- stay.
  pub process_services_changed-order :
      (removed : List String) (changed : List (String × V)) (m m' : Manager)
      → Valid m.service_store m.services
      → process_services_changed create type removed changed m ≡ (m', none)
      → After changed (erase_paths m.service_store removed m.services) m m'
  unfolding process_services_changed
  process_services_changed-order removed changed m m' valid h =
      let kept = erase_paths m.service_store removed m.services in
      let o =
        reorder-Ordered create serv_update serv_init changed m.service_store kept
          (erase_paths-Valid m.service_store removed m.services valid) in
      elim (Result-cases (reorder create serv_update serv_init kept m.service_store changed).1) [
        | inr (e, q) ↦ ground (arith, q)
        | inl (list, q) ↦
            let store = (reorder create serv_update serv_init kept m.service_store changed).0 in
            let n : Manager = record m { services = list; service_store = store } in
            let same : n ≡ m' = ground (arith, q, h) in
            let (paths, valid', chosen) = o.order list q in
            subst (After changed kept m) same (paths, valid', chosen, refl)
      ]

  -- A change that throws leaves in the list, of the proxies that were there, exactly those with none of
  -- the removed paths; no other proxy is in it.
  pub process_services_changed-thrown :
      (removed : List String) (changed : List (String × V)) (m m' : Manager) (e : Exception)
      → process_services_changed create type removed changed m ≡ (m', some e)
      → (a : ℕ)
      → member a m'.services
        ≡ (member a m.services && not (has_text (obj_path m.service_store a) removed))
  unfolding process_services_changed
  process_services_changed-thrown removed changed m m' e h a =
      let kept = erase_paths m.service_store removed m.services in
      elim (Result-cases (reorder create serv_update serv_init kept m.service_store changed).1) [
        | inl (list, q) ↦ ground (arith, q)
        | inr (x, q) ↦
            let same : kept ≡ m'.services = ground (arith, q, h) in
            rw (← same) (member-erase_paths m.service_store removed a m.services)
      ]
