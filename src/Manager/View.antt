-- ===== src/Manager/View.antt =====
-- The abstract view of the manager's services: an ordered list of paths with properties, without
-- addresses (src/dbus/gconnman_manager.cpp).
use libcppconnman.Prelude.{
  ℕ, zero, suc, ◌≤◌, ◌≡◌, ◌≢◌, refl, sym, ◌∙◌, ap, String, false, Bool-cases, none, List, [], ◌∷◌,
  map, arith, length, get_elem?, str_eq, eq_iff, if◌then◌else◌, inl, inr, ==_iff, ◌==◌,
}
use libcppconnman.GVariant.{GVariant}
use libcppconnman.Props.{Update}
use libcppconnman.Manager.Lists.{Store, obj_path, find_path, erase_path, erase_paths}
use libcppconnman.Manager.Changes.{has_text}
use libcppconnman.Manager.Paths.{Extends, Chosen}
use libcppconnman.Manager.Order.{Valid}
use libcppconnman.Manager.Reads.{Reads, props_at, read_into}

module _ {P : Type 0} (init : P) where
  abbrev pub view : Store P → List ℕ → List (String × P)
  view s list = map (λ a. (obj_path s a, props_at init s a)) list

  -- The properties under a path, or those of a new object.
  abbrev pub lookup : String → List (String × P) → P
  lookup path [] = init
  lookup path ((p, props) ∷ services) =
      let rest = lookup path services in if str_eq p path then props else rest

  abbrev pub without : List String → List (String × P) → List (String × P)
  without removed [] = []
  without removed ((p, props) ∷ services) =
      let rest = without removed services in if has_text p removed then rest else (p, props) ∷ rest

  -- What ServicesChanged promises: the changed entries in their order, each with what its dictionary
  -- makes of the properties that were under its path, unless that was removed.
  abbrev pub updated :
      {V : Type 0}
      → ⦃g : GVariant V⦄ → Update V P
      → List (String × P)
      → List (String × V)
      → List (String × P)
  updated update services [] = []
  updated update services ((path, dict) ∷ changed) =
      (path, read_into update (lookup path services) dict) ∷ updated update services changed

  view-erase_path :
      (s : Store P) (path : String) (list : List ℕ)
      → view s (erase_path s path list) ≡ without (path ∷ []) (view s list)
  unfolding erase_path
  view-erase_path s path [] = refl
  view-erase_path s path (a ∷ list) = elim (Bool-cases (str_eq (obj_path s a) path)) [
    | inl e ↦ rw (e, view-erase_path s path list) (ground (arith, e))
    | inr e ↦ rw (e, view-erase_path s path list) (ground (arith, e))
  ]

  without-without :
      (path : String) (removed : List String) (services : List (String × P))
      → without removed (without (path ∷ []) services) ≡ without (path ∷ removed) services
  without-without path removed [] = refl
  without-without path removed ((p, props) ∷ services) =
      ground (arith, without-without path removed services)

  pub view-erase_paths :
      (s : Store P) (removed : List String) (list : List ℕ)
      → view s (erase_paths s removed list) ≡ without removed (view s list)
  unfolding erase_paths
  view-erase_paths s [] list = without-none (view s list)
    where
      without-none : (services : List (String × P)) → services ≡ without [] services
      without-none [] = refl
      without-none ((p, props) ∷ services) = ap (λ r. (p, props) ∷ r) (without-none services)
  view-erase_paths s (path ∷ removed) list =
      view-erase_paths s removed (erase_path s path list)
      ∙ ap (without removed) (view-erase_path s path list)
      ∙ without-without path removed (view s list)

  get_elem?-beyond : (s : Store P) (a : ℕ) → length s ≤ a → get_elem? s a ≡ none
  get_elem?-beyond [] a h = refl
  get_elem?-beyond (o ∷ s) zero h = elim h [ ]
  get_elem?-beyond (o ∷ s) (suc a) h = get_elem?-beyond s a (omega (arith, h))

  -- The properties that an entry finds are those of its path in the view.
  pub lookup-Chosen :
      (s : Store P) (path : String) (list : List ℕ) (a : ℕ)
      → Chosen (find_path s path list) (length s) a
      → lookup path (view s list) ≡ props_at init s a
  unfolding find_path
  lookup-Chosen s path [] a c = rw (get_elem?-beyond s a c, props_at) refl
  lookup-Chosen s path (b ∷ list) a c = elim (Bool-cases (str_eq (obj_path s b) path)) [
    | inl e ↦ let same : a ≡ b = rw (e, find_path) at c in rw (e, same) refl
    | inr e ↦ rw e (lookup-Chosen s path list a (rw (e, find_path) at c))
  ]

  -- What is under one path is as it was when only an object with another path has changed.
  pub lookup-Reads :
      (s t : Store P) (a : ℕ) (p q : String) (props : P) (list : List ℕ)
      → Reads s t a p props
      → Extends s t
      → obj_path t a ≡ p
      → p ≢ q
      → Valid s list
      → lookup q (view t list) ≡ lookup q (view s list)
  lookup-Reads s t a p q props [] reads x at ne valid = refl
  lookup-Reads s t a p q props (b ∷ list) reads x at ne valid =
      let rest = lookup-Reads s t a p q props list reads x at ne valid.1 in
      let path = x.paths b valid.0 in
      elim (Bool-cases (b == a)) [
        | inl e ↦
            let other : obj_path s b ≢ q =
              λ h. ne (sym at ∙ ap (obj_path t) (sym ((==_iff b a).0 e)) ∙ path ∙ h) in
            let miss : str_eq (obj_path s b) q ≡ false =
              ground (arith, eq_iff (obj_path s b) q, other) in
            rw (path, miss) rest
        | inr e ↦
            let kept = reads.others b valid.0 (λ h. ground (arith, e, (==_iff b a).1 h)) in
            let props : props_at init t b ≡ props_at init s b = rw (kept, props_at) refl in
            rw (path, props, rest) refl
      ]
