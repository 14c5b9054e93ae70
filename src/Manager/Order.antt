-- ===== src/Manager/Order.antt =====
-- The order of the services after ServicesChanged: process_services_changed of
-- src/dbus/gconnman_manager.cpp.
use libcppconnman.Prelude.{
  ℕ, ◌<◌, ◌≡◌, refl, ◌∙◌, String, Option, none, some, List, [], ◌∷◌, Result, ok, arith, All, length,
  get_elem?, inl, inr, Option-cases, map, Result-cases, ap₂, subst, map_ok-eq-ok,
}
use libcppconnman.GVariant.{GVariant}
use libcppconnman.Props.{Update, update_properties}
use libcppconnman.Manager.Lists.{Store, obj_path, find_path, set_props}
use libcppconnman.Manager.Proxies.{refresh, reuse_or_make, reorder}
use libcppconnman.Manager.Paths.{
  Extends, Extends-refl, Extends-trans, find_path_found, find_path-Extends, Chosen, Entry,
  unless_thrown-Entry, make_proxy-Entry, get_elem?-set_path, length-set,
}

module _ {P : Type 0} where
  set_props-Extends : (s : Store P) (a : ℕ) (p : P) → Extends s (set_props s a p)
  unfolding set_props
  set_props-Extends s a p = elim (Option-cases (get_elem? s a)) [
    | inl e ↦ rw (e, set_props) (Extends-refl s)
    | inr (o, e) ↦
        rw (e, set_props)
          (record {
            grows = omega (arith, length-set s a (record o { props = p }));
            paths = λ i h. get_elem?-set_path s a i o p e;
          })
  ]

  -- Every address of the list has been made.
  abbrev pub Valid : Store P → List ℕ → Type 0
  Valid s = All (λ a. a < length s)

  pub Valid-Extends : (s t : Store P) (list : List ℕ) → Extends s t → Valid s list → Valid t list
  Valid-Extends s t [] x v = tt
  Valid-Extends s t (a ∷ list) x v = (omega (arith, x.grows, v.0), Valid-Extends s t list x v.1)

  abbrev pub paths_of : Store P → List ℕ → List String
  paths_of s = map (λ a. obj_path s a)

  paths_of-Extends :
      (s t : Store P) (list : List ℕ)
      → Extends s t
      → Valid s list
      → paths_of t list ≡ paths_of s list
  paths_of-Extends s t [] x v = refl
  paths_of-Extends s t (a ∷ list) x v = rw (x.paths a v.0, paths_of-Extends s t list x v.1)

-- Entry by entry, the proxy that the old list has under the path, or one made after `size` others.
abbrev pub AllChosen : {P V : Type 0} → Store P → List ℕ → ℕ → List (String × V) → List ℕ → Type 0
AllChosen s list size [] [] = Unit {0}
AllChosen s list size ((path, prop) ∷ changed) (a ∷ order) =
    Chosen (find_path s path list) size a × AllChosen s list size changed order
AllChosen s list size _ _ = ⊥

module _ {V P : Type 0} ⦃g : GVariant V⦄ (create : String → Option String) (update : Update V P)
    (init : P) where
  refresh-Entry :
      (s : Store P) (a : ℕ) (path : String) (v : V) (list : List ℕ)
      → Valid s list
      → find_path s path list ≡ some a
      → Entry path list s (refresh create update init s a v).0 (refresh create update init s a v).1
  unfolding refresh
  refresh-Entry s a path v list valid e =
      let here = find_path_found s path list a valid e in
      elim (Option-cases (get_elem? s a)) [
        | inl q ↦
            rw (q, refresh)
              (record { extends = Extends-refl s; found = λ b h. ground (arith, here, e, h) })
        | inr (o, q) ↦
            let read = update_properties update (g.children v) o.props in
            let x = set_props-Extends s a read.0 in
            rw (q, refresh)
              (unless_thrown-Entry read.1 path list s (set_props s a read.0) a x
                (x.paths a here.1 ∙ here.0, omega (arith, x.grows, here.1), rw e refl))
      ]

  pub reuse_or_make-Entry :
      (s : Store P) (path : String) (v : V) (list : List ℕ)
      → Valid s list
      → Entry path list s
          (reuse_or_make create update init list s (path, v)).0
          (reuse_or_make create update init list s (path, v)).1
  unfolding reuse_or_make
  reuse_or_make-Entry s path v list valid = elim (Option-cases (find_path s path list)) [
    | inl e ↦ rw (e, reuse_or_make) (make_proxy-Entry create update init s path v list e)
    | inr (a, e) ↦ rw (e, reuse_or_make) (refresh-Entry s a path v list valid e)
  ]

-- What a whole change makes of the old list.
pub record Ordered {P V : Type 0} (list : List ℕ) (changed : List (String × V)) (s t : Store P)
    (r : Result (List ℕ)) : Type 0 where
  pub extends : Extends s t
  pub order :
      (new : List ℕ)
      → r ≡ ok new
      → (paths_of t new ≡ map (λ entry. entry.0) changed)
        × Valid t new
        × AllChosen s list (length s) changed new

module _ {P V : Type 0} (s s₁ : Store P) (list : List ℕ) (valid : Valid s list)
    (x : Extends s s₁) where
  AllChosen-Extends :
      (changed : List (String × V)) (order : List ℕ)
      → AllChosen s₁ list (length s₁) changed order
      → AllChosen s list (length s) changed order
  AllChosen-Extends [] [] h = tt
  AllChosen-Extends [] (a ∷ order) h = h
  AllChosen-Extends ((path, prop) ∷ changed) [] h = h
  AllChosen-Extends ((path, prop) ∷ changed) (a ∷ order) h =
      let first = rw (find_path-Extends s s₁ path list valid x) at h.0 in
      (weaken (find_path s path list) first, AllChosen-Extends changed order h.1)
    where
      weaken : (o : Option ℕ) → Chosen o (length s₁) a → Chosen o (length s) a
      weaken none c = omega (arith, x.grows, c)
      weaken (some old) c = c

module _ {V P : Type 0} ⦃g : GVariant V⦄ (create : String → Option String) (update : Update V P)
    (init : P) where
  pub reorder-Ordered :
      (changed : List (String × V)) (s : Store P) (list : List ℕ)
      → Valid s list
      → Ordered list changed s
          (reorder create update init list s changed).0
          (reorder create update init list s changed).1
  unfolding reorder
  reorder-Ordered [] s list valid = record {
    extends = Extends-refl s;
    order = λ new h.
        let e : [] ≡ new = ground (arith, h) in
        subst (λ l. (paths_of s l ≡ []) × Valid s l × AllChosen {V = V} s list (length s) [] l) e
          (refl, tt, tt);
  }
  reorder-Ordered ((path, prop) ∷ changed) s list valid =
      let first = reuse_or_make-Entry create update init s path prop list valid in
      let s₁ = (reuse_or_make create update init list s (path, prop)).0 in
      let rest = reorder-Ordered changed s₁ list (Valid-Extends s s₁ list first.extends valid) in
      elim (Result-cases (reuse_or_make create update init list s (path, prop)).1) [
        | inr (e, q) ↦ rw (q, reorder) (record { extends = first.extends; order = λ new h. cc })
        | inl (a, q) ↦
            rw (q, reorder)
              (record {
                extends = Extends-trans s s₁ _ first.extends rest.extends;
                order = λ new h.
                    let t = (reorder create update init list s₁ changed).0 in
                    let (tail, tq, e) =
                      map_ok-eq-ok (λ (l : List ℕ). a ∷ l)
                        (reorder create update init list s₁ changed).1 h in
                    let (p, v, c) = rest.order tail tq in
                    let (at, lt, chosen) = first.found a q in
                    subst
                      (λ l.
                        (paths_of t l ≡ path ∷ map (λ entry. entry.0) changed)
                        × Valid t l
                        × AllChosen s list (length s) ((path, prop) ∷ changed) l)
                      e
                      (
                        ap₂ ◌∷◌ (rest.extends.paths a lt ∙ at) p,
                        (omega (arith, rest.extends.grows, lt), v),
                        (chosen, AllChosen-Extends s s₁ list valid first.extends changed tail c),
                      );
              })
      ]
