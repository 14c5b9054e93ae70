-- ===== src/Manager/Refinement.antt =====
-- ServicesChanged refines the update of an ordered list of paths with properties
-- (src/dbus/gconnman_manager.cpp).
use libcppconnman.Prelude.{
  ℕ, ◌<◌, ◌≡◌, ◌≢◌, refl, sym, ◌∙◌, ap, ap₂, subst, String, Option, none, some, List, [], ◌∷◌, ok,
  arith, All, length, get_elem?, inl, inr, map_ok-eq-ok, Result-cases, Result, map_ok,
}
use libcppconnman.GVariant.{GVariant}
use libcppconnman.Props.{Update}
use libcppconnman.Service.Props.{serv_init, serv_update}
use libcppconnman.Technology.Enums.{TechType}
use libcppconnman.Manager.Lists.{Object, Store, obj_path, find_path, erase_paths}
use libcppconnman.Manager.Proxies.{reuse_or_make, reorder}
use libcppconnman.Manager.Defs.{Manager, process_services_changed}
use libcppconnman.Manager.Paths.{Extends, Chosen}
use libcppconnman.Manager.Order.{Valid, Valid-Extends, reuse_or_make-Entry}
use libcppconnman.Manager.Changes.{erase_paths-Valid}
use libcppconnman.Manager.Reads.{Reads, props_at, read_into, reuse_or_make-Reads}
use libcppconnman.Manager.View.{
  view, lookup, without, updated, view-erase_paths, lookup-Chosen, lookup-Reads,
}

module _ {V : Type 0} where
  -- None of the entries has this path.
  abbrev pub Lacks : String → List (String × V) → Type 0
  Lacks path = All (λ entry. path ≢ entry.0)

  abbrev pub DistinctPaths : List (String × V) → Type 0
  DistinctPaths [] = Unit {0}
  DistinctPaths ((path, dict) ∷ changed) = Lacks path changed × DistinctPaths changed

module _ {P : Type 0} where
  obj_path-some :
      (s : Store P) (a : ℕ) (o : Object P) → get_elem? s a ≡ some o → obj_path s a ≡ o.path
  unfolding obj_path
  obj_path-some s a o h = rw (h, obj_path) refl

module _ {V P : Type 0} ⦃g : GVariant V⦄ (create : String → Option String) (update : Update V P)
    (init : P) where
  -- The first entry of a change that does not throw, and the others.
  record Split (s t : Store P) (list new : List ℕ) (path : String) (dict : V)
      (changed : List (String × V)) : Type 0 where
    s₁ : Store P
    a : ℕ
    tail : List ℕ
    reads : Reads s s₁ a path (read_into update (props_at init s a) dict)
    extends : Extends s s₁
    at : obj_path s₁ a ≡ path
    made : a < length s₁
    chosen : Chosen (find_path s path list) (length s) a
    valid : Valid s₁ list
    rest : reorder create update init list s₁ changed ≡ (t, ok tail)
    all : new ≡ a ∷ tail

  reorder-Split :
      (changed : List (String × V)) (s t : Store P) (list new : List ℕ) (path : String) (dict : V)
      → Valid s list
      → reorder create update init list s ((path, dict) ∷ changed) ≡ (t, ok new)
      → Split s t list new path dict changed
  unfolding reorder
  reorder-Split changed s t list new path dict valid h =
      let entry = reuse_or_make-Entry create update init s path dict list valid in
      let (s₁, found) = reuse_or_make create update init list s (path, dict) in
      elim (Result-cases found) [
        | inr (e, q) ↦ cc (rw (q, reorder) at h)
        | inl (a, q) ↦
            let (at, made, chosen) = entry.found a q in
            let (t', after) = reorder create update init list s₁ changed in
            let k : ◌≡◌ {A = Store P × Result (List ℕ)} (t', map_ok (λ l. a ∷ l) after)
                (t, ok new) =
              rw (q, reorder) at h in
            let (tail, ended, all) = map_ok-eq-ok (λ (l : List ℕ). a ∷ l) after (ap (λ r. r.1) k) in
            record {
              s₁ = s₁;
              a = a;
              tail = tail;
              reads =
                  reuse_or_make-Reads create update init list s s₁ path dict a valid
                    (ap (λ r. (s₁, r)) q);
              extends = entry.extends;
              at = at;
              made = made;
              chosen = chosen;
              valid = Valid-Extends s s₁ list entry.extends valid;
              rest = ap₂ (λ u r. (u, r)) (ap (λ r. r.0) k) ended;
              all = sym all;
            }
      ]

  reorder-nil :
      (s t : Store P) (list new : List ℕ)
      → reorder create update init list s [] ≡ (t, ok new)
      → (s ≡ t) × ([] ≡ new)
  unfolding reorder
  reorder-nil s t list new h = (ap (λ r. r.0) h, ground (arith, ap (λ r. r.1) h))

  -- An object whose path no entry has is left as it is.
  reorder-keeps :
      (changed : List (String × V)) (s t : Store P) (list new : List ℕ) (b : ℕ)
      → Valid s list
      → b < length s
      → Lacks (obj_path s b) changed
      → reorder create update init list s changed ≡ (t, ok new)
      → get_elem? t b ≡ get_elem? s b
  reorder-keeps [] s t list new b valid l lacks h =
      ap (λ u. get_elem? u b) (sym (reorder-nil s t list new h).0)
  reorder-keeps ((path, dict) ∷ changed) s t list new b valid l lacks h =
      let split = reorder-Split changed s t list new path dict valid h in
      let kept = split.extends.paths b l in
      let ne : b ≢ split.a = λ q. lacks.0 (sym kept ∙ ap (obj_path split.s₁) q ∙ split.at) in
      let l₁ : b < length split.s₁ = omega (arith, split.extends.grows, l) in
      let lacks₁ : Lacks (obj_path split.s₁ b) changed =
        subst (λ p. Lacks p changed) (sym kept) lacks.1 in
      reorder-keeps changed split.s₁ t list split.tail b split.valid l₁ lacks₁ split.rest
      ∙ split.reads.others b l ne

  updated-lookup :
      (changed : List (String × V)) (services services₁ : List (String × P))
      → All (λ entry. lookup init entry.0 services₁ ≡ lookup init entry.0 services) changed
      → updated init update services₁ changed ≡ updated init update services changed
  updated-lookup [] services services₁ h = refl
  updated-lookup ((path, dict) ∷ changed) services services₁ h =
      rw (h.0, updated-lookup changed services services₁ h.1) refl

  -- What the other entries find is as it was before the first.
  lookups-kept :
      (s s₁ : Store P) (list : List ℕ) (a : ℕ) (path : String) (props : P)
      (changed : List (String × V))
      → Reads s s₁ a path props
      → Extends s s₁
      → obj_path s₁ a ≡ path
      → Valid s list
      → Lacks path changed
      → All
          (λ entry.
            lookup init entry.0 (view init s₁ list) ≡ lookup init entry.0 (view init s list))
          changed
  lookups-kept s s₁ list a path props [] reads x at valid lacks = tt
  lookups-kept s s₁ list a path props ((q, dict) ∷ changed) reads x at valid lacks = (
    lookup-Reads init s s₁ a path q props list reads x at lacks.0 valid,
    lookups-kept s s₁ list a path props changed reads x at valid lacks.1,
  )

  pub reorder-updated :
      (changed : List (String × V)) (s t : Store P) (list new : List ℕ)
      → Valid s list
      → DistinctPaths changed
      → reorder create update init list s changed ≡ (t, ok new)
      → view init t new ≡ updated init update (view init s list) changed
  reorder-updated [] s t list new valid d h = ap (view init t) (sym (reorder-nil s t list new h).1)
  reorder-updated ((path, dict) ∷ changed) s t list new valid d h =
      let split = reorder-Split changed s t list new path dict valid h in
      let s₁ = split.s₁ in
      let a = split.a in
      let lacks : Lacks (obj_path s₁ a) changed = subst (λ p. Lacks p changed) (sym split.at) d.0 in
      let kept =
        reorder-keeps changed s₁ t list split.tail a split.valid split.made lacks split.rest in
      let here = kept ∙ split.reads.here in
      let name : obj_path t a ≡ path = obj_path-some t a _ here in
      let found = lookup-Chosen init s path list a split.chosen in
      let props : props_at init t a ≡ read_into update (lookup init path (view init s list)) dict =
        rw (here, props_at) (ap (λ p. read_into update p dict) (sym found)) in
      let others =
        lookups-kept s s₁ list a path _ changed split.reads split.extends split.at valid d.0 in
      ap (view init t) split.all
      ∙ ap₂ ◌∷◌ (ap₂ (λ p r. (p, r)) name props) (
          reorder-updated changed s₁ t list split.tail split.valid d.1 split.rest
          ∙ updated-lookup changed (view init s list) (view init s₁ list) others)

module _ {V : Type 0} ⦃g : GVariant V⦄ (create : String → Option String) (type : TechType) where
  -- Where no two changed entries have the same path, a ServicesChanged that is processed without an
  -- exception makes the services, seen as an ordered list of paths with properties, exactly the changed
  -- entries in their order, each with what its dictionary makes of the properties that the list had
  -- under its path, or of the initial ones if it had none or the path was removed.
  pub process_services_changed-updated :
      (removed : List String) (changed : List (String × V)) (m m' : Manager)
      → Valid m.service_store m.services
      → DistinctPaths changed
      → process_services_changed create type removed changed m ≡ (m', none)
      → view serv_init m'.service_store m'.services
        ≡ updated serv_init serv_update
            (without serv_init removed (view serv_init m.service_store m.services))
            changed
  unfolding process_services_changed
  process_services_changed-updated removed changed m m' valid d h =
      let s = m.service_store in
      let kept = erase_paths s removed m.services in
      let (t, order) = reorder create serv_update serv_init kept s changed in
      elim (Result-cases order) [
        | inr (e, q) ↦ ground (arith, q)
        | inl (list, q) ↦
            let n : Manager = record m { services = list; service_store = t } in
            let same : n ≡ m' = ground (arith, q, h) in
            subst
              (λ n'.
                view serv_init n'.service_store n'.services
                ≡ updated serv_init serv_update
                    (without serv_init removed (view serv_init s m.services)) changed)
              same
              (reorder-updated create serv_update serv_init changed s t kept list
                  (erase_paths-Valid s removed m.services valid) d (ap (λ r. (t, r)) q)
                ∙ ap (λ v. updated serv_init serv_update v changed)
                    (view-erase_paths serv_init s removed m.services))
      ]
