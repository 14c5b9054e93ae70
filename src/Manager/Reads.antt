-- ===== src/Manager/Reads.antt =====
-- The properties of the proxy that one changed entry finds or makes: the loop of
-- process_services_changed in src/dbus/gconnman_manager.cpp.
use libcppconnman.Prelude.{
  get_elem?-set, get_elem?-set_other, ℕ, zero, suc, ◌<◌, ◌≡◌, ◌≢◌, refl, sym, ◌∙◌, ap, ap₂, subst,
  String, Option, none, some, List, [], ◌∷◌, ◌++◌, ok, Exception, arith, length, get_elem?, set,
  inl, inr, Option-cases,
}
use libcppconnman.GVariant.{GVariant}
use libcppconnman.Props.{Update, update_properties}
use libcppconnman.Manager.Lists.{Object, Store, obj_path, find_path, set_props}
use libcppconnman.Manager.Proxies.{unless_thrown, make_proxy, refresh, reuse_or_make}
use libcppconnman.Manager.Paths.{find_path_found}
use libcppconnman.Manager.Order.{Valid}

module _ {ℓ} {A : Type ℓ} where
  get_elem?-new : (xs : List A) (x : A) → get_elem? (xs ++ x ∷ []) (length xs) ≡ some x
  get_elem?-new [] x = refl
  get_elem?-new (y ∷ xs) x = get_elem?-new xs x

  get_elem?-old :
      (xs : List A) (x : A) (b : ℕ) → b < length xs → get_elem? (xs ++ x ∷ []) b ≡ get_elem? xs b
  get_elem?-old [] x b h = elim h [ ]
  get_elem?-old (y ∷ xs) x zero h = refl
  get_elem?-old (y ∷ xs) x (suc b) h = get_elem?-old xs x b (omega arith)

  get_elem?-length : (xs : List A) → get_elem? xs (length xs) ≡ none
  get_elem?-length [] = refl
  get_elem?-length (y ∷ xs) = get_elem?-length xs

  get_elem?-some : (xs : List A) (b : ℕ) → b < length xs → (x : A) × (get_elem? xs b ≡ some x)
  get_elem?-some [] b h = elim h [ ]
  get_elem?-some (y ∷ xs) zero h = (y, refl)
  get_elem?-some (y ∷ xs) (suc b) h = get_elem?-some xs b (omega arith)

-- The properties at an address, or those of a new object where there is none.
abbrev pub props_at : {P : Type 0} → P → Store P → ℕ → P
props_at init s a = elim (get_elem? s a) [ some o ↦ o.props | none ↦ init ]

module _ {P : Type 0} (init : P) (s : Store P) where
  props_at-new : props_at init s (length s) ≡ init
  props_at-new = rw (get_elem?-length s, props_at) refl

  props_at-some : (a : ℕ) (o : Object P) → get_elem? s a ≡ some o → props_at init s a ≡ o.props
  props_at-some a o q = rw (q, props_at) refl

  set_props-some :
      (a : ℕ) (o : Object P) (p : P)
      → get_elem? s a ≡ some o
      → set_props s a p ≡ set s a (record o { props = p })
  unfolding set_props
  set_props-some a o p q = rw (q, set_props) refl

-- `t` is `s` but for the object at `a`, which has this path and these properties.
pub record Reads {P : Type 0} (s t : Store P) (a : ℕ) (path : String) (props : P) : Type 0 where
  pub here : get_elem? t a ≡ some (record { path = path; props = props })
  pub others : (b : ℕ) → b < length s → b ≢ a → get_elem? t b ≡ get_elem? s b

unless_thrown-ok :
    {P : Type 0} (thrown : Option Exception) (s t : Store P) (a b : ℕ)
    → unless_thrown thrown s a ≡ (t, ok b)
    → (s ≡ t) × (a ≡ b)
unfolding unless_thrown
unless_thrown-ok none s t a b h = (ap (λ r. r.0) h, ground (arith, h))
unless_thrown-ok (some e) s t a b h = cc

-- The properties after the dictionary `v` was read into `p`.
abbrev pub read_into : {V P : Type 0} → ⦃g : GVariant V⦄ → Update V P → P → V → P
read_into ⦃g⦄ update p v = (update_properties update (g.children v) p).0

module _ {V P : Type 0} ⦃g : GVariant V⦄ (create : String → Option String) (update : Update V P)
    (init : P) where
  make_proxy-Reads :
      (s t : Store P) (path : String) (v : V) (a : ℕ)
      → make_proxy create update init s path v ≡ (t, ok a)
      → Reads s t a path (read_into update (props_at init s a) v)
  unfolding make_proxy
  make_proxy-Reads s t path v a h = elim (Option-cases (create path)) [
    | inr (message, e) ↦ ground (arith, e, h)
    | inl e ↦
        let read = update_properties update (g.children v) init in
        let new : Object P = record { path = path; props = read.0 } in
        let (same, at) =
          unless_thrown-ok read.1 (s ++ new ∷ []) t (length s) a (rw (e, make_proxy) at h) in
        subst (λ u. Reads s u a path (read_into update (props_at init s a) v)) same
          (subst (λ b. Reads s (s ++ new ∷ []) b path (read_into update (props_at init s b) v)) at
            (record {
              here =
                  get_elem?-new s new
                  ∙ ap (λ p. some (record { path = path; props = read_into update p v }))
                      (sym (props_at-new init s));
              others = λ b l n. get_elem?-old s new b l;
            }))
  ]

  refresh-some :
      (s : Store P) (v : V) (a : ℕ) (o : Object P)
      → get_elem? s a ≡ some o
      → refresh create update init s a v
        ≡ unless_thrown
            (update_properties update (g.children v) o.props).1
            (set s a (record o { props = read_into update o.props v }))
            a
  unfolding refresh
  refresh-some s v a o q =
      rw (q, refresh)
        (ap (λ u. unless_thrown (update_properties update (g.children v) o.props).1 u a)
          (set_props-some init s a o (read_into update o.props v) q))

  refresh-Reads :
      (s t : Store P) (path : String) (v : V) (a b : ℕ)
      → obj_path s a ≡ path
      → a < length s
      → refresh create update init s a v ≡ (t, ok b)
      → Reads s t b path (read_into update (props_at init s b) v)
  unfolding obj_path
  refresh-Reads s t path v a b p l h =
      let (o, q) = get_elem?-some s a l in
      let new : Object P = record o { props = read_into update o.props v } in
      let (same, at) =
        unless_thrown-ok (update_properties update (g.children v) o.props).1 (set s a new) t a b
          (sym (refresh-some s v a o q) ∙ h) in
      let named : o.path ≡ path = ground (arith, p, q) in
      subst (λ u. Reads s u b path (read_into update (props_at init s b) v)) same
        (subst (λ c. Reads s (set s a new) c path (read_into update (props_at init s c) v)) at
          (record {
            here =
                get_elem?-set s a new l
                ∙ ap₂ (λ w r. some (record { path = w; props = read_into update r v })) named
                    (sym (props_at-some init s a o q));
            others = λ c k n. get_elem?-set_other s a new c n;
          }))

  -- The proxy that an entry finds or makes has the entry's path and the properties that the entry's
  -- dictionary makes of its own, or of the initial ones if it is new; no other object that was there
  -- changes.
  pub reuse_or_make-Reads :
      (list : List ℕ) (s t : Store P) (path : String) (v : V) (a : ℕ)
      → Valid s list
      → reuse_or_make create update init list s (path, v) ≡ (t, ok a)
      → Reads s t a path (read_into update (props_at init s a) v)
  unfolding reuse_or_make
  reuse_or_make-Reads list s t path v a valid h = elim (Option-cases (find_path s path list)) [
    | inl e ↦ make_proxy-Reads s t path v a (rw (e, reuse_or_make) at h)
    | inr (old, e) ↦
        let (p, l) = find_path_found s path list old valid e in
        refresh-Reads s t path v old a p l (rw (e, reuse_or_make) at h)
  ]
