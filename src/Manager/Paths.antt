-- ===== src/Manager/Paths.antt =====
-- The store only grows, and no object changes its path: what the handlers of the manager do to it.
use libcppconnman.Prelude.{
  ℕ, ◌<◌, ◌≤◌, ◌≡◌, refl, ◌∙◌, subst, String, Bool-cases, Option, none, some, List, [], ◌∷◌, ◌++◌,
  Result, ok, Exception, arith, All, length, length-append, get_elem?, set, str_eq, eq_iff, inl,
  inr, Option-cases, zero, suc,
}
use libcppconnman.GVariant.{GVariant}
use libcppconnman.Props.{Update, update_properties}
use libcppconnman.Manager.Lists.{Object, Store, obj_path, find_path}
use libcppconnman.Manager.Proxies.{make_proxy, unless_thrown}

module _ {P : Type 0} where
  pub get_elem?-set_path :
      (store : Store P) (a i : ℕ) (o : Object P) (p : P)
      → get_elem? store a ≡ some o
      → obj_path (set store a (record o { props = p })) i ≡ obj_path store i
  unfolding obj_path
  get_elem?-set_path [] a i o p h = refl
  get_elem?-set_path (x ∷ store) zero zero o p h = ground (arith, h)
  get_elem?-set_path (x ∷ store) zero (suc i) o p h = refl
  get_elem?-set_path (x ∷ store) (suc a) zero o p h = refl
  get_elem?-set_path (x ∷ store) (suc a) (suc i) o p h = get_elem?-set_path store a i o p h

  pub length-set : (store : Store P) (a : ℕ) (o : Object P) → length (set store a o) ≡ length store
  length-set [] a o = refl
  length-set (x ∷ store) zero o = refl
  length-set (x ∷ store) (suc a) o = omega (arith, length-set store a o)

  get_elem?-append_lt :
      (store : Store P) (o : Object P) (a : ℕ)
      → a < length store
      → obj_path (store ++ o ∷ []) a ≡ obj_path store a
  unfolding obj_path
  get_elem?-append_lt [] o a h = elim h [ ]
  get_elem?-append_lt (x ∷ store) o zero h = refl
  get_elem?-append_lt (x ∷ store) o (suc a) h = get_elem?-append_lt store o a (omega arith)

  obj_path-append_new :
      (store : Store P) (o : Object P) → obj_path (store ++ o ∷ []) (length store) ≡ o.path
  unfolding obj_path
  obj_path-append_new [] o = refl
  obj_path-append_new (x ∷ store) o = obj_path-append_new store o

  -- `t` has every object of `s`, under its path.
  pub record Extends (s t : Store P) : Type 0 where
    pub grows : length s ≤ length t
    pub paths : (a : ℕ) → a < length s → obj_path t a ≡ obj_path s a

  pub Extends-refl : (s : Store P) → Extends s s
  Extends-refl s = record { grows = omega arith; paths = λ a h. refl }

  pub Extends-trans : (s t u : Store P) → Extends s t → Extends t u → Extends s u
  Extends-trans s t u p q = record {
    grows = omega (arith, p.grows, q.grows);
    paths = λ a h. q.paths a (omega (arith, p.grows)) ∙ p.paths a h;
  }

  pub find_path_found :
      (store : Store P) (path : String) (list : List ℕ) (a : ℕ)
      → All (λ b. b < length store) list
      → find_path store path list ≡ some a
      → (obj_path store a ≡ path) × (a < length store)
  unfolding find_path
  find_path_found store path [] a v h = cc
  find_path_found store path (b ∷ list) a v h = elim (Bool-cases (str_eq (obj_path store b) path)) [
    | inl e ↦ ground (arith, e, h, eq_iff (obj_path store b) path, v.0)
    | inr e ↦ find_path_found store path list a v.1 (ground (arith, e, h))
  ]

  -- The same proxies are found after the store has grown.
  pub find_path-Extends :
      (s t : Store P) (path : String) (list : List ℕ)
      → All (λ b. b < length s) list
      → Extends s t
      → find_path t path list ≡ find_path s path list
  unfolding find_path
  find_path-Extends s t path [] v x = refl
  find_path-Extends s t path (b ∷ list) v x =
      rw (x.paths b v.0, find_path-Extends s t path list v.1 x)

-- The proxy of an entry: the one that the list has under the path, or a new one.
abbrev pub Chosen : Option ℕ → ℕ → ℕ → Type 0
Chosen (some old) size a = a ≡ old
Chosen none size a = size ≤ a

-- What the step from `s` to `t` with the result `r` makes of one entry with this path.
pub record Entry {P : Type 0} (path : String) (list : List ℕ) (s t : Store P) (r : Result ℕ)
    : Type 0 where
  pub extends : Extends s t
  pub found :
      (a : ℕ)
      → r ≡ ok a
      → (obj_path t a ≡ path) × (a < length t) × Chosen (find_path s path list) (length s) a

module _ {P : Type 0} where
  pub unless_thrown-Entry :
      (thrown : Option Exception) (path : String) (list : List ℕ) (s t : Store P) (a : ℕ)
      → Extends s t
      → (obj_path t a ≡ path) × (a < length t) × Chosen (find_path s path list) (length s) a
      → Entry path list s (unless_thrown thrown t a).0 (unless_thrown thrown t a).1
  unfolding unless_thrown
  unless_thrown-Entry none path list s t a x f = record {
    extends = x;
    found = λ b h.
        let e : a ≡ b = ground (arith, h) in
        subst
          (λ c.
            (obj_path t c ≡ path) × (c < length t) × Chosen (find_path s path list) (length s) c)
          e f;
  }
  unless_thrown-Entry (some e) path list s t a x f = record { extends = x; found = λ b h. cc }

  append-Extends : (s : Store P) (o : Object P) → Extends s (s ++ o ∷ [])
  append-Extends s o = record {
    grows = omega (arith, length-append s (o ∷ []));
    paths = λ a h. get_elem?-append_lt s o a h;
  }

module _ {V P : Type 0} ⦃g : GVariant V⦄ (create : String → Option String) (update : Update V P)
    (init : P) where
  pub make_proxy-Entry :
      (s : Store P) (path : String) (v : V) (list : List ℕ)
      → find_path s path list ≡ none
      → Entry path list s
          (make_proxy create update init s path v).0
          (make_proxy create update init s path v).1
  unfolding make_proxy
  make_proxy-Entry s path v list n = elim (Option-cases (create path)) [
    | inr (message, e) ↦ rw (e, make_proxy) (record { extends = Extends-refl s; found = λ a h. cc })
    | inl e ↦
        let props = (update_properties update (g.children v) init).0 in
        let new : Object P = record { path = path; props = props } in
        rw (e, make_proxy)
          (unless_thrown-Entry (update_properties update (g.children v) init).1 path list s
            (s ++ new ∷ []) (length s) (append-Extends s new)
            (
              obj_path-append_new s new,
              omega (arith, length-append s (new ∷ [])),
              rw n (omega arith),
            ))
  ]
