-- ===== src/Signatures/Getters.antt =====
-- When a reader of properties does not depend on what GLib's getters answer for a value that is not of
-- their type (include/amarula/dbus/gproxy.hpp, src/dbus/gdbus_private.hpp).
use libcppconnman.Prelude.{
  ◌≡◌, refl, String, none, some, List, [], ◌∷◌, All, Result, ok, ◌⊎◌, inl, inr, subst, ap, ap₂, ◌∙◌,
  str_eq, eq_iff, if◌then◌else◌, Bool-cases, map, ◌>>=◌, Result-cases, map_ok, arith,
}
use libcppconnman.GVariant.{GVariant}
use libcppconnman.GVariant.Vectors.{as_to_vector, as_to_enum_vector, items_to_enums}
use libcppconnman.EnumMap.{EnumStringMap, from_string}
use libcppconnman.Props.{cases, Update, key_of, value_of, update_property, update_properties, parse}
use libcppconnman.Signatures.{look_up}

-- Two interfaces that answer the same wherever GLib documents an answer: a getter for a value of its
-- type, the children of a container, and the test of a type for any value. `HasType` says which type
-- a value has.
pub record Agree {V : Type 0} (HasType : V → String → Type 0) (g h : GVariant V) : Type 0 where
  pub string : (v : V) → HasType v "s" → g.get_string v ≡ h.get_string v
  pub boolean : (v : V) → HasType v "b" → g.get_boolean v ≡ h.get_boolean v
  pub byte : (v : V) → HasType v "y" → g.get_byte v ≡ h.get_byte v
  pub uint16 : (v : V) → HasType v "q" → g.get_uint16 v ≡ h.get_uint16 v
  pub int32 : (v : V) → HasType v "i" → g.get_int32 v ≡ h.get_int32 v
  pub uint64 : (v : V) → HasType v "t" → g.get_uint64 v ≡ h.get_uint64 v
  pub variant : (v : V) → HasType v "v" → g.get_variant v ≡ h.get_variant v
  pub is_of_type : (v : V) (t : String) → g.is_of_type v t ≡ h.is_of_type v t
  pub strings : (v : V) → HasType v "as" → g.children v ≡ h.children v
  pub count_strings : (v : V) → HasType v "as" → g.n_children v ≡ h.n_children v
  pub entries : (v : V) → HasType v "a{sv}" → g.children v ≡ h.children v
  pub count_entries : (v : V) → HasType v "a{sv}" → g.n_children v ≡ h.n_children v
  pub key : (e : V) → HasType e "{sv}" → g.get_child_value e 0 ≡ h.get_child_value e 0
  pub value : (e : V) → HasType e "{sv}" → g.get_child_value e 1 ≡ h.get_child_value e 1
  -- the types of what containers hold
  pub strings-typed : (v : V) → HasType v "as" → All (λ c. HasType c "s") (g.children v)
  pub entries-typed : (v : V) → HasType v "a{sv}" → All (λ c. HasType c "{sv}") (g.children v)
  pub key-typed : (e : V) → HasType e "{sv}" → HasType (g.get_child_value e 0) "s"
  pub value-typed : (e : V) → HasType e "{sv}" → HasType (g.get_child_value e 1) "v"

infixr 4 ◌also◌
-- Two chains with the same keys, whose branches do the same for a value that is right for their key.
pub data Aligned {V P : Type 0} (Right : String → V → Type 0)
    : List (String × (V → P → Result P)) → List (String × (V → P → Result P)) → Type 0 where
  no_branch : Aligned Right [] []
  ◌also◌ :
      {key : String} {a b : V → P → Result P} {xs ys : List (String × (V → P → Result P))}
      → ((v : V) (p : P) → Right key v → a v p ≡ b v p)
      → Aligned Right xs ys
      → Aligned Right ((key, a) ∷ xs) ((key, b) ∷ ys)

pub cases-eq :
    {V P : Type 0} {Right : String → V → Type 0} {xs ys : List (String × (V → P → Result P))}
    → Aligned Right xs ys
    → (key : String) (v : V) (p : P) → Right key v
    → cases xs key v p ≡ cases ys key v p
cases-eq no_branch key v p r = refl
cases-eq {Right = Right} (◌also◌ {key = k} agree rest) key v p r =
    elim (Bool-cases (str_eq key k)) [
      | inl e ↦ rw (e) (agree v p (subst (λ j. Right j v) ((eq_iff key k).0 e) r))
      | inr n ↦ rw (n) (cases-eq rest key v p r)
    ]

-- A value is right for a key that has no type, or if it has that type.
abbrev pub Typed :
    {V : Type 0} → (V → String → Type 0) → List (String × String) → String → V → Type 0
Typed HasType types key v =
    (look_up key types ≡ none) ⊎ ((t : String) × (look_up key types ≡ some t) × HasType v t)

pub typed_at :
    {V : Type 0} (HasType : V → String → Type 0) (types : List (String × String)) (key t : String)
    (v : V)
    → look_up key types ≡ some t
    → Typed HasType types key v
    → HasType v t
typed_at HasType types key t v e (inl n) = cc
typed_at HasType types key t v e (inr (t', e', h)) = subst (HasType v) (cc) h

-- An entry of a dictionary whose value is right for its key.
abbrev pub Entry :
    {V : Type 0} → GVariant V → (V → String → Type 0) → (String → V → Type 0) → V → Type 0
Entry g HasType Right e = HasType e "{sv}" × Right (key_of ⦃g = g⦄ e) (value_of ⦃g = g⦄ e)

module _ {V : Type 0} {HasType : V → String → Type 0} {g h : GVariant V}
    (agree : Agree HasType g h) where
  -- The getter of a type answers the same for the value of a key of that type.
  module _ (types : List (String × String)) where
    pub string_at :
        (key : String) (v : V)
        → look_up key types ≡ some "s"
        → Typed HasType types key v
        → g.get_string v ≡ h.get_string v
    string_at key v e r = agree.string v (typed_at HasType types key "s" v e r)

    pub boolean_at :
        (key : String) (v : V)
        → look_up key types ≡ some "b"
        → Typed HasType types key v
        → g.get_boolean v ≡ h.get_boolean v
    boolean_at key v e r = agree.boolean v (typed_at HasType types key "b" v e r)

    pub byte_at :
        (key : String) (v : V)
        → look_up key types ≡ some "y"
        → Typed HasType types key v
        → g.get_byte v ≡ h.get_byte v
    byte_at key v e r = agree.byte v (typed_at HasType types key "y" v e r)

    pub uint16_at :
        (key : String) (v : V)
        → look_up key types ≡ some "q"
        → Typed HasType types key v
        → g.get_uint16 v ≡ h.get_uint16 v
    uint16_at key v e r = agree.uint16 v (typed_at HasType types key "q" v e r)

    pub int32_at :
        (key : String) (v : V)
        → look_up key types ≡ some "i"
        → Typed HasType types key v
        → g.get_int32 v ≡ h.get_int32 v
    int32_at key v e r = agree.int32 v (typed_at HasType types key "i" v e r)

    pub uint64_at :
        (key : String) (v : V)
        → look_up key types ≡ some "t"
        → Typed HasType types key v
        → g.get_uint64 v ≡ h.get_uint64 v
    uint64_at key v e r = agree.uint64 v (typed_at HasType types key "t" v e r)

  key_of-eq : (e : V) → HasType e "{sv}" → key_of ⦃g = g⦄ e ≡ key_of ⦃g = h⦄ e
  key_of-eq e t = agree.string _ (agree.key-typed e t) ∙ ap (λ c. h.get_string c) (agree.key e t)

  value_of-eq : (e : V) → HasType e "{sv}" → value_of ⦃g = g⦄ e ≡ value_of ⦃g = h⦄ e
  value_of-eq e t =
      agree.variant _ (agree.value-typed e t) ∙ ap (λ c. h.get_variant c) (agree.value e t)

  module _ {P : Type 0} (Right : String → V → Type 0) (u w : Update V P)
      (same : (key : String) (v : V) (p : P) → Right key v → u key v p ≡ w key v p) where
    step-eq :
        (e : V) (p : P)
        → Entry g HasType Right e
        → u (key_of ⦃g = g⦄ e) (value_of ⦃g = g⦄ e) p ≡ w (key_of ⦃g = h⦄ e) (value_of ⦃g = h⦄ e) p
    step-eq e p (t, r) = same _ _ p r ∙ ap₂ (λ k v. w k v p) (key_of-eq e t) (value_of-eq e t)

    pub update_properties-eq :
        (d : List V) (p : P)
        → All (Entry g HasType Right) d
        → update_properties ⦃g = g⦄ u d p ≡ update_properties ⦃g = h⦄ w d p
    unfolding update_properties update_property
    update_properties-eq [] p a = refl
    update_properties-eq (e ∷ d) p (r, a) =
        let here = step-eq e p r in
        elim (Result-cases (u (key_of ⦃g = g⦄ e) (value_of ⦃g = g⦄ e) p)) [
          | inl (p', k) ↦ ground (arith, here, k, update_properties-eq d p' a)
          | inr (x, k) ↦ ground (arith, here, k)
        ]

    pub parse-eq :
        (d : List V) (p : P)
        → All (Entry g HasType Right) d
        → parse ⦃g = g⦄ u d p ≡ parse ⦃g = h⦄ w d p
    unfolding parse
    parse-eq [] p a = refl
    parse-eq (e ∷ d) p (r, a) =
        let here = step-eq e p r in
        elim (Result-cases (u (key_of ⦃g = g⦄ e) (value_of ⦃g = g⦄ e) p)) [
          | inl (p', k) ↦ rw (← here, k) (parse-eq d p' a)
          | inr (x, k) ↦ rw (← here, k) refl
        ]

  get_strings-eq :
      (vs : List V)
      → All (λ c. HasType c "s") vs
      → map (λ c. g.get_string c) vs ≡ map (λ c. h.get_string c) vs
  get_strings-eq [] a = refl
  get_strings-eq (v ∷ vs) (t, a) = ap₂ (λ x xs. x ∷ xs) (agree.string v t) (get_strings-eq vs a)

  pub as_to_vector-eq : (v : V) → HasType v "as" → as_to_vector ⦃g = g⦄ v ≡ as_to_vector ⦃g = h⦄ v
  unfolding as_to_vector
  as_to_vector-eq v t =
      ap₂ (λ b xs. if b then xs else []) (agree.is_of_type v "as")
        (get_strings-eq _ (agree.strings-typed v t)
          ∙ ap (λ cs. map (λ c. h.get_string c) cs) (agree.strings v t))

  items_to_enums-eq :
      {E : Type 0} (table : EnumStringMap E) (vs : List V)
      → All (λ c. HasType c "s") vs
      → items_to_enums ⦃g = g⦄ table vs ≡ items_to_enums ⦃g = h⦄ table vs
  unfolding items_to_enums
  items_to_enums-eq table [] a = refl
  items_to_enums-eq table (v ∷ vs) (t, a) =
      ap₂ (λ s es. from_string table s >>= λ e. map_ok (λ es. e ∷ es) es) (agree.string v t)
        (items_to_enums-eq table vs a)

  pub as_to_enum_vector-eq :
      {E : Type 0} (table : EnumStringMap E) (v : V)
      → HasType v "as"
      → as_to_enum_vector ⦃g = g⦄ table v ≡ as_to_enum_vector ⦃g = h⦄ table v
  unfolding as_to_enum_vector
  as_to_enum_vector-eq table v t =
      ap₂ (λ b xs. if b then xs else ok []) (agree.is_of_type v "as")
        (items_to_enums-eq table _ (agree.strings-typed v t)
          ∙ ap (λ cs. items_to_enums ⦃g = h⦄ table cs) (agree.strings v t))

  pub strings_at :
      (types : List (String × String)) (key : String) (v : V)
      → look_up key types ≡ some "as"
      → Typed HasType types key v
      → as_to_vector ⦃g = g⦄ v ≡ as_to_vector ⦃g = h⦄ v
  strings_at types key v e r = as_to_vector-eq v (typed_at HasType types key "as" v e r)
