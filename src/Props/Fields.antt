-- ===== src/Props/Fields.antt =====
-- What a field holds after a whole dictionary was read: the value of the last entry under its key.
use libcppconnman.Prelude.{
  String, ◌≡◌, List, [], ◌∷◌, Option, none, some, Result, ok, str_eq, eq_iff, arith, All, Bool,
  Bool-cases, inl, inr, true, false, if◌then◌else◌, Result-cases, >>=-eq-ok,
}
use libcppconnman.GVariant.{GVariant}
use libcppconnman.Props.{Update, cases, key_of, value_of, update_properties, parse}

-- The field that `get` reads takes its value from the entries under `key`, by `decode`, and no
-- entry under another key changes it.
pub record IsField {V P A : Type 0} (update : Update V P) (key : String) (get : P → A)
    (decode : V → Result A) : Type 0 where
  pub at :
      (k : String) (v : V) (p p' : P)
      → update k v p ≡ ok p'
      → if str_eq k key then decode v ≡ ok (get p') else get p' ≡ get p

abbrev pub has : {V P : Type 0} → String → List (String × (V → P → Result P)) → Bool
has key [] = false
has key ((name, assign) ∷ rest) = if str_eq name key then true else has key rest

module _ {V P A : Type 0} (key : String) (get : P → A) (decode : V → Result A) where
  -- One branch of the chain keeps the field, or is the one that assigns it.
  abbrev pub Branch : String × (V → P → Result P) → Type 0
  Branch (name, assign) =
      (v : V) (p p' : P)
      → assign v p ≡ ok p'
      → if str_eq name key then decode v ≡ ok (get p') else get p' ≡ get p

  cases-at :
      (hs : List (String × (V → P → Result P)))
      → All Branch hs
      → (k : String) (v : V) (p p' : P) → (str_eq k key ≡ true → has key hs ≡ true)
      → cases hs k v p ≡ ok p'
      → if str_eq k key then decode v ≡ ok (get p') else get p' ≡ get p
  cases-at [] b k v p p' there h = elim (Bool-cases (str_eq k key)) [
    | inl e ↦ cc (there e)
    | inr e ↦ rw e (ground arith)
  ]
  cases-at ((name, assign) ∷ rest) b k v p p' there h = elim (Bool-cases (str_eq k name)) [
    | inl e ↦ rw ((eq_iff k name).0 e) (b.0 v p p' (ground (arith, e)))
    | inr e ↦
        cases-at rest b.1 k v p p'
          (λ q. ground (arith, there q, q, e, eq_iff k key, eq_iff k name, eq_iff name key))
          (ground (arith, e))
  ]

  pub cases-IsField :
      (hs : List (String × (V → P → Result P)))
      → All Branch hs
      → has key hs ≡ true
      → IsField (cases hs) key get decode
  cases-IsField hs b there = record { at = λ k v p p' h. cases-at hs b k v p p' (λ _. there) h }

-- `now` is what the dictionary's last entry says, or `before` where no entry has the key.
abbrev pub Holds : {V A : Type 0} → (V → Result A) → Option V → A → A → Type 0
Holds decode none before now = now ≡ before
Holds decode (some v) before now = decode v ≡ ok now

module _ {V : Type 0} ⦃g : GVariant V⦄ where
  -- The value under `key` in the last entry that has it.
  unfoldable pub last_value : String → List V → Option V
  last_value key [] = none
  last_value key (prop ∷ rest) = elim (last_value key rest) [
    | some v ↦ some v
    | none ↦ if str_eq (key_of prop) key then some (value_of prop) else none
  ]

  module _ {P A : Type 0} where
    Holds-step :
        (u : Update V P) (key : String) (get : P → A) (decode : V → Result A)
        → IsField u key get decode
        → (prop : V) (rest : List V) (p p₁ p' : P) → u (key_of prop) (value_of prop) p ≡ ok p₁
        → Holds decode (last_value key rest) (get p₁) (get p')
        → Holds decode (last_value key (prop ∷ rest)) (get p) (get p')
    unfolding last_value
    Holds-step u key get decode f prop rest p p₁ p' h ih =
        ground (arith, f.at (key_of prop) (value_of prop) p p₁ h)

    pub update_properties-last :
        (u : Update V P) (key : String) (get : P → A) (decode : V → Result A)
        → IsField u key get decode
        → (props : List V) (p p' : P) → update_properties u props p ≡ (p', none)
        → Holds decode (last_value key props) (get p) (get p')
    unfolding update_properties last_value
    update_properties-last u key get decode f [] p p' h = ground arith
    update_properties-last u key get decode f (prop ∷ rest) p p' h =
        elim (Result-cases (u (key_of prop) (value_of prop) p)) [
          | inl (p₁, e) ↦
              Holds-step u key get decode f prop rest p p₁ p' e
                (update_properties-last u key get decode f rest p₁ p' (ground (arith, e)))
          | inr (x, e) ↦ ground (arith, e)
        ]

    pub parse-last :
        (u : Update V P) (key : String) (get : P → A) (decode : V → Result A)
        → IsField u key get decode
        → (props : List V) (p p' : P) → parse u props p ≡ ok p'
        → Holds decode (last_value key props) (get p) (get p')
    unfolding parse last_value
    parse-last u key get decode f [] p p' h = ground arith
    parse-last u key get decode f (prop ∷ rest) p p' h =
        let (p₁, e, rest_ok) = >>=-eq-ok (u (key_of prop) (value_of prop) p) (parse u rest) h in
        Holds-step u key get decode f prop rest p p₁ p' e
          (parse-last u key get decode f rest p₁ p' rest_ok)
