-- ===== src/Props/Invariants.antt =====
-- What every branch of an `update` keeps, a whole dictionary keeps, also one that throws midway.
use libcppconnman.Prelude.{
  String, ◌≡◌, List, [], ◌∷◌, Result, ok, str_eq, arith, All, Bool-cases, inl, inr, Result-cases,
}
use libcppconnman.GVariant.{GVariant}
use libcppconnman.Props.{Update, cases, key_of, value_of, update_properties}

module _ {V P : Type 0} (I : P → Type 0) where
  abbrev pub KeepsBranch : String × (V → P → Result P) → Type 0
  KeepsBranch (name, assign) = (v : V) (p p' : P) → assign v p ≡ ok p' → I p → I p'

  pub cases-keeps :
      (hs : List (String × (V → P → Result P)))
      → All KeepsBranch hs
      → (k : String) (v : V) (p p' : P) → cases hs k v p ≡ ok p'
      → I p
      → I p'
  cases-keeps [] b k v p p' h i = ground (arith, i)
  cases-keeps ((name, assign) ∷ rest) b k v p p' h i = elim (Bool-cases (str_eq k name)) [
    | inl e ↦ b.0 v p p' (ground (arith, e)) i
    | inr e ↦ cases-keeps rest b.1 k v p p' (ground (arith, e)) i
  ]

module _ {V : Type 0} ⦃g : GVariant V⦄ {P : Type 0} (I : P → Type 0) (u : Update V P)
    (keep : (k : String) (v : V) (p p' : P) → u k v p ≡ ok p' → I p → I p') where
  pub update_properties-keeps : (props : List V) (p : P) → I p → I (update_properties u props p).0
  unfolding update_properties
  update_properties-keeps [] p i = i
  update_properties-keeps (prop ∷ rest) p i =
      elim (Result-cases (u (key_of prop) (value_of prop) p)) [
        | inl (p₁, e) ↦
            rw (e, update_properties) (update_properties-keeps rest p₁ (keep _ _ p p₁ e i))
        | inr (x, e) ↦ rw (e, update_properties) i
      ]
