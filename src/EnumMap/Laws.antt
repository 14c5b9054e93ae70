-- ===== src/EnumMap/Laws.antt =====
-- What any table of the program does, whatever its entries.
use libcppconnman.Prelude.{
  String, ◌≡◌, ◌≢◌, [], ◌∷◌, ok, throw, runtime_error, str_eq, eq_iff, arith, All, Exception,
  Bool-cases, inl, inr,
}
use libcppconnman.EnumMap.{Enum, EnumStringMap, to_string, from_string}

-- No two entries of the table have the same enumerator.
abbrev pub DistinctKeys {ℓ} : {E : Type ℓ} → EnumStringMap E → Type ℓ
DistinctKeys [] = Unit
DistinctKeys ((e, s) ∷ pairs) = All (λ p. p.0 ≢ e) pairs × DistinctKeys pairs

module _ {ℓ} {E : Type ℓ} where
  -- A text that is refused is none of the table's, and the exception says that it is invalid.
  pub from_string-throw :
      (m : EnumStringMap E) (str : String) (x : Exception)
      → from_string m str ≡ throw x
      → All (λ p. p.1 ≢ str) m × (x ≡ runtime_error "Invalid string value")
  unfolding from_string
  from_string-throw [] str x h = (tt, ground arith)
  from_string-throw ((e, s) ∷ m) str x h = elim (Bool-cases (str_eq s str)) [
    | inl hit ↦ ground (arith, hit)
    | inr miss ↦
        let (a, b) = from_string-throw m str x (ground (arith, miss)) in
        ((λ q. ground (arith, eq_iff s str), a), b)
  ]

  from_string-ne :
      (m : EnumStringMap E) (str : String) (e k : E)
      → from_string m str ≡ ok e
      → All (λ p. p.0 ≢ k) m
      → e ≢ k
  unfolding from_string
  from_string-ne [] str e k h a q = cc
  from_string-ne ((e', s) ∷ m) str e k h a q = elim (Bool-cases (str_eq s str)) [
    | inl hit ↦ a.0 (ground (arith, hit))
    | inr miss ↦ from_string-ne m str e k (ground (arith, miss)) a.1 q
  ]

module _ {ℓ} {E : Type ℓ} ⦃e : Enum E⦄ where
  -- Where no enumerator stands twice, what was read prints as it was read.
  pub to_string-from_string :
      (m : EnumStringMap E) (str : String) (v : E)
      → DistinctKeys m
      → from_string m str ≡ ok v
      → to_string m v ≡ ok str
  unfolding from_string to_string
  to_string-from_string [] str v d h = cc
  to_string-from_string ((k, s) ∷ m) str v d h = elim (Bool-cases (str_eq s str)) [
    | inl hit ↦ ground (arith, hit, eq_iff s str)
    | inr miss ↦
        let rest : from_string m str ≡ ok v = ground (arith, miss) in
        let other = from_string-ne m str v k rest d.0 in
        ground (arith, to_string-from_string m str v d.1 rest, e.to_int_injective k v, other)
  ]
