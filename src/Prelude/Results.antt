-- ===== src/Prelude/Results.antt =====
-- C++ exceptions as values: what a call returns, or the exception that leaves it.
use Prim.Native.String.{String}
use mathlib.Core.Path.{◌≡◌, refl}
use mathlib.Core.Logic.{◌⊎◌, inl, inr}

-- `std::runtime_error` with its text, `std::bad_any_cast`, and `std::out_of_range`.
pub data Exception : Type 0 where
  runtime_error : String → Exception
  bad_any_cast out_of_range : Exception

pub data Result {ℓ} (A : Type ℓ) : Type ℓ where
  throw : Exception → Result A
  ok : A → Result A

abbrev pub map_ok {ℓ κ} : {A : Type ℓ} {B : Type κ} → (A → B) → Result A → Result B
map_ok f (ok a) = ok (f a)
map_ok f (throw e) = throw e

infixl 4 ◌>>=◌
abbrev pub ◌>>=◌ {κ ℓ} : {B : Type κ} {A : Type ℓ} → Result B → (B → Result A) → Result A
throw x >>= next = throw x
ok b >>= next = next b

-- What follows from a chain that does not throw.
pub >>=-eq-ok {κ ℓ} :
    {B : Type κ} {A : Type ℓ} (r : Result B) (next : B → Result A) {last : A}
    → (r >>= next) ≡ ok last
    → (first : B) × (r ≡ ok first) × (next first ≡ ok last)
>>=-eq-ok (throw x) next e = cc
>>=-eq-ok (ok first) next e = (first, refl, e)

pub Result-cases {ℓ} :
    {A : Type ℓ} (r : Result A) → ((a : A) × (r ≡ ok a)) ⊎ ((e : Exception) × (r ≡ throw e))
Result-cases (ok a) = inl (a, refl)
Result-cases (throw e) = inr (e, refl)

pub map_ok-eq-ok {ℓ κ} :
    {A : Type ℓ} {B : Type κ} (f : A → B) (r : Result A) {b : B}
    → map_ok f r ≡ ok b
    → (a : A) × (r ≡ ok a) × (f a ≡ b)
map_ok-eq-ok f (ok a) h = (a, refl, cc)
map_ok-eq-ok f (throw e) h = cc
