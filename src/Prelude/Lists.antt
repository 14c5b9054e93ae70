-- ===== src/Prelude/Lists.antt =====
-- Lists measured and indexed by native numbers, under the library's names.
use Prim.Native.Nat.{ℕ, zero, suc, ◌+◌, ◌<◌}
use mathlib.Core.Path.{◌≡◌, refl, ap, sym, subst}
use mathlib.Core.List.{List, [], ◌∷◌, ◌++◌}
use mathlib.Core.Option.{Option, none, some}
use mathlib.Core.Logic.{◌≢◌}
use mathlib.Core.List.Perm
use mathlib.Core.List.{Perm, perm_middle}
use native.Mathlib.Omega.{arith}

module _ {ℓ} {A : Type ℓ} where
  abbrev pub length : List A → ℕ
  length [] = 0
  length (x ∷ xs) = suc (length xs)

  abbrev pub get_elem? : List A → ℕ → Option A
  get_elem? [] i = none
  get_elem? (x ∷ xs) zero = some x
  get_elem? (x ∷ xs) (suc i) = get_elem? xs i

  -- A write out of bounds changes nothing.
  abbrev pub set : List A → ℕ → A → List A
  set [] i v = []
  set (x ∷ xs) zero v = v ∷ xs
  set (x ∷ xs) (suc i) v = x ∷ set xs i v

  pub length-append : (xs ys : List A) → length (xs ++ ys) ≡ length xs + length ys
  length-append [] ys = omega arith
  length-append (x ∷ xs) ys = omega (arith, length-append xs ys)

  pub get_elem?-set :
      (xs : List A) (a : ℕ) (x : A) → a < length xs → get_elem? (set xs a x) a ≡ some x
  get_elem?-set [] a x h = elim h [ ]
  get_elem?-set (y ∷ xs) zero x h = refl
  get_elem?-set (y ∷ xs) (suc a) x h = get_elem?-set xs a x (omega arith)

  pub get_elem?-set_other :
      (xs : List A) (a : ℕ) (x : A) (b : ℕ) → b ≢ a → get_elem? (set xs a x) b ≡ get_elem? xs b
  get_elem?-set_other [] a x b h = refl
  get_elem?-set_other (y ∷ xs) zero x zero h = absurd (h refl)
  get_elem?-set_other (y ∷ xs) zero x (suc b) h = refl
  get_elem?-set_other (y ∷ xs) (suc a) x zero h = refl
  get_elem?-set_other (y ∷ xs) (suc a) x (suc b) h =
      get_elem?-set_other xs a x b (λ q. h (ap suc q))

  pub get_elem?-set_self :
      (xs : List A) (i : ℕ) (v : A) {x : A}
      → get_elem? xs i ≡ some x
      → get_elem? (set xs i v) i ≡ some v
  get_elem?-set_self [] i v h = cc
  get_elem?-set_self (x ∷ xs) zero v h = refl
  get_elem?-set_self (x ∷ xs) (suc i) v h = get_elem?-set_self xs i v h

  abbrev pub All {κ} : (A → Type κ) → List A → Type κ
  All P [] = Unit
  All P (x ∷ xs) = P x × All P xs

module _ {ℓ κ} {A : Type ℓ} (P : A → Type κ) where
  pub All-append : (xs ys : List A) → All P xs → All P ys → All P (xs ++ ys)
  All-append [] ys a b = b
  All-append (x ∷ xs) ys a b = (a.0, All-append xs ys a.1 b)

  pub All-split :
      (xs : List A) (a : A) (ys : List A) → All P (xs ++ (a ∷ ys)) → P a × All P (xs ++ ys)
  All-split [] a ys h = h
  All-split (x ∷ xs) a ys h = let (p, q) = All-split xs a ys h.1 in (p, (h.0, q))

-- What is taken out of one place and put into another.
pub moved {ℓ} :
    {A : Type ℓ} (a : A) (calls old new left right left' right' : List A)
    → Perm calls old
    → old ≡ left ++ (a ∷ right)
    → new ≡ left' ++ (a ∷ right')
    → left ++ right ≡ left' ++ right'
    → Perm calls new
moved a calls old new left right left' right' p e e' q =
    Perm.trans (subst (λ l. Perm calls l) e p) (
      Perm.trans (perm_middle left right) (
        subst (λ l. Perm (a ∷ (left ++ right)) l) (sym e')
          (subst (λ l. Perm (a ∷ l) (left' ++ (a ∷ right'))) (sym q)
            (Perm.symm (perm_middle left' right')))))
