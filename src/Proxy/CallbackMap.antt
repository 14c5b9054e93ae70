-- ===== src/Proxy/CallbackMap.antt =====
-- `std::map<size_t, std::any> callbacks_`, as far as include/amarula/dbus/gproxy.hpp uses it.
use libcppconnman.Prelude.{ℕ, ◌≡◌, Option, none, some, List, [], ◌∷◌, ◌==◌, if◌then◌else◌, arith}

module _ {ℓ} {A : Type ℓ} where
  unfoldable pub find : ℕ → List (ℕ × A) → Option A
  find c [] = none
  find c ((k, x) ∷ m) = if k == c then some x else find c m

  unfoldable pub erase : ℕ → List (ℕ × A) → List (ℕ × A)
  erase c [] = []
  erase c ((k, x) ∷ m) = let rest = erase c m in if k == c then rest else (k, x) ∷ rest

  -- `callbacks_[c] = x`
  unfoldable pub insert : ℕ → A → List (ℕ × A) → List (ℕ × A)
  unfolding erase
  insert c x m = (c, x) ∷ erase c m

  pub find-erase :
      (c j : ℕ) (m : List (ℕ × A)) → find j (erase c m) ≡ (if c == j then none else find j m)
  unfolding find erase
  find-erase c j [] = ground arith
  find-erase c j ((k, x) ∷ m) = ground (arith, find-erase c j m)

  pub find-insert :
      (c j : ℕ) (x : A) (m : List (ℕ × A))
      → find j (insert c x m) ≡ (if c == j then some x else find j m)
  unfolding find insert
  find-insert c j x m = ground (arith, find-erase c j m)
