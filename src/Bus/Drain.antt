-- ===== src/Bus/Drain.antt =====
-- The loop in the destructor of DBus (src/dbus/gdbus.cpp) that lets the context dispatch what is left.
-- `g_main_context_iteration` is a parameter: what one call makes of the state, and its answer.
use libcppconnman.Prelude.{
  ℕ, zero, suc, ◌<◌, ◌≡◌, ◌≢◌, refl, true, false, Option, none, some, arith, Bool-cases, inl, inr,
  ◌==◌, ==_iff,
}

module _ {S : Type 0} (iteration : S → S × ℕ) where
  -- With fuel; `none` means that the fuel ran out.
  pub drain : ℕ → S → Option S
  drain zero s = none
  drain (suc fuel) s = elim ((iteration s).1 == 0) [
    | true ↦ some (iteration s).0
    | false ↦ drain fuel (iteration s).0
  ]

  -- Where each call that dispatches something leaves less to dispatch, fuel for one call more than there
  -- is to dispatch is enough, and the state that is left is that of a call that found nothing.
  pub drain-ends :
      (left : S → ℕ)
      → ((s : S) → (iteration s).1 ≢ 0 → left (iteration s).0 < left s)
      → (fuel : ℕ) (s : S) → left s < fuel
      → (last : S) × ((iteration last).1 ≡ 0) × (drain fuel s ≡ some (iteration last).0)
  unfolding drain
  drain-ends left less zero s h = absurd (omega arith)
  drain-ends left less (suc fuel) s h = elim (Bool-cases ((iteration s).1 == 0)) [
    | inl e ↦ (s, (==_iff _ _).0 e, rw (e, drain) refl)
    | inr e ↦
        let fewer : left (iteration s).0 < fuel = omega (arith, less s (ground arith)) in
        let (last, quiet, q) = drain-ends left less fuel (iteration s).0 fewer in
        (last, quiet, rw (e, drain) q)
  ]
