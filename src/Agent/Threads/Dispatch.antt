-- ===== src/Agent/Threads/Dispatch.antt =====
-- What a method call starts: one reply on the thread of the loop, or a thread
-- (src/dbus/gconnman_agent.cpp).
use libcppconnman.Prelude.{
  ℕ, ◌≡◌, refl, String, Bool, true, false, Option, none, some, List, [], ◌∷◌, ◌++◌, Result, ◌⊎◌,
  inl, inr, if◌then◌else◌, str_eq, Option-cases, Bool-cases,
}
use libcppconnman.GVariant.{GVariant}
use libcppconnman.Agent.{
  Agent, Reply, Action, send, spawn, run_if, other_method, dispatch_method_call, replies,
  replies_of,
}
use libcppconnman.Agent.Threads.{Invocation, Agents, carry_out}

module _ {V : Type 0} ⦃g : GVariant V⦄ (agent : Agent V) where
  -- Actions that send one reply, on the thread of the loop.
  unfoldable pub SendsOne : Invocation V → List (Action V) → Type 0
  SendsOne i actions =
      (reply : Reply V) × (replies actions ≡ reply ∷ [])
      × ((s : Agents V) → carry_out i actions s ≡ record s { answered = (i, reply) ∷ s.answered })

  SendsOne-if :
      (i : Invocation V) (test : Bool) (xs ys : List (Action V))
      → SendsOne i xs
      → SendsOne i ys
      → SendsOne i (if test then xs else ys)
  SendsOne-if i true xs ys p q = p
  SendsOne-if i false xs ys p q = q

  SendsOne-send : (i : Invocation V) (reply : Reply V) → SendsOne i (send reply ∷ [])
  unfolding SendsOne replies replies_of carry_out
  SendsOne-send i reply = (reply, refl, λ s. refl)

  SendsOne-run_if :
      (i : Invocation V) (callback : Option ℕ) (reply : Reply V)
      → SendsOne i (run_if callback ++ send reply ∷ [])
  unfolding SendsOne replies replies_of carry_out
  SendsOne-run_if i none reply = (reply, refl, λ s. refl)
  SendsOne-run_if i (some callback) reply = (reply, refl, λ s. refl)

  other_method-SendsOne : (i : Invocation V) → SendsOne i (other_method agent i.method i.parameters)
  unfolding other_method
  other_method-SendsOne i = SendsOne-if i _ _ _ (SendsOne-run_if i agent.cancel_cb _) (
      SendsOne-if i _ _ _ (SendsOne-run_if i agent.release_cb _)
        (SendsOne-if i _ _ _ (SendsOne-send i _) (SendsOne-send i _)))

  unfoldable pub Spawns : Invocation V → List (Action V) → Type 0
  Spawns i actions =
      (callback : String → V → Result V) × (service : String) × (fields : V) × (actions
        ≡ spawn callback service fields ∷ [])

  pub dispatch-cases :
      (i : Invocation V)
      → SendsOne i (dispatch_method_call agent i.method i.parameters)
        ⊎ Spawns i (dispatch_method_call agent i.method i.parameters)
  unfolding dispatch_method_call Spawns SendsOne
  dispatch-cases i = elim (Option-cases agent.request_input_cb) [
    | inl q ↦ inl (rw (q, dispatch_method_call) (other_method-SendsOne i))
    | inr (callback, q) ↦ elim (Bool-cases (str_eq i.method "RequestInput")) [
      | inr n ↦ inl (rw (q, n, dispatch_method_call) (other_method-SendsOne i))
      | inl y ↦ inr (rw (q, y, dispatch_method_call) (callback, _, _, refl))
    ]
  ]
