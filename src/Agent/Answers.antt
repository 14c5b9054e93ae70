-- ===== src/Agent/Answers.antt =====
-- What the agent's method handler sends back (src/dbus/gconnman_agent.cpp).
use libcppconnman.Prelude.{
  ℕ, ◌≡◌, refl, String, Bool, true, false, Option, none, some, List, [], ◌∷◌, ◌++◌, Result, throw,
  Exception, ◌⊎◌, inl, inr, arith, str_eq, eq_iff, Option-cases, Result-cases, Bool-cases,
  if◌then◌else◌,
}
use libcppconnman.GVariant.{GVariant}
use libcppconnman.Agent.{
  Agent, Reply, Action, send, dispatch_method_call, other_method, replies, replies_of, run_if,
  return_value,
}

module _ {V : Type 0} ⦃g : GVariant V⦄ where
  Sends : List (Action V) → Type 0
  unfolding replies
  Sends actions = (reply : Reply V) × (replies actions ≡ reply ∷ [])

  Sends-if :
      (test : Bool) (xs ys : List (Action V))
      → Sends xs
      → Sends ys
      → Sends (if test then xs else ys)
  Sends-if true xs ys p q = p
  Sends-if false xs ys p q = q

  Sends-send : (reply : Reply V) → Sends (send reply ∷ [])
  unfolding replies replies_of Sends
  Sends-send reply = (reply, refl)

  Sends-run_if :
      (callback : Option ℕ) (reply : Reply V) → Sends (run_if callback ++ send reply ∷ [])
  unfolding replies replies_of Sends
  Sends-run_if none reply = (reply, refl)
  Sends-run_if (some callback) reply = (reply, refl)

  other_method-Sends :
      (agent : Agent V) (method_name : String) (parameters : V)
      → Sends (other_method agent method_name parameters)
  unfolding other_method
  other_method-Sends agent method_name parameters =
      Sends-if _ _ _ (Sends-run_if agent.cancel_cb _) (
        Sends-if _ _ _ (Sends-run_if agent.release_cb _)
          (Sends-if _ _ _ (Sends-send _) (Sends-send _)))

  -- Where the callbacks of Cancel and Release return, every method call is answered exactly once, but
  -- for a RequestInput whose callback is set and throws: that one is never answered.
  pub dispatch_method_call-replies :
      (agent : Agent V) (method_name : String) (parameters : V)
      → ((reply : Reply V) × (replies (dispatch_method_call agent method_name parameters)
            ≡ reply ∷ []))
        ⊎ ((callback : String → V → Result V) × (e : Exception) × (method_name ≡ "RequestInput")
            × (agent.request_input_cb ≡ some callback)
            × (callback
                  (g.get_string (g.get_child_value parameters 0))
                  (g.get_child_value parameters 1)
                ≡ throw e)
            × (replies (dispatch_method_call agent method_name parameters) ≡ []))
  unfolding dispatch_method_call replies replies_of Sends
  dispatch_method_call-replies agent method_name parameters =
      let (sent, o) = other_method-Sends agent method_name parameters in
      elim (Option-cases agent.request_input_cb) [
        | inl q ↦ inl (sent, ground (arith, q, o))
        | inr (callback, q) ↦ elim (Bool-cases (str_eq method_name "RequestInput")) [
          | inr n ↦ inl (sent, ground (arith, q, n, o))
          | inl y ↦
              elim (Result-cases (
                callback (g.get_string (g.get_child_value parameters 0))
                  (g.get_child_value parameters 1))) [
                    | inl (result, r) ↦
                        inl
                          (return_value (some (g.new_tuple (result ∷ []))), ground (arith, q, y, r))
                    | inr (e, r) ↦ inr (
                      callback,
                      e,
                      ground (arith, y, eq_iff method_name "RequestInput"),
                      q,
                      r,
                      ground (arith, q, y, r),
                    )
                  ]
        ]
      ]
