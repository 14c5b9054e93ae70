-- ===== src/Proxy/Failures.antt =====
-- A call of GetProperties that fails: include/amarula/dbus/gproxy.hpp, get_property_cb.
use libcppconnman.Prelude.{ℕ, ◌≡◌, none, List, [], ◌∷◌, ◌++◌, arith, length}
use libcppconnman.GVariant.{GVariant}
use libcppconnman.Props.{Update}
use libcppconnman.Proxy.{
  Kind, CallbackData, Argument, System, Calls, handle_reply, execute_callback,
}
use libcppconnman.Proxy.Tracking.{Tracks, Room}
use libcppconnman.Proxy.Completion.{Ran}
use libcppconnman.Proxy.Replies.{after_split, split-Tracks}

module _ {V P : Type 0} ⦃g : GVariant V⦄ (update : Update V P)
    (react : ℕ → Argument P → Calls) where
  handle_reply-eq-failed :
      (f : CallbackData) (rest : List CallbackData) (s : System P)
      → f.kind ≡ Kind.properties
      → handle_reply update react none f rest s
        ≡ execute_callback react f.kind f.counter
            (Argument.props s.props)
            (record s { in_flight = rest })
  unfolding handle_reply
  handle_reply-eq-failed f rest s k = ground (arith, k)

  -- A call of GetProperties that fails: nothing is thrown; the callback given with that call, if there
  -- is one, runs once and alone, with the properties as they were, and leaves the table; every other
  -- stored callback stays; and the table, the calls in flight and `pending_calls_` agree again.
  pub handle_reply-failed :
      {others : ℕ} (pre post : List CallbackData) (f : CallbackData) (s : System P)
      → f.kind ≡ Kind.properties
      → s.in_flight ≡ pre ++ f ∷ post
      → Tracks others [] s
      → ((id : ℕ) → Room (length (react id (Argument.props s.props))) s)
      → let t = handle_reply update react none f (pre ++ post) s in
        (t.1 ≡ none) × Tracks others [] t.0 × Ran f (Argument.props s.props) s t.0
  handle_reply-failed pre post f s k e t room = rw (handle_reply-eq-failed f (pre ++ post) s k) (
      after_split react (pre ++ post) f (Argument.props s.props) s.props s
        (split-Tracks pre post f s e t) room)
