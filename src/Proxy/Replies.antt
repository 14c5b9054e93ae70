-- ===== src/Proxy/Replies.antt =====
-- A reply runs the callback of its call, once, and takes it out of the table.
use libcppconnman.Prelude.{
  ℕ, ◌≡◌, Option, none, some, List, [], ◌∷◌, ◌++◌, arith, length, length-append, ap,
}
use libcppconnman.GVariant.{GVariant}
use libcppconnman.Props.{Update, update_properties}
use libcppconnman.Proxy.{
  Kind, CallbackData, Argument, System, Calls, execute_callback, handle_reply, is_success,
}
use libcppconnman.Proxy.Tracking.{count, count-append, Tracks, Room}
use libcppconnman.Proxy.Completion.{Ran, execute_callback-Ran}

-- One of the calls in flight, `f`, between those before it and those after it.
pub split-Tracks :
    {P : Type 0} {others : ℕ} (pre post : List CallbackData) (f : CallbackData) (s : System P)
    → s.in_flight ≡ pre ++ f ∷ post
    → Tracks others [] s
    → Tracks others (f ∷ []) (record s { in_flight = pre ++ post })
unfolding count
split-Tracks pre post f s e t = record {
  stored = λ kind c. omega (
    arith,
    t.stored kind c,
    ap (count kind c) e,
    count-append kind c pre (f ∷ post),
    count-append kind c pre post,
  );
  unused = t.unused;
  counted =
      omega (arith, t.counted, ap length e, length-append pre (f ∷ post), length-append pre post);
  fits = t.fits;
}

module _ {P : Type 0} (react : ℕ → Argument P → Calls) (rest : List CallbackData) (f : CallbackData)
    (arg : Argument P) (read : P) (s : System P) where
  abbrev taken : System P
  taken = record s { in_flight = rest; proxy = record s.proxy { props = read } }

  pub after_split :
      {others : ℕ}
      → Tracks others (f ∷ []) (record s { in_flight = rest })
      → ((id : ℕ) → Room (length (react id arg)) s)
      → let t = execute_callback react f.kind f.counter arg taken in
        (t.1 ≡ none) × Tracks others [] t.0 × Ran f arg s t.0
  after_split {others = others} t room =
      let tracked : Tracks others (f ∷ []) taken = record {
        stored = t.stored;
        unused = t.unused;
        counted = t.counted;
        fits = t.fits;
      } in
      let rooms : (id : ℕ) → Room (length (react id arg)) taken =
        λ id. record { pending = (room id).pending; counter = (room id).counter } in
      let (quiet, tracks, ran) = execute_callback-Ran react f arg taken tracked rooms in
      (quiet, tracks, record { silent = ran.silent; ran = ran.ran; others = ran.others })

module _ {V P : Type 0} ⦃g : GVariant V⦄ (update : Update V P)
    (react : ℕ → Argument P → Calls) where
  handle_reply-eq-set :
      (reply : Option V) (f : CallbackData) (rest : List CallbackData) (s : System P)
      → f.kind ≡ Kind.properties_set
      → handle_reply update react reply f rest s
        ≡ execute_callback react f.kind f.counter
            (Argument.success (is_success reply))
            (record s { in_flight = rest })
  unfolding handle_reply
  handle_reply-eq-set reply f rest s k = ground (arith, k)

  handle_reply-eq-get :
      (dict : V) (f : CallbackData) (rest : List CallbackData) (s : System P)
      → f.kind ≡ Kind.properties
      → (update_properties update (g.children dict) s.props).1 ≡ none
      → let read = (update_properties update (g.children dict) s.props).0 in
        handle_reply update react (some dict) f rest s
        ≡ execute_callback react f.kind f.counter
            (Argument.props read)
            (record s { in_flight = rest; proxy = record s.proxy { props = read } })
  unfolding handle_reply
  handle_reply-eq-get dict f rest s k e = ground (arith, k, e)

  -- The reply of a call that sets or invokes, whichever of those in flight GLib completes: nothing is
  -- thrown; the callback given with that call, if there is one, runs once and alone, with `true` exactly
  -- if the call succeeded, and leaves the table; every other stored callback stays; and the table, the
  -- calls in flight and `pending_calls_` agree again, also if the callback makes further calls.
  pub handle_reply-set :
      {others : ℕ} (reply : Option V) (pre post : List CallbackData) (f : CallbackData)
      (s : System P)
      → f.kind ≡ Kind.properties_set
      → s.in_flight ≡ pre ++ f ∷ post
      → Tracks others [] s
      → ((id : ℕ) → Room (length (react id (Argument.success (is_success reply)))) s)
      → let t = handle_reply update react reply f (pre ++ post) s in
        (t.1 ≡ none) × Tracks others [] t.0 × Ran f (Argument.success (is_success reply)) s t.0
  unfolding handle_reply
  handle_reply-set reply pre post f s k e t room =
      rw (handle_reply-eq-set reply f (pre ++ post) s k)
        (after_split react (pre ++ post) f _ s.props s (split-Tracks pre post f s e t) room)

  pub handle_reply-get :
      {others : ℕ} (dict : V) (pre post : List CallbackData) (f : CallbackData) (s : System P)
      → f.kind ≡ Kind.properties
      → s.in_flight ≡ pre ++ f ∷ post
      → (update_properties update (g.children dict) s.props).1 ≡ none
      → Tracks others [] s
      → let read = (update_properties update (g.children dict) s.props).0 in
        ((id : ℕ) → Room (length (react id (Argument.props read))) s)
        → let t = handle_reply update react (some dict) f (pre ++ post) s in
          (t.1 ≡ none) × Tracks others [] t.0 × Ran f (Argument.props read) s t.0
  handle_reply-get dict pre post f s k e q t room =
      rw (handle_reply-eq-get dict f (pre ++ post) s k q)
        (after_split react (pre ++ post) f _ _ s (split-Tracks pre post f s e t) room)
