-- ===== src/Proxy/Completion.antt =====
-- executeCallBack of include/amarula/dbus/gproxy.hpp, for one call that completes.
use libcppconnman.Prelude.{
  ℕ, ◌≡◌, refl, Option, none, some, [], ◌∷◌, ◌++◌, arith, length, ok, Option-cases, inl, inr, ◌≢◌,
}
use libcppconnman.Proxy.CallbackMap.{find, erase, find-erase}
use libcppconnman.Proxy.{
  Kind, AnyCallback, empty, holding, CallbackData, Argument, System, Calls, issue_all, run_callback,
  execute_callback, async_done, any_cast,
}
use libcppconnman.Proxy.Tracking.{
  count, Tracks, Room, issue_all-Tracks, issue_all-events, issue_all-find,
}

any_cast-holding : (k : Kind) (id : ℕ) → any_cast k (holding k id) ≡ ok id
unfolding any_cast
any_cast-holding Kind.properties_set id = refl
any_cast-holding Kind.properties id = refl

module _ {P : Type 0} where
  async_done-Tracks :
      {others : ℕ} (f : CallbackData) (s : System P)
      → f.counter ≡ none
      → Tracks others (f ∷ []) s
      → Tracks others [] (async_done s)
  unfolding async_done count
  async_done-Tracks f s e t = record {
    stored = λ kind c. ground (arith, t.stored kind c, e);
    unused = λ c h. t.unused c h;
    counted = omega (arith, t.counted, t.fits);
    fits = omega arith;
  }

  erased-Tracks :
      {others : ℕ} (c : ℕ) (f : CallbackData) (s : System P)
      → f.counter ≡ some c
      → Tracks others (f ∷ []) s
      → Tracks others []
          (async_done (record s { proxy = record s.proxy { callbacks = erase c s.callbacks } }))
  unfolding async_done count
  erased-Tracks c f s e t = record {
    stored = λ kind j. ground (
      arith,
      t.stored kind j,
      t.stored Kind.properties_set j,
      t.stored Kind.properties j,
      find-erase c j s.callbacks,
      e,
    );
    unused = λ j h. ground (arith, t.unused j h, find-erase c j s.callbacks);
    counted = omega (arith, t.counted, t.fits);
    fits = omega arith;
  }

  -- The table has the callback of a call that completes, of the type that it is cast to.
  stored_callback :
      {others : ℕ} (c : ℕ) (f : CallbackData) (s : System P)
      → f.counter ≡ some c
      → Tracks others (f ∷ []) s
      → (id : ℕ) × (find c s.callbacks ≡ some (holding f.kind id))
  unfolding count
  stored_callback c f s e t = go (find c s.callbacks) refl
    where
      go :
          (o : Option AnyCallback)
          → find c s.callbacks ≡ o
          → (id : ℕ) × (find c s.callbacks ≡ some (holding f.kind id))
      go (some (holding k id)) q = (id, ground (arith, q, e, t.stored f.kind c))
      go (some empty) q = absurd (ground (arith, q, e, t.stored f.kind c))
      go none q = absurd (ground (arith, q, e, t.stored f.kind c))

  execute_callback-none :
      (react : ℕ → Argument P → Calls) (f : CallbackData) (arg : Argument P) (s : System P)
      → f.counter ≡ none
      → execute_callback react f.kind f.counter arg s ≡ (async_done s, none)
  unfolding execute_callback
  execute_callback-none react f arg s e = rw e

  execute_callback-some :
      (react : ℕ → Argument P → Calls) (f : CallbackData) (c id : ℕ) (arg : Argument P)
      (s : System P)
      → f.counter ≡ some c
      → find c s.callbacks ≡ some (holding f.kind id)
      → execute_callback react f.kind f.counter arg s ≡ (run_callback react c id arg s, none)
  unfolding execute_callback
  execute_callback-some react f c id arg s e h = ground (arith, e, h, any_cast-holding f.kind id)

-- What the completion of the call `f` does to the callbacks: a call that has one runs it, with `arg`,
-- as the only one, takes it out of the table, and leaves the others there.
pub record Ran {P : Type 0} (f : CallbackData) (arg : Argument P) (s t : System P) : Type 0 where
  pub silent : f.counter ≡ none → t.events ≡ s.events
  pub ran :
      (c : ℕ)
      → f.counter ≡ some c
      → (id : ℕ) × (find c s.callbacks ≡ some (holding f.kind id))
        × (t.events ≡ s.events ++ (id, arg) ∷ [])
        × (find c t.callbacks ≡ none)
  pub others :
      (j : ℕ) (x : AnyCallback)
      → f.counter ≢ some j
      → find j s.callbacks ≡ some x
      → find j t.callbacks ≡ some x

module _ {P : Type 0} (react : ℕ → Argument P → Calls) (f : CallbackData) (arg : Argument P)
    (s : System P) {others : ℕ} (t : Tracks others (f ∷ []) s)
    (room : (id : ℕ) → Room (length (react id arg)) s) where
  run_callback-Ran :
      (c id : ℕ)
      → f.counter ≡ some c
      → find c s.callbacks ≡ some (holding f.kind id)
      → Tracks others [] (run_callback react c id arg s)
        × Ran f arg s (run_callback react c id arg s)
  unfolding run_callback async_done
  run_callback-Ran c id e at_c =
      let calls : Calls = react id arg in
      let called : System P = record s { events = s.events ++ (id, arg) ∷ [] } in
      let r : Room (length calls) called = record {
        pending = (room id).pending;
        counter = (room id).counter;
      } in
      let tracked : Tracks others (f ∷ []) called = record {
        stored = t.stored;
        unused = t.unused;
        counted = t.counted;
        fits = t.fits;
      } in
      let after : System P = issue_all called calls in
      (
        erased-Tracks c f after e (issue_all-Tracks (f ∷ []) called calls r tracked),
        record {
          silent = λ q. cc;
          ran = λ j q. (
            id,
            ground (arith, q, e, at_c),
            issue_all-events called calls,
            ground (arith, q, e, find-erase c j after.callbacks),
          );
          others = λ j x q h. ground (
            arith,
            q,
            e,
            find-erase c j after.callbacks,
            issue_all-find (f ∷ []) called calls j x r tracked h,
          );
        },
      )

  pub execute_callback-Ran :
      ((execute_callback react f.kind f.counter arg s).1 ≡ none)
      × Tracks others [] (execute_callback react f.kind f.counter arg s).0
      × Ran f arg s (execute_callback react f.kind f.counter arg s).0
  execute_callback-Ran = elim (Option-cases f.counter) [
    | inl e ↦ rw (execute_callback-none react f arg s e) (
      refl,
      async_done-Tracks f s e t,
      unfold async_done in record { silent = λ _. refl; ran = λ c q. cc; others = λ j x q h. h },
    )
    | inr (c, e) ↦
        let (id, at_c) = stored_callback c f s e t in
        let (tracked, ran) = run_callback-Ran c id e at_c in
        rw (execute_callback-some react f c id arg s e at_c) (refl, tracked, ran)
  ]
