-- ===== src/Proxy/Schedule.antt =====
-- Calls, replies and signals of a proxy in any order, beside those of the other proxies of its bus
-- (include/amarula/dbus/gproxy.hpp, src/dbus/gdbus.cpp).
use libcppconnman.Prelude.{
  ℕ, ◌≡◌, ◌≢◌, ◌+◌, ◌<◌, suc, Option, none, some, List, [], ◌∷◌, ◌++◌, arith, length, inl, inr,
  Result-cases, Option-cases,
}
use libcppconnman.GVariant.{GVariant}
use libcppconnman.Props.{Update, update_properties, update_property}
use libcppconnman.Bus.{word, on_any_async_start}
use libcppconnman.Proxy.{
  Kind, holding, CallbackData, Argument, System, Calls, issue, handle_reply, is_success,
  on_properties_changed_cb, async_done,
}
use libcppconnman.Proxy.CallbackMap.{find}
use libcppconnman.Proxy.Tracking.{Tracks, Room, count, issue-Tracks}
use libcppconnman.Proxy.Replies.{handle_reply-set, handle_reply-get}
use libcppconnman.Proxy.Failures.{handle_reply-failed}

-- A proxy as its constructor leaves it, on a bus where `others` calls of other proxies are in flight.
pub record Fresh {P : Type 0} (others : ℕ) (s : System P) : Type 0 where
  pub callbacks : s.callbacks ≡ []
  pub in_flight : s.in_flight ≡ []
  pub pending : s.bus.pending_calls ≡ others
  pub fits : others < word

module _ {V P : Type 0} ⦃g : GVariant V⦄ (update : Update V P)
    (react : ℕ → Argument P → Calls) where
  -- What this proxy and the others of its bus do, `others` calls of which are in flight. Every dictionary
  -- of a reply to this one can be read, and `pending_calls_` and `callback_counter_` have room for each
  -- call, also for those that callbacks make. A call that a callback makes on another proxy is a step
  -- before the reply: it changes the count only, which nothing reads until the callback has returned.
  pub data Reach : ℕ → System P → Type 0 where
    start : {others : ℕ} {s : System P} → Fresh others s → Reach others s
    others_called :
        {others : ℕ} {s : System P}
        → s.bus.pending_calls + 1 < word
        → Reach others s
        → Reach (suc others) (record s { bus = on_any_async_start s.bus })
    others_replied :
        {others : ℕ} {s : System P} → Reach (suc others) s → Reach others (async_done s)
    called :
        {others : ℕ} {s : System P} (c : Kind × Option ℕ)
        → Room 1 s
        → Reach others s
        → Reach others (issue s c)
    set_replied :
        {others : ℕ} {s : System P} (reply : Option V) (pre post : List CallbackData)
        (f : CallbackData)
        → f.kind ≡ Kind.properties_set
        → s.in_flight ≡ pre ++ f ∷ post
        → ((id : ℕ) → Room (length (react id (Argument.success (is_success reply)))) s)
        → Reach others s
        → Reach others (handle_reply update react reply f (pre ++ post) s).0
    get_replied :
        {others : ℕ} {s : System P} (dict : V) (pre post : List CallbackData) (f : CallbackData)
        → f.kind ≡ Kind.properties
        → s.in_flight ≡ pre ++ f ∷ post
        → (update_properties update (g.children dict) s.props).1 ≡ none
        → ((id : ℕ)
            → Room
                (length (
                  react id (Argument.props (update_properties update (g.children dict) s.props).0)))
                s)
        → Reach others s
        → Reach others (handle_reply update react (some dict) f (pre ++ post) s).0
    get_failed :
        {others : ℕ} {s : System P} (pre post : List CallbackData) (f : CallbackData)
        → f.kind ≡ Kind.properties
        → s.in_flight ≡ pre ++ f ∷ post
        → ((id : ℕ) → Room (length (react id (Argument.props s.props))) s)
        → Reach others s
        → Reach others (handle_reply update react none f (pre ++ post) s).0
    changed :
        {others : ℕ} {s : System P} (parameters : V)
        → Reach others s
        → Reach others (on_properties_changed_cb update parameters s).0

  Fresh-Tracks : (others : ℕ) (s : System P) → Fresh others s → Tracks others [] s
  unfolding find count
  Fresh-Tracks others s f = record {
    stored = λ kind c. ground (arith, f.callbacks, f.in_flight);
    unused = λ c h. ground (arith, f.callbacks);
    counted = ground (arith, f.in_flight, f.pending);
    fits = omega (arith, f.pending, f.fits);
  }

  changed-Tracks :
      {others : ℕ} (parameters : V) (s : System P)
      → Tracks others [] s
      → Tracks others [] (on_properties_changed_cb update parameters s).0
  unfolding on_properties_changed_cb
  changed-Tracks parameters s t = elim (Result-cases (update_property update parameters s.props)) [
    | inr (e, q) ↦ rw (q, on_properties_changed_cb) t
    | inl (read, q) ↦ elim (Option-cases s.on_property_changed_user_cb) [
      | inl n ↦
          rw (q, n, on_properties_changed_cb)
            (record { stored = t.stored; unused = t.unused; counted = t.counted; fits = t.fits })
      | inr (callback, n) ↦
          rw (q, n, on_properties_changed_cb)
            (record { stored = t.stored; unused = t.unused; counted = t.counted; fits = t.fits })
    ]
  ]

  others_called-Tracks :
      {others : ℕ} (s : System P)
      → s.bus.pending_calls + 1 < word
      → Tracks others [] s
      → Tracks (suc others) [] (record s { bus = on_any_async_start s.bus })
  unfolding on_any_async_start
  others_called-Tracks s room t = record {
    stored = t.stored;
    unused = t.unused;
    counted = omega (arith, t.counted, room);
    fits = omega (arith, room);
  }

  others_replied-Tracks :
      {others : ℕ} (s : System P) → Tracks (suc others) [] s → Tracks others [] (async_done s)
  unfolding async_done
  others_replied-Tracks s t = record {
    stored = t.stored;
    unused = t.unused;
    counted = omega (arith, t.counted, t.fits);
    fits = omega arith;
  }

  Reach-Tracks : {others : ℕ} {s : System P} → Reach others s → Tracks others [] s
  Reach-Tracks {others} {s} (start f) = Fresh-Tracks others s f
  Reach-Tracks (others_called {s = s} room r) = others_called-Tracks s room (Reach-Tracks r)
  Reach-Tracks (others_replied {s = s} r) = others_replied-Tracks s (Reach-Tracks r)
  Reach-Tracks (called {s = s} c room r) = issue-Tracks [] s c room (Reach-Tracks r)
  Reach-Tracks (set_replied {s = s} reply pre post f k e room r) =
      (handle_reply-set update react reply pre post f s k e (Reach-Tracks r) room).1
  Reach-Tracks (get_replied {s = s} dict pre post f k e q room r) =
      (handle_reply-get update react dict pre post f s k e q (Reach-Tracks r) room).1
  Reach-Tracks (get_failed {s = s} pre post f k e room r) =
      (handle_reply-failed update react pre post f s k e (Reach-Tracks r) room).1
  Reach-Tracks (changed {s = s} parameters r) = changed-Tracks parameters s (Reach-Tracks r)

  -- Whatever calls, replies and signals come, of this proxy and of the others of its bus, in any order,
  -- also calls made by callbacks, as long as every dictionary of a reply can be read, the calls that are
  -- counted at a time stay below 2^32 and those that the proxy ever made with a callback below 2^64: when no call of this proxy is in
  -- flight, `pending_calls_` is the number of calls that the others have in flight, and the table holds
  -- no callback.
  pub Reach-idle :
      {others : ℕ} {s : System P}
      → Reach others s
      → s.in_flight ≡ []
      → (kind : Kind) (c id : ℕ)
      → (s.bus.pending_calls ≡ others) × (find c s.callbacks ≢ some (holding kind id))
  unfolding count
  Reach-idle {s = s} r e kind c id =
      let t = Reach-Tracks r in
      (ground (arith, t.counted, e), λ q. ground (arith, t.stored kind c, q, e))
