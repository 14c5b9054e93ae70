-- ===== src/Tests/Lifetimes.antt =====
-- A Connman that is made and destroyed, and one whose parts cannot be made.
use libcppconnman.Prelude.{
  ◌≡◌, ◌<◌, ◌+◌, ◌⊎◌, ◌==◌, if◌then◌else◌, refl, none, some, [], ◌∷◌, true, arith,
}
use libcppconnman.Lifecycle.{Call, Answers, connman_life}
use libcppconnman.Proxy.Lifetime.{
  Life, Reach, life_init, owners, due_refs, here, next, called, sends, dropped, finishes, enters,
  queue_call, send_call, drop_holder, finish_call, enter_signal, calls_plain, sends_plain,
  queue_plain, send_plain, Reach-alive,
}
use libcppconnman.Proxy.Lifetime.Dangling.{drop_all, SameUse, drops-dangle}
use libcppconnman.Lifecycle.Held.{
  expected, held_after, left_behind, nothing_held, connman_life-held,
}

abbrev all_made : Answers
all_made = record {
  bus = none;
  created = none;
  introspected = none;
  clock = none;
  manager = none;
  xml = none;
  registered = none;
}

abbrev unregistered : Answers
unregistered = record all_made { registered = some "path is taken" }

abbrev unreachable : Answers
unreachable = record all_made { introspected = some "no such name" }

-- The proxies are given back when the agent cannot be registered.
unregistered_calls :
    connman_life unregistered
    ≡ Call.context_new ∷ Call.push_thread_default ∷ Call.bus_get ∷ Call.proxy_new ∷ Call.result_new
      ∷ Call.proxy_unref ∷ Call.result_unref ∷ Call.pop_thread_default ∷ Call.start ∷ Call.proxy_new
      ∷ Call.proxy_new ∷ Call.node_info_new ∷ Call.node_info_unref ∷ Call.proxy_unref
      ∷ Call.proxy_unref ∷ Call.stop ∷ Call.push_thread_default ∷ Call.drain ∷ Call.connection_unref
      ∷ Call.pop_thread_default ∷ Call.context_unref ∷ []
unfolding connman_life
unregistered_calls = refl

made_expected : expected all_made ≡ nothing_held
made_expected = refl

connman_life-held_example : held_after (connman_life unreachable) nothing_held ≡ left_behind none
connman_life-held_example = connman_life-held unreachable

-- A call is sent, the last pointer outside of it is dropped, and the reply comes.
abbrev sent_life : Life
sent_life = send_call (queue_call life_init)

abbrev dropped_life : Life
dropped_life = finish_call (drop_holder sent_life)

sent_Reach : Reach (drop_holder sent_life)
unfolding send_call queue_call
sent_Reach =
    next (next (next here (called (omega arith))) (sends refl (omega arith)))
      (dropped (omega arith))

dropped_Reach : Reach dropped_life
unfolding send_call queue_call drop_holder
dropped_Reach = next sent_Reach (finishes refl (omega arith))

Reach-alive_example :
    (dropped_life.destructions ≡ (if owners dropped_life == 0 then 1 else 0))
    × (dropped_life.refs ≡ due_refs dropped_life)
    × ((dropped_life.queued + dropped_life.sent ≡ 0)
        ⊎ ((dropped_life.destructions ≡ 0) × (0 < dropped_life.refs)))
    × ((dropped_life.refs ≡ 0)
        ⊎ (dropped_life.destructions ≡ 0)
        ⊎ (dropped_life.signalled ≡ true)
        ⊎ (0 < dropped_life.plain_sent))
Reach-alive_example = Reach-alive dropped_Reach

-- It was destroyed once, and nothing is left.
destroyed_once : (dropped_life.destructions ≡ 1) × (dropped_life.refs ≡ 0)
unfolding send_call queue_call drop_holder finish_call
destroyed_once = (refl, refl)

-- A Manager as its constructor leaves it, with one of its two calls sent, and a signal.
abbrev busy_life : Life
busy_life = enter_signal (send_plain (queue_plain (queue_plain life_init)))

busy_Reach : Reach busy_life
unfolding queue_plain send_plain
busy_Reach =
    next
      (next (next (next here (calls_plain (omega arith))) (calls_plain (omega arith)))
        (sends_plain refl (omega arith) (omega arith)))
      (enters refl (omega arith))

drops-dangle_example :
    Reach (drop_all busy_life.holders busy_life)
    × ((drop_all busy_life.holders busy_life).destructions ≡ 1)
    × SameUse busy_life (drop_all busy_life.holders busy_life)
unfolding enter_signal send_plain queue_plain
drops-dangle_example = drops-dangle busy_Reach refl refl

-- The handler runs, one call waits to be sent and one to be answered.
busy_use : (busy_life.signalled ≡ true) × (busy_life.plain_queued ≡ 1) × (busy_life.plain_sent ≡ 1)
unfolding enter_signal send_plain queue_plain
busy_use = (refl, refl, refl)
