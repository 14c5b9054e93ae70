-- ===== src/Tests/Replies.antt =====
-- The callbacks of a proxy, at two calls in flight.
use libcppconnman.Prelude.{
  ◌≢◌, ℕ, ◌≡◌, refl, true, false, none, some, [], ◌∷◌, arith, Option, Exception,
}
use libcppconnman.Service.Props.{ServProperties, serv_init, serv_update}
use libcppconnman.Bus.{on_any_async_start}
use libcppconnman.Proxy.{
  Kind, CallbackData, Argument, System, Calls, issue_all, issue, holding, handle_reply,
}
use libcppconnman.Proxy.CallbackMap.{find}
use libcppconnman.Proxy.Tracking.{Tracks, Room, issue_all-Tracks, count}
use libcppconnman.Proxy.Schedule.{Reach, start, called, others_called, set_replied, Reach-idle}
use libcppconnman.Proxy.Completion.{Ran}
use libcppconnman.Proxy.Replies.{handle_reply-set}
use libcppconnman.Tests.Values.{Var, var, text, number, dict}

abbrev idle_proxy : System ServProperties
idle_proxy = record {
  proxy = record {
    callback_counter = 0;
    callbacks = [];
    props = serv_init;
    on_property_changed_user_cb = none;
  };
  bus = record { running = true; pending_calls = 0; loop = true };
  in_flight = [];
  events = [];
  quit = false;
}

idle_proxy-Tracks : Tracks 0 [] idle_proxy
unfolding find count
idle_proxy-Tracks = record {
  stored = λ kind c. refl;
  unused = λ c h. refl;
  counted = refl;
  fits = omega arith;
}

abbrev two_calls : Calls
two_calls = (Kind.properties_set, some 7) ∷ (Kind.properties, some 8) ∷ []

abbrev two_in_flight : System ServProperties
two_in_flight = issue_all idle_proxy two_calls

two_in_flight-Tracks : Tracks 0 [] two_in_flight
two_in_flight-Tracks =
    issue_all-Tracks [] idle_proxy two_calls
      (record { pending = omega arith; counter = omega arith }) idle_proxy-Tracks

abbrev set_call : CallbackData
set_call = record { kind = Kind.properties_set; counter = some 1 }

abbrev get_call : CallbackData
get_call = record { kind = Kind.properties; counter = some 2 }

-- Every callback reads the properties again.
abbrev reads_again : ℕ → Argument ServProperties → Calls
reads_again id arg = (Kind.properties, some 9) ∷ []

two_in_flight-Room : Room 1 two_in_flight
unfolding issue_all on_any_async_start
two_in_flight-Room = record { pending = omega arith; counter = omega arith }

abbrev after_set : System ServProperties × Option Exception
after_set =
    handle_reply serv_update reads_again (some (dict [])) set_call (get_call ∷ []) two_in_flight

handle_reply-set_example :
    (after_set.1 ≡ none)
    × Tracks 0 [] after_set.0
    × Ran set_call (Argument.success true) two_in_flight after_set.0
unfolding issue_all
handle_reply-set_example =
    handle_reply-set serv_update reads_again (some (dict [])) [] (get_call ∷ []) set_call
      two_in_flight refl refl two_in_flight-Tracks (λ id. two_in_flight-Room)

abbrev home : Var
home = dict (("Name", text "home") ∷ ("Strength", number 70) ∷ [])

abbrev after_get : System ServProperties × Option Exception
after_get = handle_reply serv_update reads_again (some home) get_call (set_call ∷ []) two_in_flight

abbrev quiet : ℕ → Argument ServProperties → Calls
quiet id arg = []

-- Another proxy calls first, and its reply has not come when that of this one has.
abbrev another_called : System ServProperties
another_called = record idle_proxy { bus = on_any_async_start idle_proxy.bus }

abbrev one_in_flight : System ServProperties
one_in_flight = issue another_called (Kind.properties_set, some 7)

abbrev replied : System ServProperties
replied = (handle_reply {V = Var} serv_update quiet none set_call [] one_in_flight).0

replied-Reach : Reach {V = Var} serv_update quiet 1 replied
unfolding issue on_any_async_start
replied-Reach =
    set_replied none [] [] set_call refl refl
      (λ id. record { pending = omega arith; counter = omega arith })
      (called {s = another_called} (Kind.properties_set, some 7)
        (record { pending = omega arith; counter = omega arith })
        (others_called {s = idle_proxy} (omega arith) (
          start {s = idle_proxy}
            (record { callbacks = refl; in_flight = refl; pending = refl; fits = omega arith }))))

Reach-idle_example :
    (replied.bus.pending_calls ≡ 1)
    × (find 1 replied.callbacks ≢ some (holding Kind.properties_set 7))
unfolding issue handle_reply
Reach-idle_example = Reach-idle serv_update quiet replied-Reach refl Kind.properties_set 1 7
