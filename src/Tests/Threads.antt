-- ===== src/Tests/Threads.antt =====
-- Two questions of connman whose threads end in the other order; the callback of one throws.
use mathlib.Core.List.{Perm}
use libcppconnman.Prelude.{
  ◌≡◌, refl, String, none, some, [], ◌∷◌, All, Result, ok, throw, runtime_error, str_eq,
  if◌then◌else◌,
}
use libcppconnman.Agent.{Agent, return_value, dispatch_method_call}
use libcppconnman.Agent.Threads.{
  Invocation, Thread, Agents, agents_init, carry_out, end_thread, receive, send_posted,
}
use libcppconnman.Agent.Threads.Turns.{
  Rota, Reach, here, next, called, ended, sent, places, Answered, Unanswered, Reach-answered,
}
use libcppconnman.Tests.Values.{Var, var, text, tuple, cons, nil}

abbrev answers : String → Var → Result Var
answers service fields = if str_eq service "/s" then ok (text "yes") else throw (runtime_error "no")

abbrev agent : Agent Var
agent = record {
  request_input_cb = some answers;
  cancel_cb = none;
  release_cb = none;
  report_error_cb = none;
}

abbrev question : String → Invocation Var
question service = record {
  method = "RequestInput";
  parameters = tuple (cons (text service) (cons (text "") nil));
}

abbrev thread : String → Thread Var
thread service = record {
  callback = answers;
  invocation = question service;
  service = service;
  fields = text "";
}

-- Both were asked, the second thread has ended and then the first, whose answer was sent.
abbrev asked : Agents Var
asked = receive agent (question "/t") (receive agent (question "/s") agents_init)

abbrev last : Rota Var
last = record {
  agents =
      send_posted (question "/s", text "yes") []
        (end_thread (thread "/s") [] (end_thread (thread "/t") (thread "/s" ∷ []) asked));
  came = question "/t" ∷ question "/s" ∷ [];
}

last_Reach : Reach agent last
unfolding receive carry_out dispatch_method_call end_thread
last_Reach =
    next
      (next
        (next (next (next here (called (question "/s"))) (called (question "/t")))
          (ended [] (thread "/t") (thread "/s" ∷ []) refl))
        (ended [] (thread "/s") [] refl))
      (sent [] (question "/s", text "yes") [] refl)

last_answered :
    (last.agents.answered
      ≡ (question "/s", return_value (some (tuple (cons (text "yes") nil)))) ∷ [])
    × (last.agents.lost ≡ question "/t" ∷ [])
unfolding receive carry_out dispatch_method_call end_thread send_posted
last_answered = (refl, refl)

Reach-answered_example :
    Perm last.came (places last.agents)
    × All (Answered agent) last.agents.answered
    × All (Unanswered agent) last.agents.lost
Reach-answered_example = Reach-answered agent last_Reach
