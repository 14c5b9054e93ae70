-- ===== src/Agent/Threads/Turns.antt =====
-- Calls of connman, threads and answers in any order (src/dbus/gconnman_agent.cpp).
use mathlib.Core.List.Perm
use mathlib.Core.List.{Perm, append_assoc, map-append}
use libcppconnman.Prelude.{
  ◌≡◌, refl, some, List, [], ◌∷◌, ◌++◌, map, All, inl, inr, subst, Result-cases, All-split, moved,
}
use libcppconnman.GVariant.{GVariant}
use libcppconnman.Agent.{
  Agent, Reply, spawn, return_value, dispatch_method_call, replies, replies_of,
}
use libcppconnman.Agent.Threads.Dispatch.{SendsOne, Spawns, dispatch-cases}
use libcppconnman.Agent.Threads.{
  Invocation, Thread, Agents, agents_init, carry_out, end_thread, receive, send_posted,
}

-- Where the invocations are.
abbrev pub places : {V : Type 0} → Agents V → List (Invocation V)
places s =
    map (λ t. t.invocation) s.threads
    ++ (map (λ p. p.0) s.posted ++ (map (λ a. a.0) s.answered ++ s.lost))

-- The agents with the calls that have come, the latest first.
pub record Rota (V : Type 0) : Type 0 where
  pub agents : Agents V
  pub came : List (Invocation V)

module _ {V : Type 0} ⦃g : GVariant V⦄ (agent : Agent V) where
  pub data AgentStep (s : Rota V) : Rota V → Type 0 where
    called :
        (i : Invocation V)
        → AgentStep s (record { agents = receive agent i s.agents; came = i ∷ s.came })
    ended :
        (pre : List (Thread V)) (t : Thread V) (post : List (Thread V))
        → s.agents.threads ≡ pre ++ (t ∷ post)
        → AgentStep s (record s { agents = end_thread t (pre ++ post) s.agents })
    sent :
        (pre : List (Invocation V × V)) (p : Invocation V × V) (post : List (Invocation V × V))
        → s.agents.posted ≡ pre ++ (p ∷ post)
        → AgentStep s (record s { agents = send_posted p (pre ++ post) s.agents })

  pub data Reach : Rota V → Type 0 where
    here : Reach (record { agents = agents_init; came = [] })
    next : {s t : Rota V} → Reach s → AgentStep s t → Reach t

  -- What the invocation is answered with, and that it is never.
  abbrev pub Answered : Invocation V × Reply V → Type 0
  Answered a = replies (dispatch_method_call agent a.0.method a.0.parameters) ≡ a.1 ∷ []

  abbrev pub Unanswered : Invocation V → Type 0
  Unanswered i = replies (dispatch_method_call agent i.method i.parameters) ≡ []

  abbrev Runs : Thread V → Type 0
  Runs t =
      dispatch_method_call agent t.invocation.method t.invocation.parameters
      ≡ spawn t.callback t.service t.fields ∷ []

  abbrev Posted : Invocation V × V → Type 0
  Posted p = Answered (p.0, return_value (some (g.new_tuple (p.1 ∷ []))))

  record Inv (s : Rota V) : Type 0 where
    kept : Perm s.came (places s.agents)
    running : All Runs s.agents.threads
    waiting : All Posted s.agents.posted
    right : All Answered s.agents.answered
    threw : All Unanswered s.agents.lost

  -- A thread whose callback returns, and one whose callback throws.
  ended-kept :
      (s : Rota V) (pre : List (Thread V)) (t : Thread V) (post : List (Thread V))
      → s.agents.threads ≡ pre ++ (t ∷ post)
      → Inv s
      → Perm s.came (places (end_thread t (pre ++ post) s.agents))
  unfolding end_thread
  ended-kept s pre t post e v =
      let before : List (Invocation V) = map (λ u. u.invocation) pre in
      let after : List (Invocation V) = map (λ u. u.invocation) post in
      let posted : List (Invocation V) = map (λ p. p.0) s.agents.posted in
      let rest : List (Invocation V) = map (λ a. a.0) s.agents.answered ++ s.agents.lost in
      elim (Result-cases (t.callback t.service t.fields)) [
        | inl (result, q) ↦
            rw (q, end_thread)
              (moved t.invocation s.came (places s.agents) _ before (after ++ (posted ++ rest))
                (map (λ u. u.invocation) (pre ++ post)) (posted ++ rest) v.kept
                (rw e (simp (append_assoc, map-append))) (simp (append_assoc, map-append))
                (simp (append_assoc, map-append)))
        | inr (x, q) ↦
            rw (q, end_thread)
              (moved t.invocation s.came (places s.agents) _ before (after ++ (posted ++ rest))
                (map (λ u. u.invocation) (pre ++ post)
                  ++ (posted ++ map (λ a. a.0) s.agents.answered))
                s.agents.lost v.kept (rw e (simp (append_assoc, map-append)))
                (simp (append_assoc, map-append)) (simp (append_assoc, map-append)))
      ]

  ended-Inv :
      (s : Rota V) (pre : List (Thread V)) (t : Thread V) (post : List (Thread V))
      → s.agents.threads ≡ pre ++ (t ∷ post)
      → Inv s
      → Inv (record s { agents = end_thread t (pre ++ post) s.agents })
  unfolding end_thread replies replies_of
  ended-Inv s pre t post e v =
      let (runs, others) = All-split Runs pre t post (subst (All Runs) e v.running) in
      let kept = ended-kept s pre t post e v in
      elim (Result-cases (t.callback t.service t.fields)) [
        | inl (result, q) ↦
            rw (q, end_thread)
              (record {
                kept = rw (q, end_thread) at kept;
                running = others;
                waiting = (rw runs (rw (q, replies_of) refl), v.waiting);
                right = v.right;
                threw = v.threw;
              })
        | inr (x, q) ↦
            rw (q, end_thread)
              (record {
                kept = rw (q, end_thread) at kept;
                running = others;
                waiting = v.waiting;
                right = v.right;
                threw = (rw runs (rw (q, replies_of) refl), v.threw);
              })
      ]

  sent-Inv :
      (s : Rota V) (pre : List (Invocation V × V)) (p : Invocation V × V)
      (post : List (Invocation V × V))
      → s.agents.posted ≡ pre ++ (p ∷ post)
      → Inv s
      → Inv (record s { agents = send_posted p (pre ++ post) s.agents })
  unfolding send_posted
  sent-Inv s pre (i, result) post e v =
      let (posted, others) =
        All-split Posted pre (i, result) post (subst (All Posted) e v.waiting) in
      record {
        kept =
            moved i s.came (places s.agents) _
              (map (λ t. t.invocation) s.agents.threads ++ map (λ p. p.0) pre)
              (map (λ p. p.0) post ++ (map (λ a. a.0) s.agents.answered ++ s.agents.lost))
              (map (λ t. t.invocation) s.agents.threads ++ map (λ p. p.0) (pre ++ post))
              (map (λ a. a.0) s.agents.answered ++ s.agents.lost) v.kept
              (rw e (simp (append_assoc, map-append))) (simp (append_assoc, map-append))
              (simp (append_assoc, map-append));
        running = v.running;
        waiting = others;
        right = (posted, v.right);
        threw = v.threw;
      }

  called-Inv :
      (s : Rota V) (i : Invocation V)
      → Inv s
      → Inv (record { agents = receive agent i s.agents; came = i ∷ s.came })
  unfolding receive carry_out SendsOne Spawns
  called-Inv s i v = elim (dispatch-cases agent i) [
    | inr (callback, service, fields, q) ↦
        rw (q, receive, carry_out)
          (record {
            kept = Perm.cons i v.kept;
            running = (q, v.running);
            waiting = v.waiting;
            right = v.right;
            threw = v.threw;
          })
    | inl (reply, q, sends) ↦
        rw (receive, sends s.agents)
          (record {
            kept =
                moved i (i ∷ s.came) (i ∷ places s.agents) _ [] (places s.agents)
                  (map (λ t. t.invocation) s.agents.threads ++ map (λ p. p.0) s.agents.posted)
                  (map (λ a. a.0) s.agents.answered ++ s.agents.lost) (Perm.cons i v.kept) refl
                  (simp append_assoc) (simp append_assoc);
            running = v.running;
            waiting = v.waiting;
            right = (q, v.right);
            threw = v.threw;
          })
  ]

  Reach-Inv : {s : Rota V} → Reach s → Inv s
  Reach-Inv here = record {
    kept = Perm.refl [];
    running = tt;
    waiting = tt;
    right = tt;
    threw = tt;
  }
  Reach-Inv (next {s = s} r (called i)) = called-Inv s i (Reach-Inv r)
  Reach-Inv (next {s = s} r (ended pre t post e)) = ended-Inv s pre t post e (Reach-Inv r)
  Reach-Inv (next {s = s} r (sent pre p post e)) = sent-Inv s pre p post e (Reach-Inv r)

  -- However connman's calls, the threads of their callbacks and the answers that these leave to the
  -- context take turns: every call that has come is in exactly one place, also where the same call came
  -- more than once. Its thread runs, its answer waits in the context, it was answered, or it is lost.
  -- What was answered has the one reply of its own call, and lost are only calls that have none.
  pub Reach-answered :
      {s : Rota V}
      → Reach s
      → Perm s.came (places s.agents)
        × All Answered s.agents.answered
        × All Unanswered s.agents.lost
  Reach-answered r = let v = Reach-Inv r in (v.kept, v.right, v.threw)
