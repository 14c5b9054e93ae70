-- ===== src/Agent/Threads.antt =====
-- The threads of the agent (src/dbus/gconnman_agent.cpp): each RequestInput runs its callback on a thread
-- of its own, which leaves the answer to the context; the thread of the loop sends it.
pub mod Dispatch
pub mod Turns
use libcppconnman.Prelude.{String, some, List, [], ◌∷◌, ◌++◌, Result, ok, throw}
use libcppconnman.GVariant.{GVariant}
use libcppconnman.Agent.{Agent, Reply, Action, run, send, spawn, return_value, dispatch_method_call}

-- A GDBusMethodInvocation.
pub record Invocation (V : Type 0) : Type 0 where
  pub method : String
  pub parameters : V

-- What the function of the thread captures.
pub record Thread (V : Type 0) : Type 0 where
  pub callback : String → V → Result V
  pub invocation : Invocation V
  pub service : String
  pub fields : V

-- The threads that run, the answers that wait in the context, what was sent, and the invocations whose
-- callback threw; the latest first.
pub record Agents (V : Type 0) : Type 0 where
  pub threads : List (Thread V)
  pub posted : List (Invocation V × V)
  pub answered : List (Invocation V × Reply V)
  pub lost : List (Invocation V)

abbrev pub agents_init : {V : Type 0} → Agents V
agents_init = record { threads = []; posted = []; answered = []; lost = [] }

module _ {V : Type 0} where
  -- What dispatch_method_call does, on the thread of the loop.
  unfoldable pub carry_out : Invocation V → List (Action V) → Agents V → Agents V
  carry_out i [] s = s
  carry_out i (run callback ∷ actions) s = carry_out i actions s
  carry_out i (send reply ∷ actions) s =
      carry_out i actions (record s { answered = (i, reply) ∷ s.answered })
  carry_out i (spawn callback service fields ∷ actions) s = carry_out i actions (record s {
    threads =
        record { callback = callback; invocation = i; service = service; fields = fields }
        ∷ s.threads;
  })

  -- A thread has its callback's answer, or the exception that it only logs; `others` are the threads
  -- that are left.
  unfoldable pub end_thread : Thread V → List (Thread V) → Agents V → Agents V
  end_thread t others s = elim (t.callback t.service t.fields) [
    | ok result ↦ record s { threads = others; posted = (t.invocation, result) ∷ s.posted }
    | throw e ↦ record s { threads = others; lost = t.invocation ∷ s.lost }
  ]

module _ {V : Type 0} ⦃g : GVariant V⦄ where
  unfoldable pub receive : Agent V → Invocation V → Agents V → Agents V
  unfolding carry_out
  receive agent i s = carry_out i (dispatch_method_call agent i.method i.parameters) s

  -- The context sends an answer; `others` are those that are left.
  unfoldable pub send_posted : Invocation V × V → List (Invocation V × V) → Agents V → Agents V
  send_posted (i, result) others s = record s {
    posted = others;
    answered = (i, return_value (some (g.new_tuple (result ∷ [])))) ∷ s.answered;
  }
