-- ===== src/Bus/Invoke.antt =====
-- A constructor or connectSignal lets the thread of the loop do its work and waits for it:
-- g_main_context_invoke_full with a flag and a condition variable, in
-- include/amarula/dbus/gproxy.hpp and src/dbus/gconnman_agent.cpp. GLib calls the function once, since it
-- returns G_SOURCE_REMOVE, and the notification after it.
use libcppconnman.Prelude.{
  ℕ, suc, ◌≡◌, refl, Bool, true, false, Option, none, some, ◌⊎◌, inl, inr, arith, ap, Bool-cases,
}

-- `R` is what the function writes to `data`.
pub record Invocation (R : Type 0) : Type 0 where
  pub attached : Bool  -- the source is in the context
  pub runs : ℕ  -- how often the function was called
  pub written : Option R
  pub done : Bool
  pub returned : Option (Option R)  -- what the caller finds when its wait is over

module _ {R : Type 0} where
  abbrev pub invoke_full : Invocation R
  invoke_full = record { attached = true; runs = 0; written = none; done = false; returned = none }

  unfoldable pub run_source : R → Invocation R → Invocation R
  run_source work s = record s { attached = false; runs = suc s.runs; written = some work }

  unfoldable pub notify : Invocation R → Invocation R
  notify s = record s { done = true }

  unfoldable pub wake : Invocation R → Invocation R
  wake s = record s { returned = some s.written }

  -- The steps of the loop and of the caller, which may wake only when the flag is set.
  pub data Turn (work : R) : Invocation R → Invocation R → Type 0 where
    dispatched : (s : Invocation R) → s.attached ≡ true → Turn work s (run_source work s)
    notified : (s : Invocation R) → s.attached ≡ false → s.done ≡ false → Turn work s (notify s)
    woken : (s : Invocation R) → s.done ≡ true → s.returned ≡ none → Turn work s (wake s)

  pub data Turns (work : R) : Invocation R → Invocation R → Type 0 where
    here : (s : Invocation R) → Turns work s s
    then : (s t u : Invocation R) → Turn work s t → Turns work t u → Turns work s u

-- What holds while nothing has run, and afterwards.
record Before {R : Type 0} (s : Invocation R) : Type 0 where
  attached : s.attached ≡ true
  runs : s.runs ≡ 0
  done : s.done ≡ false
  returned : s.returned ≡ none

record After {R : Type 0} (work : R) (s : Invocation R) : Type 0 where
  attached : s.attached ≡ false
  runs : s.runs ≡ 1
  written : s.written ≡ some work
  returned : (s.returned ≡ none) ⊎ (s.returned ≡ some (some work))

-- Turns that end with what the function wrote in its only run.
pub record Ends {R : Type 0} (work : R) (s : Invocation R) : Type 0 where
  pub last : Invocation R
  pub turns : Turns work s last
  pub returned : last.returned ≡ some (some work)
  pub runs : last.runs ≡ 1

-- The call has not returned, or it returned with what the function wrote in its only run; and it can go
-- on until it has.
abbrev pub Completes : {R : Type 0} → R → Invocation R → Type 0
Completes work s =
    ((s.returned ≡ none) ⊎ ((s.returned ≡ some (some work)) × (s.runs ≡ 1))) × Ends work s

module _ {R : Type 0} (work : R) where
  Turn-Invariant :
      (s t : Invocation R) → Turn work s t → Before s ⊎ After work s → Before t ⊎ After work t
  unfolding run_source notify wake
  Turn-Invariant s _ (dispatched _ h) (inl b) = inr (record {
    attached = refl;
    runs = omega (arith, b.runs);
    written = refl;
    returned = inl b.returned;
  })
  Turn-Invariant s _ (dispatched _ h) (inr a) = ground (arith, h, a.attached)
  Turn-Invariant s _ (notified _ h d) (inl b) = ground (arith, h, b.attached)
  Turn-Invariant s _ (notified _ h d) (inr a) =
      inr (record {
        attached = a.attached;
        runs = a.runs;
        written = a.written;
        returned = a.returned;
      })
  Turn-Invariant s _ (woken _ d n) (inl b) = ground (arith, d, b.done)
  Turn-Invariant s _ (woken _ d n) (inr a) = inr (record {
    attached = a.attached;
    runs = a.runs;
    written = a.written;
    returned = inr (ap (λ o. some o) a.written);
  })

  Turns-Invariant :
      (s t : Invocation R) → Turns work s t → Before s ⊎ After work s → Before t ⊎ After work t
  Turns-Invariant s _ (here _) i = i
  Turns-Invariant s _ (then _ t u first rest) i =
      Turns-Invariant t u rest (Turn-Invariant s t first i)

  Ends-then : (s t : Invocation R) → Turn work s t → Ends work t → Ends work s
  Ends-then s t turn e = record {
    last = e.last;
    turns = then s t e.last turn e.turns;
    returned = e.returned;
    runs = e.runs;
  }

  wake-Ends : (s : Invocation R) → After work s → s.done ≡ true → s.returned ≡ none → Ends work s
  unfolding wake
  wake-Ends s a d n = Ends-then s (wake s) (woken s d n) (record {
    last = wake s;
    turns = here (wake s);
    returned = ap (λ o. some o) a.written;
    runs = a.runs;
  })

  After-Ends : (s : Invocation R) → After work s → Ends work s
  unfolding notify
  After-Ends s a = elim a.returned [
    | inr e ↦ record { last = s; turns = here s; returned = e; runs = a.runs }
    | inl n ↦ elim (Bool-cases s.done) [
      | inl d ↦ wake-Ends s a d n
      | inr d ↦ Ends-then s (notify s) (notified s a.attached d) (
          wake-Ends (notify s)
            (record {
              attached = a.attached;
              runs = a.runs;
              written = a.written;
              returned = a.returned;
            })
            refl n)
    ]
  ]

  Invariant-Ends : (s : Invocation R) → Before s ⊎ After work s → Ends work s
  unfolding run_source
  Invariant-Ends s (inr a) = After-Ends s a
  Invariant-Ends s (inl b) =
      let turn = dispatched s b.attached in
      elim (Turn-Invariant s (run_source work s) turn (inl b)) [
        | inr a ↦ Ends-then s (run_source work s) turn (After-Ends (run_source work s) a)
        | inl b' ↦ ground (arith, b'.attached)
      ]

  -- However the threads take turns, the call that waits for the loop's thread has not returned before
  -- the function ran; when it returns the function has run exactly once, and the caller finds what it
  -- wrote; and from every state the threads can go on until the call has returned.
  pub Turns-Completes : (s : Invocation R) → Turns work invoke_full s → Completes work s
  Turns-Completes s turns =
      let start : Before (invoke_full {R = R}) = record {
        attached = refl;
        runs = refl;
        done = refl;
        returned = refl;
      } in
      let i = Turns-Invariant invoke_full s turns (inl start) in (so_far s i, Invariant-Ends s i)
    where
      so_far :
          (s : Invocation R)
          → Before s ⊎ After work s
          → (s.returned ≡ none) ⊎ ((s.returned ≡ some (some work)) × (s.runs ≡ 1))
      so_far s (inl b) = inl b.returned
      so_far s (inr a) = elim a.returned [ inl n ↦ inl n | inr e ↦ inr (e, a.runs) ]
