-- ===== src/Bus/Shutdown.antt =====
-- `stop` against replies and new calls, in any order: src/dbus/gdbus.cpp and the thread of `start`.
use libcppconnman.Prelude.{
  ℕ, ◌+◌, ◌-◌, ◌<◌, ◌≡◌, Bool, true, false, ◌||◌, not, ◌≢◌, arith, zero, suc, refl, ◌≤◌, ◌⊎◌,
}
use libcppconnman.Bus.{
  DBus, word, bus_init, on_any_async_done, on_any_async_start, stop_running, stop_quits,
  on_loop_started, loop_created, loop_released,
}

-- How far the thread made by `start` is, and the thread that calls `stop`.
pub data Loop : Type 0 where
  starting created looping finished : Loop

pub data Stopper : Type 0 where
  idle flagged checked : Stopper

pub record System : Type 0 where
  pub bus : DBus
  pub loop : Loop
  pub stopper : Stopper
  pub awaited : ℕ  -- calls made through prepareCallback whose reply has not come
  pub quit : Bool  -- `g_main_loop_quit` has been called

abbrev pub system_init : System
system_init = record {
  bus = bus_init;
  loop = Loop.starting;
  stopper = Stopper.idle;
  awaited = 0;
  quit = false;
}

pub data Step (s : System) : System → Type 0 where
  create :
      s.loop ≡ Loop.starting → Step s (record s { bus = loop_created s.bus; loop = Loop.created })
  started :
      s.loop ≡ Loop.created → Step s (record s { bus = on_loop_started s.bus; loop = Loop.looping })
  -- The constructor has returned, so the loop has started.
  call :
      s.loop ≢ Loop.starting
      → s.loop ≢ Loop.created
      → s.awaited + 1 < word
      → Step s (record s { bus = on_any_async_start s.bus; awaited = s.awaited + 1 })
  reply :
      s.loop ≡ Loop.looping
      → 0 < s.awaited
      → Step s (record s {
        bus = (on_any_async_done s.bus).0;
        awaited = s.awaited - 1;
        quit = s.quit || (on_any_async_done s.bus).1;
      })
  flag :
      s.bus.running ≡ true
      → s.stopper ≡ Stopper.idle
      → Step s (record s { bus = stop_running s.bus; stopper = Stopper.flagged })
  check :
      s.stopper ≡ Stopper.flagged
      → Step s
          (record s { stopper = Stopper.checked; quit = s.quit || stop_quits s.bus (not s.quit) })
  return :
      s.loop ≡ Loop.looping
      → s.quit ≡ true
      → Step s (record s { bus = loop_released s.bus; loop = Loop.finished })

pub data Reach : System → Type 0 where
  here : Reach system_init
  next : {s t : System} → Reach s → Step s t → Reach t

pub record Inv (s : System) : Type 0 where
  pub counted : s.bus.pending_calls ≡ s.awaited
  pub fits : s.awaited < word
  pub has_loop : s.loop ≡ Loop.looping → s.bus.loop ≡ true
  pub created_loop : s.loop ≡ Loop.created → s.bus.loop ≡ true
  pub starting_idle : s.loop ≡ Loop.starting → (s.stopper ≡ Stopper.idle) × (s.bus.running ≡ false)
  pub created_idle : s.loop ≡ Loop.created → (s.stopper ≡ Stopper.idle) × (s.bus.running ≡ false)
  pub runs : s.loop ≡ Loop.looping → s.stopper ≡ Stopper.idle → s.bus.running ≡ true
  pub stopped : s.bus.running ≡ true → s.stopper ≡ Stopper.idle
  pub no_early_quit : s.quit ≡ true → s.stopper ≢ Stopper.idle
  pub no_lost_quit :
      s.loop ≡ Loop.looping → s.stopper ≡ Stopper.checked → s.awaited ≡ 0 → s.quit ≡ true

Step-Inv : {s t : System} → Step s t → Inv s → Inv t
unfolding on_any_async_done on_any_async_start stop_running stop_quits on_loop_started loop_created
    loop_released
Step-Inv (create h) i = ground arith
Step-Inv (started h) i = ground arith
Step-Inv (call h k l) i = ground arith
Step-Inv (reply h k) i = ground arith
Step-Inv (flag h k) i = ground arith
Step-Inv (check h) i = ground arith
Step-Inv (return h k) i = ground arith

Reach-Inv : {s : System} → Reach s → Inv s
Reach-Inv here = ground arith
Reach-Inv (next r st) = Step-Inv st (Reach-Inv r)

-- Where each operation is one step, in every reachable state `pending_calls_` is the number of the calls
-- made through prepareCallback whose reply has not come; the loop is told to quit only after `stop` was called; and once `stop` has made
-- its check, a loop that still runs with no such reply outstanding has been told to quit, whatever the order
-- of calls and replies.
pub Reach-quit :
    {s : System}
    → Reach s
    → (s.bus.pending_calls ≡ s.awaited)
      × ((s.quit ≡ false) ⊎ (s.stopper ≢ Stopper.idle))
      × ((s.quit ≡ true)
          ⊎ (s.loop ≢ Loop.looping)
          ⊎ (s.stopper ≢ Stopper.checked)
          ⊎ (0 < s.awaited))
Reach-quit r =
    let i = Reach-Inv r in
    (i.counted, ground (arith, i.no_early_quit), ground (arith, i.no_lost_quit))

-- Steps that make no new call.
pub data Drains : System → System → Type 0 where
  done : {s : System} → Drains s s
  then : {s t u : System} → Step s t → t.awaited ≤ s.awaited → Drains t u → Drains s u

drain :
    (n : ℕ) (s : System)
    → Reach s
    → s.loop ≡ Loop.looping
    → s.stopper ≡ Stopper.checked
    → s.awaited ≡ n
    → (t : System) × Drains s t × (t.loop ≡ Loop.finished) × (t.awaited ≡ 0)
drain zero s r h k e = (
  _,
  Drains.then (return h ((Reach-Inv r).no_lost_quit h k e)) (omega arith) Drains.done,
  refl,
  e,
)
drain (suc n) s r h k e =
    let more : 0 < s.awaited = omega arith in
    let (t, d, fin, none_left) = drain n _ (Reach.next r (reply h more)) h k (omega arith) in
    (t, Drains.then (reply h more) (omega arith) d, fin, none_left)

-- From every reachable state in which `stop` has made its check and the loop still runs, steps that
-- make no new call lead to a state in which every reply that `pending_calls_` counts has come and the
-- loop has returned.
pub Reach-Drains :
    {s : System}
    → Reach s
    → s.loop ≡ Loop.looping
    → s.stopper ≡ Stopper.checked
    → (t : System) × Drains s t × (t.loop ≡ Loop.finished) × (t.awaited ≡ 0)
Reach-Drains {s} r h k = drain s.awaited s r h k refl
