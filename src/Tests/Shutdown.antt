-- ===== src/Tests/Shutdown.antt =====
-- The bus, with one call whose reply comes after `stop`.
use libcppconnman.Prelude.{ℕ, ◌<◌, ◌≡◌, ◌≢◌, ◌⊎◌, refl, true, false, ◌∷◌, arith}
use libcppconnman.Bus.Invoke.{
  Invocation, Completes, invoke_full, run_source, dispatched, here, then, Turns-Completes,
}
use libcppconnman.Bus.{on_any_async_start, loop_created, on_loop_started, stop_running, stop_quits}
use libcppconnman.Bus.Shutdown.{
  Loop, Stopper, System, Reach, create, started, call, flag, check, Drains, Reach-quit,
  Reach-Drains,
}
use libcppconnman.Bus.Race.{
  Racing, run, load, reply, store, stop_flag, stop_check, replies, race_blocks_stop,
}

abbrev waiting : System
waiting = record {
  bus = record { running = false; pending_calls = 1; loop = true };
  loop = Loop.looping;
  stopper = Stopper.checked;
  awaited = 1;
  quit = false;
}

waiting-Reach : Reach waiting
unfolding on_any_async_start loop_created on_loop_started stop_running stop_quits
waiting-Reach =
    let a = Reach.next Reach.here (create refl) in
    let b = Reach.next a (started refl) in
    let c = Reach.next b (call (λ q. cc) (λ q. cc) (omega arith)) in
    let d = Reach.next c (flag refl refl) in Reach.next d (check refl)

Reach-quit_example :
    (waiting.bus.pending_calls ≡ waiting.awaited)
    × ((waiting.quit ≡ false) ⊎ (waiting.stopper ≢ Stopper.idle))
    × ((waiting.quit ≡ true)
        ⊎ (waiting.loop ≢ Loop.looping)
        ⊎ (waiting.stopper ≢ Stopper.checked)
        ⊎ (0 < waiting.awaited))
Reach-quit_example = Reach-quit waiting-Reach

Reach-Drains_example : (t : System) × Drains waiting t × (t.loop ≡ Loop.finished) × (t.awaited ≡ 0)
Reach-Drains_example = Reach-Drains waiting-Reach refl refl

abbrev one_pending : Racing
one_pending = record {
  bus = record { running = true; pending_calls = 1; loop = true };
  loaded = 0;
  quit = false;
}

race_blocks_stop_example :
    let t = run one_pending (load ∷ reply ∷ store ∷ stop_flag ∷ stop_check ∷ replies 1) in
    (t.bus.pending_calls ≡ 1) × (t.quit ≡ false)
race_blocks_stop_example = race_blocks_stop 1 one_pending refl (omega arith) (omega arith) refl refl

abbrev ran : Invocation ℕ
ran = run_source 5 invoke_full

Turns-Completes_example : Completes 5 ran
unfolding run_source
Turns-Completes_example =
    Turns-Completes 5 ran (then invoke_full ran ran (dispatched invoke_full refl) (here ran))
