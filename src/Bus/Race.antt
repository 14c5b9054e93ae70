-- ===== src/Bus/Race.antt =====
-- `++pending_calls_` in onAnyAsyncStart takes no lock of the bus, while onAnyAsyncDone decrements
-- under `mtx_`: the increment of one proxy's call and the reply of another's can interleave. Here the
-- increment is its load and its store.
use libcppconnman.Prelude.{
  ℕ, zero, suc, ◌+◌, ◌%◌, ◌<◌, ◌≡◌, refl, Bool, true, false, ◌||◌, List, [], ◌∷◌, arith,
}
use libcppconnman.Bus.{DBus, word, on_any_async_done, on_any_async_start, stop_running, stop_quits}

pub record Racing : Type 0 where
  pub bus : DBus
  pub loaded : ℕ  -- the register of the thread that increments
  pub quit : Bool

pub data Event : Type 0 where
  load store reply stop_flag stop_check : Event

pub exec : Racing → Event → Racing
exec s load = record s { loaded = s.bus.pending_calls }
exec s store = record s { bus = record s.bus { pending_calls = (s.loaded + 1) % word } }
exec s reply = record s {
  bus = (on_any_async_done s.bus).0;
  quit = s.quit || (on_any_async_done s.bus).1;
}
exec s stop_flag = record s { bus = stop_running s.bus }
exec s stop_check = record s { quit = s.quit || stop_quits s.bus true }

pub run : Racing → List Event → Racing
run s [] = s
run s (e ∷ es) = run (exec s e) es

abbrev pub replies : ℕ → List Event
replies zero = []
replies (suc n) = reply ∷ replies n

-- With no reply in between, the two halves are the increment of onAnyAsyncStart.
pub run-load-store : (s : Racing) → (run s (load ∷ store ∷ [])).bus ≡ on_any_async_start s.bus
unfolding run exec on_any_async_start
run-load-store s = refl

drained :
    (n : ℕ) (s : Racing)
    → s.bus.pending_calls ≡ n + 1
    → n + 1 < word
    → s.quit ≡ false
    → ((run s (replies n)).bus.pending_calls ≡ 1) × ((run s (replies n)).quit ≡ false)
unfolding run exec on_any_async_done
drained zero s h k q = (h, q)
drained (suc n) s h k q = drained n (exec s reply) (ground arith) (omega arith) (ground arith)

-- From `n` awaited replies, 0 < n, a reply between the load and the store of one more call leaves the
-- count one too high: after `stop` and all the `n` replies that are still due the count is 1 and the
-- loop was never told to quit, so `stop` waits for ever.
pub race_blocks_stop :
    (n : ℕ) (s : Racing)
    → s.bus.pending_calls ≡ n
    → 0 < n
    → n + 1 < word
    → s.bus.running ≡ true
    → s.quit ≡ false
    → let t = run s (load ∷ reply ∷ store ∷ stop_flag ∷ stop_check ∷ replies n) in
      (t.bus.pending_calls ≡ 1) × (t.quit ≡ false)
unfolding run exec on_any_async_done stop_running stop_quits
race_blocks_stop n s h pos k r q = drained n _ (ground arith) k (ground arith)
