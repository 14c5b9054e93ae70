-- ===== src/Bus.antt =====
-- DBus of include/amarula/dbus/gdbus.hpp and src/dbus/gdbus.cpp: the count of calls whose reply is
-- awaited, and when the main loop is told to quit. The calls of GLib that an operation makes are its
-- result: here whether `g_main_loop_quit (loop_)` is called.
pub mod Shutdown
pub mod Race
pub mod Invoke
pub mod Drain
use libcppconnman.Prelude.{ℕ, ◌+◌, ◌-◌, ◌%◌, ◌^◌, Bool, true, false, ◌&&◌, not, ◌==◌}

pub record DBus : Type 0 where
  pub running : Bool
  pub pending_calls : ℕ  -- unsigned int
  pub loop : Bool  -- `loop_ != nullptr`

abbrev pub word : ℕ
word = 2 ^ 32

abbrev pub bus_init : DBus
bus_init = record { running = false; pending_calls = 0; loop = false }

-- `pending_calls_--` yields the old value.
unfoldable pub on_any_async_done : DBus → DBus × Bool
on_any_async_done d = (
  record d { pending_calls = (d.pending_calls + word - 1) % word },
  d.pending_calls == 1 && (not d.running && d.loop),
)

unfoldable pub on_any_async_start : DBus → DBus
on_any_async_start d = record d { pending_calls = (d.pending_calls + 1) % word }

-- The first half of `stop`, under the lock.
unfoldable pub stop_running : DBus → DBus
stop_running d = record d { running = false }

-- The second half: `is_running` is what `g_main_loop_is_running (loop_)` answers.
unfoldable pub stop_quits : DBus → Bool → Bool
stop_quits d is_running = d.loop && (is_running && d.pending_calls == 0)

unfoldable pub on_loop_started : DBus → DBus
on_loop_started d = record d { running = true }

-- The thread that `start` makes: before `g_main_loop_run`, and after it returned.
unfoldable pub loop_created : DBus → DBus
loop_created d = record d { loop = true }

unfoldable pub loop_released : DBus → DBus
loop_released d = record d { loop = false }

-- The same as one call, with no other thread in between.
unfoldable pub stop : DBus → Bool → DBus × Bool
unfolding stop_running stop_quits
stop d is_running = let d' = stop_running d in (d', stop_quits d' is_running)
