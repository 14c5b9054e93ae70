-- ===== src/Tests/Logs.antt =====
-- Two threads that log at the same time.
use mathlib.Core.List.{Perm}
use libcppconnman.Prelude.{ℕ, ◌≡◌, refl, true, some, [], ◌∷◌, ◌++◌}
use libcppconnman.Log.{log_init, format_message, lock_mutex, put}
use libcppconnman.Log.Whole.{
  Logging, Reach, here, next, enables, formats, locks, puts, joined, rest_of, Reach-whole,
}

abbrev start : Logging ℕ
start = record { log = log_init; asked = []; taken = [] }

-- The second message gets the mutex first, and is written halfway.
abbrev halfway : Logging ℕ
halfway = record {
  log = record { enabled = true; waiting = (1 ∷ []) ∷ []; locked = some (3 ∷ []); stream = 2 ∷ [] };
  asked = (1 ∷ []) ∷ (2 ∷ 3 ∷ []) ∷ [];
  taken = (2 ∷ 3 ∷ []) ∷ [];
}

halfway_Reach : Reach halfway
unfolding format_message lock_mutex put
halfway_Reach =
    next
      (next (next (next (next here (enables true)) (formats (1 ∷ []))) (formats (2 ∷ 3 ∷ [])))
        (locks ((1 ∷ []) ∷ []) (2 ∷ 3 ∷ []) [] refl refl))
      (puts 2 (3 ∷ []) refl)

Reach-whole_example :
    (halfway.log.stream ++ rest_of halfway.log.locked ≡ joined halfway.taken)
    × Perm halfway.asked (halfway.taken ++ halfway.log.waiting)
Reach-whole_example = Reach-whole halfway_Reach
